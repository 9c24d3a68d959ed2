-- ===== src/TaskBoard/Worker.antt =====
-- app/multiagent/task_board.py: the methods that a worker calls on a task: `claim`, `start`,
-- `release`, `complete`, `mark_produced`, `mark_blocked`. Each takes the clock's reading `now`.
use mega_deepagents.Base.{
  ℕ, ◌+◌, String, Bool, true, false, ◌&&◌, Option, none, some, List, [], ◌∷◌, ◌++◌, if◌then◌else◌,
  contains, ◌==◌, option_eq, pair_eq, string_eq,
}
use mega_deepagents.Base.Dict.{Dict, lookup}
use mega_deepagents.TaskBoard.Task.{
  BoardTask, BoardTaskStatus, pending, claimed, running, produced, succeeded, blocked, is_pending,
  is_claimed, is_running, is_succeeded, is_releasable,
}
use mega_deepagents.TaskBoard.Store.{Board, Key, save, raw_get, transact}

-- The `reason` strings of a `ClaimResult`.
pub data ClaimReason : Type 0 where
  granted : ClaimReason
  task_not_found : ClaimReason
  task_not_pending : BoardTaskStatus → ClaimReason
  dependency_not_succeeded : String → ClaimReason

pub record ClaimResult : Type 0 where
  pub success : Bool
  pub task : Option BoardTask
  pub reason : ClaimReason

abbrev pub is_done : Option BoardTask → Bool
is_done none = false
is_done (some t) = is_succeeded t.status

-- The loop over `task.dependencies`: the first one that is missing or has not succeeded.
unfoldable pub blocking_dependency : (String → Option BoardTask) → List String → Option String
blocking_dependency find [] = none
blocking_dependency find (dep_id ∷ deps) =
    let rest = blocking_dependency find deps in if is_done (find dep_id) then rest else some dep_id

abbrev pub blocked_by : Option String → Option ClaimReason
blocked_by none = none
blocked_by (some dep_id) = some (dependency_not_succeeded dep_id)

-- Why a task cannot be claimed, given the dictionary that holds its run's tasks.
unfoldable pub claim_refusal : Dict Key BoardTask → BoardTask → Option ClaimReason
claim_refusal found t =
    if is_pending t.status
    then blocked_by (blocking_dependency (λ d. lookup (t.run_id, d) found) t.dependencies)
    else some (task_not_pending t.status)

unfoldable pub grant : String → ℕ → BoardTask → BoardTask
grant agent_id now t = record t {
  status = claimed;
  claimed_by = some agent_id;
  claimed_at = some now;
  updated_at = now;
}

abbrev pub refuse : Option BoardTask → ClaimReason → ClaimResult
refuse t reason = record { success = false; task = t; reason = reason }

abbrev pub accept : BoardTask → ClaimResult
accept t = record { success = true; task = some t; reason = granted }

abbrev pub finish_claim : Board → String → ℕ → BoardTask → Option ClaimReason → Board × ClaimResult
finish_claim b agent_id now t (some reason) = (b, refuse (some t) reason)
finish_claim b agent_id now t none = (save (grant agent_id now t) b, accept (grant agent_id now t))

-- The durable branch: the row of the table decides, not the copy in memory.
abbrev pub claim_row : Board → String → ℕ → Option BoardTask → Board × ClaimResult
claim_row b agent_id now none = (b, refuse none task_not_found)
claim_row b agent_id now (some t) = finish_claim b agent_id now t (claim_refusal b.rows t)

abbrev pub claim_found : Board → String → String → ℕ → Option BoardTask → Board × ClaimResult
claim_found b task_id agent_id now none = (b, refuse none task_not_found)
claim_found b task_id agent_id now (some t) =
    if b.persist_enabled
    then claim_row b agent_id now (lookup (t.run_id, task_id) b.rows)
    else finish_claim b agent_id now t (claim_refusal b.tasks t)

unfoldable pub claim : Board → String → String → Option String → ℕ → Board × ClaimResult
claim b task_id agent_id run_id now = claim_found b task_id agent_id now (raw_get b task_id run_id)

-- `task.claimed_by == agent_id`
abbrev pub holds : String → BoardTask → Bool
holds agent_id t = t.claimed_by == some agent_id

unfoldable pub start_task : String → ℕ → BoardTask → Option BoardTask
start_task agent_id now t =
    if holds agent_id t && is_claimed t.status
    then some (record t { status = running; updated_at = now })
    else none

unfoldable pub start : Board → String → String → Option String → ℕ → Board × Bool
unfolding start_task
start b task_id agent_id run_id now = transact b task_id run_id (start_task agent_id now)

-- `reason or None`
abbrev or_none : String → Option String
or_none reason = if reason == "" then none else some reason

unfoldable pub release_task : String → String → ℕ → BoardTask → Option BoardTask
release_task agent_id reason now t =
    if holds agent_id t && is_releasable t.status
    then some (record t {
      status = pending;
      claimed_by = none;
      claimed_at = none;
      attempts = t.attempts + 1;
      last_error = or_none reason;
      updated_at = now;
    })
    else none

unfoldable pub release : Board → String → String → String → Option String → ℕ → Board × Bool
unfolding release_task
release b task_id agent_id reason run_id now =
    transact b task_id run_id (release_task agent_id reason now)

unfoldable pub complete_task : String → List String → ℕ → BoardTask → Option BoardTask
complete_task agent_id artifact_ids now t =
    if holds agent_id t
    then some (record t {
      status = succeeded;
      produced_artifact_ids = t.produced_artifact_ids ++ artifact_ids;
      completed_at = some now;
      updated_at = now;
    })
    else none

unfoldable pub complete : Board → String → String → List String → Option String → ℕ → Board × Bool
unfolding complete_task
complete b task_id agent_id artifact_ids run_id now =
    transact b task_id run_id (complete_task agent_id artifact_ids now)

-- `list(dict.fromkeys(xs))`: the first of equal elements stays.
unfoldable pub unique_from : List String → List String → List String
unique_from seen [] = []
unique_from seen (x ∷ xs) =
    let old = unique_from seen xs in
    let new = x ∷ unique_from (x ∷ seen) xs in if contains seen x then old else new

unfoldable pub mark_produced_task : String → List String → ℕ → BoardTask → Option BoardTask
unfolding unique_from
mark_produced_task agent_id artifact_ids now t =
    if holds agent_id t && is_running t.status
    then some (record t {
      status = produced;
      produced_artifact_ids = unique_from [] artifact_ids;
      updated_at = now;
    })
    else none

unfoldable pub mark_produced :
    Board → String → String → List String → Option String → ℕ → Board × Bool
unfolding mark_produced_task
mark_produced b task_id agent_id artifact_ids run_id now =
    transact b task_id run_id (mark_produced_task agent_id artifact_ids now)

unfoldable pub mark_blocked_task : String → String → ℕ → BoardTask → Option BoardTask
mark_blocked_task agent_id reason now t =
    if holds agent_id t && is_running t.status
    then some (record t { status = blocked; last_error = some reason; updated_at = now })
    else none

unfoldable pub mark_blocked : Board → String → String → String → Option String → ℕ → Board × Bool
unfolding mark_blocked_task
mark_blocked b task_id agent_id reason run_id now =
    transact b task_id run_id (mark_blocked_task agent_id reason now)
