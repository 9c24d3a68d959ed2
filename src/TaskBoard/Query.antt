-- ===== src/TaskBoard/Query.antt =====
-- app/multiagent/task_board.py: the queries `list_pending`, `list_claimable`, `all_succeeded`,
-- `summary`.
use mega_deepagents.Base.{
  ℕ, String, Bool, true, false, not, ◌&&◌, ◌||◌, Option, none, some, List, [], ◌∷◌, if◌then◌else◌,
  leb, ltb, eqb, all, keep, length, contains, ◌==◌, string_eq, pair_eq,
}
use mega_deepagents.Base.Dict.{lookup}
use mega_deepagents.TaskBoard.Task.{
  BoardTask, BoardTaskStatus, pending, claimed, running, produced, verifying, succeeded,
  repair_required, replan_required, failed, blocked, cancelled, is_pending, is_succeeded,
  is_repair_required,
}
use mega_deepagents.TaskBoard.Store.{Board, raw_list_by_run}
use mega_deepagents.TaskBoard.Worker.{is_done}

-- `next_attempt_at is None or next_attempt_at <= now`
abbrev pub is_due : ℕ → Option ℕ → Bool
is_due now none = true
is_due now (some at) = leb at now

unfoldable pub list_pending : Board → String → ℕ → List BoardTask
list_pending b run_id now =
    keep (λ t. is_pending t.status && is_due now t.next_attempt_at) (raw_list_by_run b run_id)

-- `set(required).issubset(set(capabilities))`, tested only if neither list is empty.
unfoldable pub covers : List String → List String → Bool
covers [] required = true
covers (c ∷ cs) required = all (λ r. contains (c ∷ cs) r) required

unfoldable pub is_claimable : Board → String → List String → BoardTask → Bool
unfolding covers
is_claimable b run_id capabilities t =
    all (λ d. is_done (lookup (run_id, d) b.tasks)) t.dependencies
    && covers capabilities t.required_capabilities

-- `result.sort(key=lambda x: -x.priority)`: stable, the highest priority first.
unfoldable pub insert_by_priority : BoardTask → List BoardTask → List BoardTask
insert_by_priority t [] = t ∷ []
insert_by_priority t (u ∷ us) =
    let rest = insert_by_priority t us in if ltb t.priority u.priority then u ∷ rest else t ∷ u ∷ us

unfoldable pub sort_by_priority : List BoardTask → List BoardTask
unfolding insert_by_priority
sort_by_priority [] = []
sort_by_priority (t ∷ ts) = insert_by_priority t (sort_by_priority ts)

unfoldable pub list_claimable : Board → String → List String → ℕ → List BoardTask
unfolding list_pending is_claimable sort_by_priority
list_claimable b run_id capabilities now =
    sort_by_priority (keep (is_claimable b run_id capabilities) (list_pending b run_id now))

-- `bool(metadata.get(key))` of a text and of a number.
abbrev pub truthy_text : Option String → Bool
truthy_text none = false
truthy_text (some s) = not (s == "")

abbrev pub truthy_number : Option ℕ → Bool
truthy_number none = false
truthy_number (some n) = not (eqb n 0)

unfoldable pub is_resolved : BoardTask → Bool
is_resolved t =
    is_succeeded t.status
    || truthy_number t.metadata.superseded_by_plan_revision
    || (is_repair_required t.status && truthy_text t.metadata.superseded_by_repair)

unfoldable pub all_succeeded : Board → String → Bool
unfolding is_resolved
all_succeeded b run_id = all is_resolved (raw_list_by_run b run_id)

abbrev pub same_status : BoardTaskStatus → BoardTaskStatus → Bool
same_status pending pending = true
same_status claimed claimed = true
same_status running running = true
same_status produced produced = true
same_status verifying verifying = true
same_status succeeded succeeded = true
same_status repair_required repair_required = true
same_status replan_required replan_required = true
same_status failed failed = true
same_status blocked blocked = true
same_status cancelled cancelled = true
same_status _ _ = false

-- How many tasks there are, in each status and in all.
pub record Summary : Type 0 where
  pub counts : BoardTaskStatus → ℕ
  pub total : ℕ

unfoldable pub summary : Board → String → Summary
summary b run_id = record {
  counts = λ s. length (keep (λ t. same_status t.status s) (raw_list_by_run b run_id));
  total = length (raw_list_by_run b run_id);
}
