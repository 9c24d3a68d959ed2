-- ===== src/TaskBoard/Failure.antt =====
-- app/multiagent/task_board.py: `fail`, with its three outcomes: an ordinary retry, a grace retry
-- after a rate limit, and the permanent failure.
use mega_deepagents.Base.{
  ℕ, ◌+◌, ◌-◌, ◌*◌, ◌^◌, min, String, Bool, ◌&&◌, Option, none, some, List, [], ◌∷◌, ◌++◌,
  if◌then◌else◌, ltb, length, drop, ◌==◌, option_eq, string_eq,
}
use mega_deepagents.TaskBoard.Task.{BoardTask, pending, failed}
use mega_deepagents.TaskBoard.Store.{Board, transact}
use mega_deepagents.TaskBoard.Worker.{holds}

abbrev pub rate_limit_grace : ℕ
rate_limit_grace = 5

abbrev pub history_limit : ℕ
history_limit = 20

-- `history.append(x); if len(history) > 20: del history[:-20]`
unfoldable pub append_bounded {ℓ} : {A : Type ℓ} → List A → A → List A
append_bounded xs x =
    let ys = xs ++ x ∷ [] in
    if ltb history_limit (length ys) then drop (length ys - history_limit) ys else ys

-- The assignments before the branches.
unfoldable pub record_failure : String → String → ℕ → BoardTask → BoardTask
unfolding append_bounded
record_failure error category now t = record t {
  attempts = t.attempts + 1;
  last_error = some error;
  updated_at = now;
  metadata = record t.metadata {
    error_history = append_bounded t.metadata.error_history (record {
      attempt = t.attempts + 1;
      category = category;
      message = error;
      timestamp = now;
    });
  };
}

unfoldable pub requeue : ℕ → BoardTask → BoardTask
requeue at t = record t {
  status = pending;
  claimed_by = none;
  claimed_at = none;
  next_attempt_at = some at;
}

-- min(300 s, 15 s * 2 ** max(0, attempts - 1)), in milliseconds.
unfoldable pub grace_delay : ℕ → ℕ
grace_delay attempts = min 300_000 (15_000 * 2 ^ (attempts - 1))

unfoldable pub use_grace : BoardTask → BoardTask
use_grace t = record t {
  metadata = record t.metadata { rate_limit_grace_used = t.metadata.rate_limit_grace_used + 1 };
}

unfoldable pub give_up : ℕ → BoardTask → BoardTask
give_up now t = record t { status = failed; completed_at = some now; next_attempt_at = none }

-- The branches, on the task whose failure has been recorded. `delay` is `max(0.0, …)` of a float
-- in the source; a natural number of milliseconds is never below 0.
unfoldable pub settle : Bool → ℕ → String → ℕ → BoardTask → BoardTask
unfolding requeue use_grace give_up
settle retryable delay category now t =
    if retryable && ltb t.attempts t.max_attempts
    then requeue (now + delay) t
    else (if category == "rate_limited" && ltb t.metadata.rate_limit_grace_used rate_limit_grace
        then requeue (now + grace_delay t.attempts) (use_grace t)
        else give_up now t)

unfoldable pub fail_task : String → String → Bool → ℕ → String → ℕ → BoardTask → Option BoardTask
unfolding record_failure settle
fail_task agent_id error retryable delay category now t =
    if holds agent_id t
    then some (settle retryable delay category now (record_failure error category now t))
    else none

unfoldable pub fail :
    Board → String → String → String → Option String → Bool → ℕ → String → ℕ → Board × Bool
unfolding fail_task
fail b task_id agent_id error run_id retryable delay category now =
    transact b task_id run_id (fail_task agent_id error retryable delay category now)
