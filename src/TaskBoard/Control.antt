-- ===== src/TaskBoard/Control.antt =====
-- app/multiagent/task_board.py: the methods of the control plane on one task: the verifier's
-- verdicts, `retry`, `cancel`, `request_replan`, `supersede_with_repair`.
use mega_deepagents.Base.{
  ℕ, ◌+◌, String, Bool, Option, none, some, [], ◌∷◌, ◌++◌, if◌then◌else◌, leb,
}
use mega_deepagents.TaskBoard.Task.{
  BoardTask, pending, verifying, succeeded, repair_required, replan_required, cancelled,
  is_produced, awaits_verdict, is_repair_required, is_retryable, is_terminal, is_cancelled,
}
use mega_deepagents.TaskBoard.Store.{Board, transact}
use mega_deepagents.TaskBoard.Failure.{append_bounded}

unfoldable pub mark_verifying_task : ℕ → BoardTask → Option BoardTask
mark_verifying_task now t =
    if is_produced t.status then some (record t { status = verifying; updated_at = now }) else none

unfoldable pub mark_verifying : Board → String → Option String → ℕ → Board × Bool
unfolding mark_verifying_task
mark_verifying b task_id run_id now = transact b task_id run_id (mark_verifying_task now)

unfoldable pub mark_verified_task : ℕ → BoardTask → Option BoardTask
mark_verified_task now t =
    if awaits_verdict t.status
    then some (record t { status = succeeded; completed_at = some now; updated_at = now })
    else none

unfoldable pub mark_verified : Board → String → Option String → ℕ → Board × Bool
unfolding mark_verified_task
mark_verified b task_id run_id now = transact b task_id run_id (mark_verified_task now)

unfoldable pub mark_repair_required_task : ℕ → BoardTask → Option BoardTask
mark_repair_required_task now t =
    if awaits_verdict t.status
    then some (record t { status = repair_required; updated_at = now })
    else none

unfoldable pub mark_repair_required : Board → String → Option String → ℕ → Board × Bool
unfolding mark_repair_required_task
mark_repair_required b task_id run_id now =
    transact b task_id run_id (mark_repair_required_task now)

unfoldable pub supersede_task : String → ℕ → BoardTask → Option BoardTask
supersede_task repair_task_id now t =
    if is_repair_required t.status
    then some (record t {
      metadata = record t.metadata { superseded_by_repair = some repair_task_id };
      updated_at = now;
    })
    else none

unfoldable pub supersede_with_repair : Board → String → String → String → ℕ → Board × Bool
unfolding supersede_task
supersede_with_repair b task_id repair_task_id run_id now =
    transact b task_id (some run_id) (supersede_task repair_task_id now)

-- The new attempt counters: `(attempts, max_attempts)`.
abbrev retry_counters : Bool → BoardTask → ℕ × ℕ
retry_counters reset_attempts t =
    if reset_attempts
    then (0, t.max_attempts)
    else (if leb t.max_attempts t.attempts
        then (t.attempts, t.attempts + 1)
        else (t.attempts, t.max_attempts))

unfoldable pub retry_task : String → Bool → ℕ → BoardTask → Option BoardTask
retry_task reason reset_attempts now t =
    if is_retryable t.status
    then some (record t {
      metadata = record t.metadata {
        manual_retries =
            t.metadata.manual_retries
            ++ record {
              reason = reason;
              previous_status = t.status;
              previous_attempts = t.attempts;
              timestamp = now;
            }
              ∷ [];
      };
      attempts = (retry_counters reset_attempts t).0;
      max_attempts = (retry_counters reset_attempts t).1;
      status = pending;
      claimed_by = none;
      claimed_at = none;
      completed_at = none;
      next_attempt_at = none;
      last_error = some reason;
      updated_at = now;
    })
    else none

unfoldable pub retry : Board → String → String → String → Bool → ℕ → Board × Bool
unfolding retry_task
retry b task_id run_id reason reset_attempts now =
    transact b task_id (some run_id) (retry_task reason reset_attempts now)

unfoldable pub cancel_task : String → ℕ → BoardTask → Option BoardTask
cancel_task reason now t =
    if is_terminal t.status
    then none
    else some (record t {
      status = cancelled;
      last_error = some reason;
      completed_at = some now;
      updated_at = now;
    })

unfoldable pub cancel : Board → String → String → Option String → ℕ → Board × Bool
unfolding cancel_task
cancel b task_id reason run_id now = transact b task_id run_id (cancel_task reason now)

unfoldable pub request_replan_task : String → String → ℕ → BoardTask → Option BoardTask
unfolding append_bounded
request_replan_task reason requested_by now t =
    if is_cancelled t.status
    then none
    else some (record t {
      metadata = record t.metadata {
        replan_requests = append_bounded t.metadata.replan_requests (record {
          requested_by = requested_by;
          reason = reason;
          requested_at = now;
          previous_status = t.status;
        });
      };
      status = replan_required;
      last_error = some reason;
      completed_at = none;
      updated_at = now;
    })

unfoldable pub request_replan : Board → String → String → String → Option String → ℕ → Board × Bool
unfolding request_replan_task
request_replan b task_id reason requested_by run_id now =
    transact b task_id run_id (request_replan_task reason requested_by now)
