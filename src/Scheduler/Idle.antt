-- ===== src/Scheduler/Idle.antt =====
-- app/multiagent/parallel_scheduler.py: `_next_retry_delay`, `_resolve_idle`, `_finalize`,
-- `_finalize_verified_run`. Delays are milliseconds. What the integration manager's plan holds, and
-- what each of its checks answers, are arguments, as is the test for `merge_conflicts` in a task's
-- metadata. The events are left out.
use mega_deepagents.Base.{
  ℕ, String, Bool, false, not, ◌||◌, Option, none, some, List, [], ◌∷◌, ◌-◌, min, if◌then◌else◌,
  leb, ltb, eqb, any, string_eq,
}
use mega_deepagents.TaskBoard.Task.{BoardTask, BoardTaskStatus, is_pending}
use mega_deepagents.TaskBoard.Store.{Board, raw_list_by_run}
use mega_deepagents.TaskBoard.Query.{Summary, summary}
use mega_deepagents.LifecycleHooks.Engine.{ℤ}
use mega_deepagents.Permission.Request.{PermissionRequest}
use mega_deepagents.Permission.Broker
use mega_deepagents.Permission.Broker.{Requests}

pub data ScheduleStatus : Type 0 where
  completed failed incomplete cancelled waiting_human paused : ScheduleStatus

-- The texts of `error`, with what they name.
pub data ScheduleError : Type 0 where
  control_plane_intervention_required one_or_more_tasks_failed : ScheduleError
  one_or_more_tasks_cancelled scheduler_deadlock pending_high_risk_permissions : ScheduleError
  unresolved_merge_conflicts integration_verification_unavailable : ScheduleError
  integration_verification_requirements_missing : ScheduleError
  integration_verification_failed : String → ScheduleError
  task_deadlock_due_to_failed_dependency : List String → ScheduleError
  no_eligible_worker : List (List String) → List String → ScheduleError

pub record ParallelRunResult : Type 0 where
  pub status : ScheduleStatus
  pub rounds : ℕ
  pub total_tasks : ℕ
  pub succeeded : ℕ
  pub failed : ℕ
  pub error : Option ScheduleError
  pub summary : Summary

-- `_finalize`
unfoldable pub finalize :
    Board → String → ℕ → ScheduleStatus → Option ScheduleError → ParallelRunResult
unfolding summary
finalize b run_id rounds status error =
    let summarize = summary b run_id in
    record {
      status = status;
      rounds = rounds;
      total_tasks = summarize.total;
      succeeded = summarize.counts BoardTaskStatus.succeeded;
      failed = summarize.counts BoardTaskStatus.failed;
      error = error;
      summary = summarize;
    }

-- What `verify_check` does: it raises, or answers with a code and whether it was cancelled or timed
-- out.
pub data CheckOutcome : Type 0 where
  unavailable : CheckOutcome
  ran : ℤ → Bool → Bool → CheckOutcome

-- The checks of the plan, by their labels, and its `missing_requirements`.
pub record Integration : Type 0 where
  pub checks : List (String × CheckOutcome)
  pub missing_requirements : List String

abbrev pub is_zero : ℤ → Bool
is_zero (ℤ.pos n) = eqb n 0
is_zero (ℤ.negsuc n) = false

abbrev pub Ending : Type 0
Ending = ScheduleStatus × Option ScheduleError

-- The loop over the checks: how the first that does not pass ends the run.
unfoldable pub first_failure : List (String × CheckOutcome) → Option Ending
first_failure [] = none
first_failure ((label, unavailable) ∷ checks) =
    some (waiting_human, some integration_verification_unavailable)
first_failure ((label, ran returncode was_cancelled timed_out) ∷ checks) =
    let rest = first_failure checks in
    if not (is_zero returncode) || was_cancelled || timed_out
    then some (ScheduleStatus.failed, some (integration_verification_failed label))
    else rest

abbrev pub after_checks : List String → Option Ending → Ending
after_checks missing (some ending) = ending
after_checks [] none = (completed, none)
after_checks (m ∷ missing) none =
    (waiting_human, some integration_verification_requirements_missing)

unfoldable pub integration_ending : Option Integration → Ending
unfolding first_failure
integration_ending none = (completed, none)
integration_ending (some i) = after_checks i.missing_requirements (first_failure i.checks)

unfoldable pub verified_ending : List PermissionRequest → Bool → Option Integration → Ending
unfolding integration_ending
verified_ending (p ∷ pending) conflicts integration =
    (waiting_human, some pending_high_risk_permissions)
verified_ending [] conflicts integration =
    if conflicts
    then (ScheduleStatus.failed, some unresolved_merge_conflicts)
    else integration_ending integration

-- What the gates of a run look at beside its board.
pub record Gates : Type 0 where
  pub requests : Requests
  pub has_merge_conflicts : BoardTask → Bool
  pub integration : Option Integration

-- `_finalize_verified_run`
unfoldable pub finalize_verified_run : Board → String → Gates → ℕ → ParallelRunResult
unfolding finalize verified_ending raw_list_by_run Broker.list_pending
finalize_verified_run b run_id g rounds =
    let (status, error) =
      verified_ending (Broker.list_pending g.requests run_id)
        (any g.has_merge_conflicts (raw_list_by_run b run_id)) g.integration in
    finalize b run_id rounds status error

abbrev pub earlier : Option ℕ → ℕ → ℕ
earlier none remaining = remaining
earlier (some soonest) remaining = if ltb remaining soonest then remaining else soonest

-- The loop of `_next_retry_delay`.
unfoldable pub soonest_delay : ℕ → Option ℕ → List BoardTask → Option ℕ
soonest_delay now none [] = none
soonest_delay now (some soonest) [] = some (min soonest 5_000)
soonest_delay now soonest (t ∷ ts) =
    let skip = soonest_delay now soonest ts in
    if is_pending t.status
    then elim t.next_attempt_at [
      | none ↦ skip
      | some due ↦
          let next = soonest_delay now (some (earlier soonest (due - now))) ts in
          if leb due now then some 50 else next
    ]
    else skip

-- `_next_retry_delay`
unfoldable pub next_retry_delay : Board → String → ℕ → Option ℕ
unfolding soonest_delay raw_list_by_run
next_retry_delay b run_id now = soonest_delay now none (raw_list_by_run b run_id)
