-- ===== src/Scheduler/Ending.antt =====
-- app/multiagent/parallel_scheduler.py: when a run ends as completed, and when a retry is looked at.
use mega_deepagents.Base.{
  ℕ, String, Bool, true, false, not, ◌&&◌, Option, none, some, List, [], ◌∷◌, ◌≡◌, refl, ◌∙◌, arith,
  inl, inr, Bool-cases, all, any, eqb, length, if◌then◌else◌,
}
use mega_deepagents.Registry.Pool.{Registry}
use mega_deepagents.TaskBoard.Task.{BoardTask}
use mega_deepagents.TaskBoard.Store.{Board, raw_list_by_run}
use mega_deepagents.TaskBoard.Query.{all_succeeded}
use mega_deepagents.Permission.Request.{PermissionRequest}
use mega_deepagents.Permission.Broker
use mega_deepagents.Scheduler.Idle.{
  ScheduleStatus, ScheduleError, CheckOutcome, unavailable, ran, Integration, is_zero, Ending,
  first_failure, after_checks, integration_ending, verified_ending, Gates, finalize,
  finalize_verified_run,
}
use mega_deepagents.Scheduler.Resolve.{
  deadlock_ending, or_ending, terminal_ending, pending_ending, deadlocked, stuck_ending, Resolution,
  finished, sleep, wait_or_end, deferred, resolve_idle, needs_control, has_failed,
}
use mega_deepagents.TaskBoard.Task.{is_terminal, is_cancelled}

abbrev is_success : ScheduleStatus → Bool
is_success ScheduleStatus.completed = true
is_success _ = false

-- The run is over, and COMPLETED.
abbrev pub ends_completed : Resolution → Bool
ends_completed (finished result) = is_success result.status
ends_completed (sleep ids delay) = false

-- A check that ran to the end with code 0.
abbrev pub passed : CheckOutcome → Bool
passed unavailable = false
passed (ran returncode was_cancelled timed_out) =
    is_zero returncode && not was_cancelled && not timed_out

-- Every check passed, and nothing that the plan requires is missing.
abbrev pub all_passed : Option Integration → Bool
all_passed none = true
all_passed (some i) = all (λ c. passed c.1) i.checks && eqb (length i.missing_requirements) 0

first_failure-completed :
    (missing : List String) (checks : List (String × CheckOutcome))
    → is_success (after_checks missing (first_failure checks)).0
      ≡ (all (λ c. passed c.1) checks && is_success (after_checks missing none).0)
unfolding first_failure
first_failure-completed missing [] = refl
first_failure-completed missing ((label, unavailable) ∷ checks) = refl
first_failure-completed missing ((label, ran code was_cancelled timed_out) ∷ checks) =
    ground (arith, first_failure-completed missing checks)

after_checks-completed :
    (missing : List String) → is_success (after_checks missing none).0 ≡ eqb (length missing) 0
after_checks-completed [] = refl
after_checks-completed (m ∷ missing) = ground arith

integration_ending-completed :
    (i : Option Integration) → is_success (integration_ending i).0 ≡ all_passed i
unfolding integration_ending
integration_ending-completed none = refl
integration_ending-completed (some i) =
    first_failure-completed i.missing_requirements i.checks
    ∙ rw (after_checks-completed i.missing_requirements) refl

abbrev pub none_of {ℓ} : {A : Type ℓ} → List A → Bool
none_of [] = true
none_of (x ∷ xs) = false

verified_ending-completed :
    (requests : List PermissionRequest) (conflicts : Bool) (i : Option Integration)
    → is_success (verified_ending requests conflicts i).0
      ≡ (none_of requests && not conflicts && all_passed i)
unfolding verified_ending
verified_ending-completed (p ∷ requests) conflicts i = refl
verified_ending-completed [] true i = refl
verified_ending-completed [] false i = integration_ending-completed i

-- Nothing but the gates ends a run as completed.
terminal_ending-not_completed :
    (ts : List BoardTask) (e : Ending)
    → is_success e.0 ≡ false
    → is_success (or_ending (terminal_ending ts) e).0 ≡ false
unfolding terminal_ending
terminal_ending-not_completed [] e h = h
terminal_ending-not_completed (t ∷ ts) e h =
    choose (all (λ u. is_terminal u.status) (t ∷ ts)) (any (λ u. has_failed u.status) (t ∷ ts))
      (any (λ u. is_cancelled u.status) (t ∷ ts)) e h
  where
    choose :
        (x y z : Bool) (e : Ending)
        → is_success e.0 ≡ false
        → is_success
            (or_ending
              (if x
                then (if y
                    then some (ScheduleStatus.failed, some ScheduleError.one_or_more_tasks_failed)
                    else (if z
                        then some (
                          ScheduleStatus.cancelled,
                          some ScheduleError.one_or_more_tasks_cancelled,
                        )
                        else none))
                else none)
              e).0
          ≡ false
    choose true true z e h = refl
    choose true false true e h = refl
    choose true false false e h = h
    choose false y z e h = h

deadlock_ending-not_completed :
    (ts : List BoardTask) (e : Ending)
    → is_success e.0 ≡ false
    → is_success (deadlock_ending ts e).0 ≡ false
deadlock_ending-not_completed [] e h = h
deadlock_ending-not_completed (t ∷ ts) e h = refl

pending_ending-not_completed :
    (b : Board) (r : Registry) (run : String) (ts : List BoardTask)
    → is_success (pending_ending b r run ts).0 ≡ false
unfolding pending_ending
pending_ending-not_completed b r run [] = refl
pending_ending-not_completed b r run (t ∷ ts) = refl

stuck_ending-not_completed :
    (b : Board) (r : Registry) (run : String) (ts : List BoardTask)
    → is_success (stuck_ending b r run ts).0 ≡ false
unfolding stuck_ending
stuck_ending-not_completed b r run ts = elim (Bool-cases (any (λ t. needs_control t.status) ts)) [
  | inl e ↦ rw e refl
  | inr e ↦ rw e (
      terminal_ending-not_completed ts _
        (deadlock_ending-not_completed (deadlocked ts) _ (pending_ending-not_completed b r run _)))
]

wait_or_end-not_completed :
    (b : Board) (r : Registry) (run : String) (rounds now : ℕ) (ts later : List BoardTask)
    → ends_completed (wait_or_end b r run rounds now ts later) ≡ false
unfolding wait_or_end finalize
wait_or_end-not_completed b r run rounds now ts [] = stuck_ending-not_completed b r run ts
wait_or_end-not_completed b r run rounds now ts (t ∷ later) = refl

-- _resolve_idle ends a run as COMPLETED exactly if every task of it has succeeded or was
-- superseded by a repair or by a revision of the plan, no request for a permission of it is
-- pending, no task has unresolved merge conflicts, and, if there is an integration manager, each
-- check of its plan ran to its end with code 0 and nothing that the plan requires is missing.
pub resolve_idle-completed :
    (b : Board) (r : Registry) (run : String) (g : Gates) (rounds now : ℕ)
    → ends_completed (resolve_idle b r run g rounds now) ≡ (
        all_succeeded b run
        && (none_of (Broker.list_pending g.requests run)
            && not (any g.has_merge_conflicts (raw_list_by_run b run))
            && all_passed g.integration))
unfolding resolve_idle finalize_verified_run finalize
resolve_idle-completed b r run g rounds now = elim (Bool-cases (all_succeeded b run)) [
  | inl e ↦ rw e (
      verified_ending-completed (Broker.list_pending g.requests run)
        (any g.has_merge_conflicts (raw_list_by_run b run)) g.integration)
  | inr e ↦ rw e (
      wait_or_end-not_completed b r run rounds now (raw_list_by_run b run)
        (deferred now (raw_list_by_run b run)))
]
