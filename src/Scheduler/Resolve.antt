-- ===== src/Scheduler/Resolve.antt =====
-- app/multiagent/parallel_scheduler.py: `_resolve_idle`, when nothing runs and nothing can be
-- dispatched. The clock is read once; delays are milliseconds; the events are left out.
use mega_deepagents.Base.{
  ℕ, String, Bool, true, false, ◌&&◌, ◌||◌, Option, none, some, List, [], ◌∷◌, ◌-◌, ◌++◌, min, max,
  map, if◌then◌else◌, ltb, all, any, keep, contains, string_eq,
}
use mega_deepagents.Base.Lists.{sort_by}
use mega_deepagents.Agent.Instance.{AgentInstance}
use mega_deepagents.Registry.Pool.{Registry}
use mega_deepagents.TaskBoard.Task.{
  BoardTask, BoardTaskStatus, failed, blocked, repair_required, replan_required, is_pending,
  is_cancelled, is_terminal,
}
use mega_deepagents.TaskBoard.Store.{Board, raw_list_by_run}
use mega_deepagents.TaskBoard.Worker.{unique_from}
use mega_deepagents.TaskBoard.Query.{all_succeeded}
use mega_deepagents.TaskGraph.Ready.{name_lt}
use mega_deepagents.Scheduler.Dispatch.{deps_satisfied, truly_unserviceable, live_agents}
use mega_deepagents.Scheduler.Idle.{
  ScheduleStatus, ScheduleError, ParallelRunResult, Gates, Ending, finalize, finalize_verified_run,
}

-- `in (BLOCKED, REPAIR_REQUIRED, REPLAN_REQUIRED)`
abbrev pub needs_control : BoardTaskStatus → Bool
needs_control blocked = true
needs_control repair_required = true
needs_control replan_required = true
needs_control _ = false

abbrev pub has_failed : BoardTaskStatus → Bool
has_failed failed = true
has_failed _ = false

-- `next_attempt_at is not None and next_attempt_at > now`
abbrev pub is_later : ℕ → Option ℕ → Bool
is_later now none = false
is_later now (some due) = ltb now due

-- `deferred`
unfoldable pub deferred : ℕ → List BoardTask → List BoardTask
deferred now ts = keep (λ t. is_pending t.status && is_later now t.next_attempt_at) ts

abbrev pub due_of : Option ℕ → ℕ
due_of none = 0
due_of (some due) = due

-- `min(task.next_attempt_at for task in deferred)`, of the first and the others
unfoldable pub due_at : ℕ → List BoardTask → ℕ
due_at first [] = first
due_at first (t ∷ ts) = due_at (min first (due_of t.next_attempt_at)) ts

-- How every task's being terminal ends the run: `none` goes on.
unfoldable pub terminal_ending : List BoardTask → Option Ending
terminal_ending [] = none
terminal_ending (t ∷ ts) =
    if all (λ u. is_terminal u.status) (t ∷ ts)
    then (if any (λ u. has_failed u.status) (t ∷ ts)
        then some (ScheduleStatus.failed, some ScheduleError.one_or_more_tasks_failed)
        else (if any (λ u. is_cancelled u.status) (t ∷ ts)
            then some (ScheduleStatus.cancelled, some ScheduleError.one_or_more_tasks_cancelled)
            else none))
    else none

-- `terminal_blocker_ids`
unfoldable pub terminal_blocker_ids : List BoardTask → List String
terminal_blocker_ids ts =
    map (λ t. t.task_id) (keep (λ t. has_failed t.status || is_cancelled t.status) ts)

-- `deadlocked`
unfoldable pub deadlocked : List BoardTask → List BoardTask
unfolding terminal_blocker_ids
deadlocked ts =
    keep (λ t. is_pending t.status && any (contains (terminal_blocker_ids ts)) t.dependencies) ts

abbrev pub capabilities_of : List AgentInstance → List String
capabilities_of [] = []
capabilities_of (a ∷ agents) = a.capabilities ++ capabilities_of agents

-- `live_agent_caps`
unfoldable pub live_agent_caps : Registry → String → List String
unfolding live_agents sort_by
live_agent_caps r run_id = sort_by name_lt (unique_from [] (capabilities_of (live_agents r run_id)))

abbrev pub task_ids : List BoardTask → List String
task_ids ts = map (λ t. t.task_id) ts

-- The ends with pending tasks, and without.
unfoldable pub pending_ending : Board → Registry → String → List BoardTask → Ending
unfolding deps_satisfied truly_unserviceable live_agent_caps
pending_ending b r run_id [] = (ScheduleStatus.failed, some ScheduleError.scheduler_deadlock)
pending_ending b r run_id (t ∷ ts) = (
  ScheduleStatus.failed,
  some (
      ScheduleError.no_eligible_worker
        (map (λ u. u.required_capabilities)
          (truly_unserviceable (live_agents r run_id) (keep (deps_satisfied b run_id) (t ∷ ts))))
        (live_agent_caps r run_id)),
)

abbrev pub deadlock_ending : List BoardTask → Ending → Ending
deadlock_ending [] ending = ending
deadlock_ending (t ∷ ts) ending = (
  ScheduleStatus.failed,
  some (ScheduleError.task_deadlock_due_to_failed_dependency (task_ids (t ∷ ts))),
)

abbrev pub or_ending : Option Ending → Ending → Ending
or_ending none ending = ending
or_ending (some ending) _ = ending

-- The tests after that of the deferred tasks.
unfoldable pub stuck_ending : Board → Registry → String → List BoardTask → Ending
unfolding terminal_ending deadlocked pending_ending
stuck_ending b r run_id ts =
    if any (λ t. needs_control t.status) ts
    then (ScheduleStatus.waiting_human, some ScheduleError.control_plane_intervention_required)
    else or_ending (terminal_ending ts) (
        deadlock_ending (deadlocked ts)
          (pending_ending b r run_id (keep (λ t. is_pending t.status) ts)))

-- A final result, or a sleep of so long for the tasks of those ids, and None.
pub data Resolution : Type 0 where
  finished : ParallelRunResult → Resolution
  sleep : List String → ℕ → Resolution

abbrev pub end_run : Board → String → ℕ → Ending → Resolution
end_run b run_id rounds (status, error) = finished (finalize b run_id rounds status error)

unfoldable pub wait_or_end :
    Board → Registry → String → ℕ → ℕ → List BoardTask → List BoardTask → Resolution
unfolding due_at stuck_ending finalize
wait_or_end b r run_id rounds now ts [] = end_run b run_id rounds (stuck_ending b r run_id ts)
wait_or_end b r run_id rounds now ts (t ∷ later) =
    sleep (task_ids (t ∷ later))
      (min (max 50 (due_at (due_of t.next_attempt_at) later - now)) 1_000)

-- `_resolve_idle`
unfoldable pub resolve_idle : Board → Registry → String → Gates → ℕ → ℕ → Resolution
unfolding all_succeeded finalize_verified_run raw_list_by_run deferred wait_or_end
resolve_idle b r run_id g rounds now =
    let ts = raw_list_by_run b run_id in
    if all_succeeded b run_id
    then finished (finalize_verified_run b run_id g rounds)
    else wait_or_end b r run_id rounds now ts (deferred now ts)
