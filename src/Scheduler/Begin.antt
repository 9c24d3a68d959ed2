-- ===== src/Scheduler/Begin.antt =====
-- app/multiagent/parallel_scheduler.py: `_run_one` until the task is started: the agent is reserved,
-- the task claimed and started, and both are given back where the board or a hook refuses. The
-- results of the two emissions are arguments. Left out: the wake-up of busy agents where none is
-- idle, and the teammate's session, which mirrors the states of the agent.
use mega_deepagents.Base.{
  ℕ, String, Bool, not, ◌||◌, Option, none, some, if◌then◌else◌, ◌==◌, string_eq,
}
use mega_deepagents.Agent.Instance.{AgentInstance}
use mega_deepagents.Registry.Pool.{Registry, reserve_idle_agent}
use mega_deepagents.Registry.Leases.{release_reservation}
use mega_deepagents.TaskBoard.Task.{BoardTask}
use mega_deepagents.TaskBoard.Store.{Board}
use mega_deepagents.TaskBoard.Worker.{ClaimResult, claim, start, release}
use mega_deepagents.LifecycleHooks.Engine.{HookResult}

-- How it ended: the run was cancelled or no agent was reserved, agent and task were given back, or the
-- agent has started.
pub data Begun : Type 0 where
  not_begun given_back : Begun
  started : AgentInstance → Begun

-- `hook.block or not hook.allow`
abbrev pub stops_task : HookResult → Bool
stops_task hook = hook.block || not hook.allow

-- `hook.feedback or reason`
abbrev pub feedback_or : HookResult → String → String
feedback_or hook reason = if hook.feedback == "" then reason else hook.feedback

-- `release_reservation`, and return.
unfoldable pub give_back : Registry → Board → String → AgentInstance → ℕ → Registry × Board × Begun
unfolding release_reservation
give_back r b task_id a now =
    ((release_reservation r a.agent_id (some task_id) now).0, b, given_back)

-- `board.release` before it.
unfoldable pub release_and_give_back :
    Registry → Board → String → String → AgentInstance → String → ℕ → Registry × Board × Begun
unfolding release give_back
release_and_give_back r b run_id task_id a reason now =
    give_back r (release b task_id a.agent_id reason (some run_id) now).0 task_id a now

-- What follows `board.start`.
unfoldable pub after_start :
    Registry
    → String
    → String
    → AgentInstance
    → HookResult
    → ℕ
    → Board × Bool
    → Registry × Board × Begun
unfolding release_and_give_back
after_start r run_id task_id a start_hook now (b, ok) =
    if not ok
    then release_and_give_back r b run_id task_id a "start_failed" now
    else (if stops_task start_hook
        then release_and_give_back r b run_id task_id a
            (feedback_or start_hook "TaskStarted hook blocked") now
        else (r, b, started a))

-- What follows `board.claim`.
unfoldable pub after_claim :
    Registry
    → String
    → String
    → AgentInstance
    → HookResult
    → HookResult
    → ℕ
    → Board × ClaimResult
    → Registry × Board × Begun
unfolding after_start start
after_claim r run_id task_id a claim_hook start_hook now (b, result) =
    if not result.success
    then give_back r b task_id a now
    else (if stops_task claim_hook
        then release_and_give_back r b run_id task_id a
            (feedback_or claim_hook "TaskClaimed hook blocked") now
        else after_start r run_id task_id a start_hook now
            (start b task_id a.agent_id (some run_id) now))

-- What follows `reserve_idle_agent`.
unfoldable pub after_reservation :
    Board
    → String
    → String
    → HookResult
    → HookResult
    → ℕ
    → Registry × Option AgentInstance
    → Registry × Board × Begun
unfolding claim after_claim
after_reservation b run_id task_id claim_hook start_hook now (r, none) = (r, b, not_begun)
after_reservation b run_id task_id claim_hook start_hook now (r, some a) =
    after_claim r run_id task_id a claim_hook start_hook now
      (claim b task_id a.agent_id (some run_id) now)

-- `_run_one`, up to the start of the task; `is_cancelled` is `cancel_event.is_set()`, and `hint` the
-- agent that the task's hint names.
unfoldable pub begin_task :
    Bool
    → Registry
    → Board
    → String
    → BoardTask
    → Option String
    → HookResult
    → HookResult
    → ℕ
    → Registry × Board × Begun
unfolding reserve_idle_agent after_reservation
begin_task is_cancelled r b run_id t hint claim_hook start_hook now =
    if is_cancelled
    then (r, b, not_begun)
    else after_reservation b run_id t.task_id claim_hook start_hook now
        (reserve_idle_agent r run_id t.required_capabilities t.task_id hint now)
