-- ===== src/Scheduler/Handover.antt =====
-- app/multiagent/parallel_scheduler.py: how the steps of `_run_one` move an agent and a task.
use mega_deepagents.Base.{
  ℕ, String, true, Option, none, some, ◌≡◌, refl, ◌∙◌, arith, string_eq, option_eq, pair_eq,
  eq_self,
}
use mega_deepagents.Base.Dict.{lookup, lookup-insert}
use mega_deepagents.Agent.Instance.{AgentInstance, AgentStatus, update_status, is_idle}
use mega_deepagents.Agent.Instance
use mega_deepagents.Registry.Pool
use mega_deepagents.Registry.Pool.{Registry, reserve_idle_agent, use_caps_list}
use mega_deepagents.Registry.Leases.{release_reservation, release_agent, on_agent}
use mega_deepagents.TaskBoard.Task.{
  BoardTask, BoardTaskStatus, pending, claimed, running, is_releasable,
}
use mega_deepagents.TaskBoard.Store.{Board, raw_get}
use mega_deepagents.TaskBoard.Worker.{start, start_task, release, release_task}
use mega_deepagents.TaskBoard.WellFormed.{IsWellFormed}
use mega_deepagents.TaskBoard.Invariant.{IsSound, transact-IsSound}
use mega_deepagents.TaskBoard.Validity.{start-Keeps, release-Keeps}
use mega_deepagents.TaskBoard.Frame.{lookup-transact_self, applied}

-- The registry holds the agent, CLAIMING with the task.
abbrev pub IsReserved : Registry → String → AgentInstance → Type 0
IsReserved r task_id a =
    (lookup a.agent_id r.agents ≡ some a)
    × (a.status ≡ AgentStatus.claiming)
    × (a.current_task_id ≡ some task_id)

-- The registry holds the agent, IDLE without a task.
abbrev pub IsFree : Registry → String → Type 0
IsFree r agent_id =
    (a : AgentInstance) × (lookup agent_id r.agents ≡ some a)
    × (a.status ≡ AgentStatus.idle)
    × (a.current_task_id ≡ none)

-- The board holds the task, in that state and with that claimant.
abbrev pub TaskIs : Board → String → String → BoardTaskStatus → Option String → Type 0
TaskIs b run_id task_id status claimant =
    (t : BoardTask) × (lookup (run_id, task_id) b.tasks ≡ some t)
    × (t.status ≡ status)
    × (t.claimed_by ≡ claimant)

abbrev pub freed : ℕ → AgentInstance → AgentInstance
freed now a =
    Instance.heartbeat
      (record ((update_status a AgentStatus.idle now).0) { current_task_id = none }) now

release_agent-freed :
    (task_id : String) (now : ℕ) (a : AgentInstance)
    → a.status ≡ AgentStatus.claiming
    → a.current_task_id ≡ some task_id
    → release_agent (some task_id) now a ≡ some (freed now a)
unfolding release_agent
release_agent-freed task_id now a e e' = rw (e, e') (ground arith)

freed-idle :
    (now : ℕ) (a : AgentInstance)
    → a.status ≡ AgentStatus.claiming
    → ((freed now a).status ≡ AgentStatus.idle) × ((freed now a).current_task_id ≡ none)
unfolding update_status Instance.heartbeat Instance.is_legal_agent_transition
freed-idle now a e = (rw e refl, refl)

-- A reserved agent is free after release_reservation.
pub release_reservation-IsFree :
    (r : Registry) (task_id : String) (a : AgentInstance) (now : ℕ)
    → IsReserved r task_id a
    → IsFree (release_reservation r a.agent_id (some task_id) now).0 a.agent_id
unfolding release_reservation on_agent Pool.save
release_reservation-IsFree r task_id a now (held, status, task) = (
  freed now a,
  rw (held, release_agent-freed task_id now a status task)
      (lookup-insert a.agent_id a.agent_id (freed now a) r.agents ∙ rw (eq_self a.agent_id) refl),
  (freed-idle now a status).0,
  (freed-idle now a status).1,
)

released_task :
    (agent_id reason : String) (now : ℕ) (t : BoardTask)
    → t.claimed_by ≡ some agent_id
    → is_releasable t.status ≡ true
    → ((applied (release_task agent_id reason now) t).status ≡ pending)
      × ((applied (release_task agent_id reason now) t).claimed_by ≡ none)
unfolding release_task
released_task agent_id reason now t own can = rw (own, eq_self (some agent_id), can) (refl, refl)

-- A task that the agent holds is PENDING without a claimant after release.
pub release-pending :
    {b : Board} (run_id task_id agent_id reason : String) (now : ℕ) (status : BoardTaskStatus)
    → IsWellFormed b
    → is_releasable status ≡ true
    → TaskIs b run_id task_id status (some agent_id)
    → TaskIs (release b task_id agent_id reason (some run_id) now).0 run_id task_id pending none
unfolding release
release-pending {b} run_id task_id agent_id reason now status w can (t, held, e, own) =
    let done = released_task agent_id reason now t own (rw e can) in
    (
      applied (release_task agent_id reason now) t,
      lookup-transact_self task_id run_id (release-Keeps agent_id reason now) w held,
      done.0,
      done.1,
    )

started_task :
    (agent_id : String) (now : ℕ) (t : BoardTask)
    → t.status ≡ claimed
    → t.claimed_by ≡ some agent_id
    → start_task agent_id now t ≡ some (record t { status = running; updated_at = now })
unfolding start_task
started_task agent_id now t e own = rw (e, own, eq_self (some agent_id)) (refl)

-- A claimed task is started by its claimant.
pub start-running :
    {b : Board} (run_id task_id agent_id : String) (now : ℕ)
    → IsWellFormed b
    → TaskIs b run_id task_id claimed (some agent_id)
    → ((start b task_id agent_id (some run_id) now).1 ≡ true)
      × TaskIs (start b task_id agent_id (some run_id) now).0 run_id task_id running (some agent_id)
unfolding start raw_get
start-running {b} run_id task_id agent_id now w (t, held, e, own) = (
  rw (held, started_task agent_id now t e own) refl,
  (
    record t { status = running; updated_at = now },
    lookup-transact_self task_id run_id (start-Keeps agent_id now) w held
        ∙ rw (started_task agent_id now t e own) refl,
    refl,
    own,
  ),
)

pub start-IsWellFormed :
    {b : Board} (run_id task_id agent_id : String) (now : ℕ)
    → IsSound b
    → IsWellFormed (start b task_id agent_id (some run_id) now).0
unfolding start
start-IsWellFormed run_id task_id agent_id now s =
    (transact-IsSound task_id (some run_id) (start-Keeps agent_id now) s).well_formed

pub saved-IsReserved :
    (r : Registry) (task_id : String) (a a' : AgentInstance)
    → a'.agent_id ≡ a.agent_id
    → a'.status ≡ AgentStatus.claiming
    → a'.current_task_id ≡ some task_id
    → IsReserved (Pool.save a.agent_id a' r) task_id a'
unfolding Pool.save
saved-IsReserved r task_id a a' same status task = (
  lookup-insert a'.agent_id a.agent_id a' r.agents ∙ rw (same, eq_self a.agent_id) refl,
  status,
  task,
)
