-- ===== src/Lib.antt =====
-- MegaDeepagents: the task runtime of its multi-agent teams.
--
-- A run's plan is a graph of task nodes (app/multiagent/task_graph.py). Its tasks are put on a board
-- (app/multiagent/task_board.py), from which agents claim them, report what they produced or that
-- they failed, and where a verifier accepts or rejects the result. A service changes the plan and
-- the board together, in transactions of the database
-- (app/multiagent/transactional_task_service.py), after it has asked the hooks
-- (app/multiagent/lifecycle_hooks.py). A failure is classified and delayed by the retry policy
-- (app/runtime/reliability.py). Each agent is an instance with a state machine
-- (app/multiagent/agent_instance.py) in a registry that hands idle agents to tasks and fails those
-- whose lease runs out (app/multiagent/agent_registry.py), and agents write to each other through
-- bounded inboxes (app/multiagent/mailbox.py). A tool that an agent uses is authorised by the
-- permission broker (app/multiagent/permission.py), and a teammate's plan passes a gate before it is
-- carried out (app/multiagent/plan_approval.py). The scheduler
-- (app/multiagent/parallel_scheduler.py) brings these together: round by round it chooses ready
-- tasks and idle agents for them, reserves the agent in the registry, claims and starts the task on
-- the board, and ends the run. The older rounds of a team end by the rules of
-- app/multiagent/termination.py.
--
-- Which file models what:
--   Base: tests on numbers, lists with a stable sort, decided equality, dictionaries in insertion
--     order, and the decimal text of a number.
--   TaskBoard: Task (BoardTask, create_task), Store (the board, _persist, add, _raw_get,
--     _raw_list_by_run), Worker (claim, start, release, complete, mark_produced, mark_blocked),
--     Failure (fail), Control (mark_verifying, mark_verified, mark_repair_required,
--     supersede_with_repair, retry, cancel, request_replan), Runs (cancel_run, purge_run,
--     restore_run, prepare_for_resume), Query (list_pending, list_claimable, all_succeeded,
--     summary), Calls (the public mutators as one type). WellFormed, Validity, Invariant, RunInvariant and History
--     carry the invariant; Claiming, Retries, Frame, Recovery, Verdicts and Listing the rest.
--   TaskGraph: Node (the enum, its table, TaskNode, capability_timeout), Graph (TaskGraph, the
--     mutators, _check_all_dependencies_exist), Ready (ready_tasks), Search (validate, has_cycle,
--     topological_order, descendants), Repair (add_repair_task), Mutations, Readiness; Kahn, Order,
--     Topology and Cycles are about the two searches that sort, Reach about descendants; Ranks is
--     about plans, and Repairing, Shape, FreshId, Substitution, RepairBudget and RepairPlan about
--     what a repair leaves of one.
--   TaskService: Store (TaskGraphMutation, the tables, graph), Mutate (_apply_mutation), Apply
--     (apply; its transaction is commit_mutation), Signature (_plan_signature), Register
--     (register_initial_graph, _replace_plan), Calls (histories); Outcomes, PlanSteps and Plans are
--     about the stored plans, Extends, Rows, OnBoard and Registered about the rows of their nodes,
--     Later and AtMostOnce about the log of mutations.
--   LifecycleHooks: Engine (HookResult, register), Emission (emit_async), Sorting and Asking (the
--     order and the decision), Guard (the hooks before the task service creates a task).
--   Termination: Rules (the team's state, the counters), Check (check), Success, Stalls.
--   RetryPolicy: Policy (RetryPolicy), Backoff.
--   Agent: Instance (AgentStatus, AgentInstance), Lifecycle.
--   Registry: Row (upsert_agent_instance of app/infrastructure/database/run_store.py), Pool
--     (AgentRegistry: registration, creation, queries, reserve_idle_agent), Leases (release,
--     transition, heartbeat, cleanup_expired, stop, remove, purge_run), Calls (histories);
--     Durable and Keeping are about the table of agents and what each method keeps, Reserve,
--     Exclusive and Expiry about reservations and leases.
--   Scheduler: Dispatch (_discover_dispatchable, _deps_satisfied, _agent_can_serve,
--     _task_allows_parallel), Begin (_run_one until the task has started), Idle (_finalize,
--     _finalize_verified_run, _next_retry_delay), Resolve (_resolve_idle), Sync
--     (sync_from_task_graph, sync_back_to_dag, _step_to), Barrier (the tasks in flight over the
--     rounds of _run_loop); Assign, Wave and Progress are about what is dispatched, Handover,
--     Settled and Starting about what is started, Ending, Delay and Stepping about the others.
--   Mailbox: Message, Box (the state, receive, _rate_check, _enforce_capacity), Deliver (send, the
--     broadcasts, the hints), Snapshot (snapshot, restore, flush_to_db, restore_from_db), Rate,
--     History, Queue, Fifo, Capacity, Restore.
--   Permission: Request (PermissionRequest, PermissionPolicy), Broker (authorize, request, decide and
--     the table), Authority.
--   PlanApproval: Service (submit, decide, get, list_pending), Gate.
--   Each component's Samples holds its tests and the theorems at concrete inputs.
--
-- How state and operations correspond: a method takes the object's state and returns the state
-- after it with its result. A guard with an early return is an Option of the changed task, which
-- the board then saves. A lock makes each method atomic, so a history of calls is a list of them;
-- the rate check of a mailbox is the exception, since send makes it before it takes the lock, and
-- the model takes the checks of one sender to follow one another. A clock's reading is an
-- argument, one for all the readings in a method; times and delays are natural numbers of
-- milliseconds. A random identifier is an argument. A mailbox keeps its message objects in a
-- heap, since an inbox and the index of all messages share them.
--
-- Bounds and fuel: Kahn's loop has a unit of fuel for every node of the graph, and the walk of
-- descendants two for every edge, which is proved to be enough. The search for the identifier of a
-- repair node tries two more than there are nodes, which is proved to be enough too. The board keeps
-- 20 entries of history and 5 grace retries, as the source does. The limits of a mailbox and of the
-- checker of a run's end are their fields.
--
-- Not modelled: failures of the database, whose rows are a dictionary of the records (writing a
-- record as JSON and reading it back is taken to be the identity); the keys of free-form metadata
-- that these methods do not use; logging, metrics and wake events; callers that keep and change
-- an object after a method returned it. Strings are compared by code point; Python's str.lower,
-- strip, lstrip and splitlines are parameters, as is the digest of a permission request; what the
-- handlers of lifecycle hooks answer is an argument. Neither are the validators that run when a
-- stored plan is read back, the payloads in the log of mutations, and the envelopes of events
-- that its transactions write. A value that an update of a task sets has the type of its field. A
-- caller of the task service who is delayed between its reads and its transaction, with a
-- mutation, a registration or a new plan, is a call of the transaction alone, whatever it has
-- read. The table of agents has no column for an agent's description and limit of tasks, and a
-- later write changes only some of its columns. Of the scheduler, what follows the start of a
-- task (the approval of its plan, worktrees, the execution), the waiting on futures, pause,
-- cancellation and heartbeats are left out, as are the events; the tasks of a round are started
-- in states that their callers give, not in one that they share. The answers of hooks and of the
-- integration manager's checks are arguments, and so is the test for merge conflicts. The other
-- modules of the program, among them the executor, the verifier, the selection of speakers and
-- the HTTP interface, are not modelled: they call a language model, or are still to be done.
pub mod Base
pub mod Scheduler
pub mod TaskBoard
pub mod TaskGraph
pub mod TaskService
pub mod LifecycleHooks
pub mod Termination
pub mod RetryPolicy
pub mod Agent
pub mod Registry
pub mod Mailbox
pub mod PlanApproval
pub mod Permission
