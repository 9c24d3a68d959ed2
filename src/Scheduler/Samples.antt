-- ===== src/Scheduler/Samples.antt =====
-- app/multiagent/parallel_scheduler.py: a run with two tasks, one of them exclusive, and two idle
-- agents, on which the theorems are used.
use mathlib.Core.List.{Memᴰ}
use mega_deepagents.Base.{
  ℕ, String, Bool, true, false, Option, none, some, List, [], ◌∷◌, ◌≡◌, ◌↔◌, ◌≤◌, refl, All, any,
  contains, length, string_eq, ◌-◌, max, map, ◌&&◌, not,
}
use mega_deepagents.Agent.Instance.{AgentInstance, AgentStatus}
use mega_deepagents.Registry.Pool.{Registry, new_registry, save}
use mega_deepagents.Registry.Row.{row_of}
use mega_deepagents.Registry.Durable.{IsDurable, save-IsDurable, new_registry-IsDurable}
use mega_deepagents.TaskBoard.Task.{BoardTask, new_task}
use mega_deepagents.TaskBoard.Store.{Board, empty_board, raw_list_by_run}
use mega_deepagents.TaskBoard.Calls.{Call, calls}
use mega_deepagents.TaskBoard.Invariant.{IsSound}
use mega_deepagents.TaskBoard.History
use mega_deepagents.TaskGraph.Node.{TaskNode}
use mega_deepagents.TaskGraph.Graph.{TaskGraph}
use mega_deepagents.LifecycleHooks.Engine.{default_result}
use mega_deepagents.LifecycleHooks.Engine.{ℤ}
use mega_deepagents.TaskGraph.Node
use mega_deepagents.TaskBoard.Query.{all_succeeded}
use mega_deepagents.Permission.Broker.{list_pending}
use mega_deepagents.Scheduler.Dispatch.{
  Scheduler, Assignment, wave, ready_now, idle_agents, agent_can_serve,
}
use mega_deepagents.Scheduler.Assign.{AreApart}
use mega_deepagents.Scheduler.Progress
use mega_deepagents.Scheduler.Barrier
use mega_deepagents.Scheduler.Barrier.{Turn, after_turns, is_exclusive}
use mega_deepagents.Scheduler.Begin.{begin_task}
use mega_deepagents.Scheduler.Settled
use mega_deepagents.Scheduler.Starting
use mega_deepagents.Scheduler.Idle
use mega_deepagents.Scheduler.Idle.{Gates, next_retry_delay}
use mega_deepagents.Scheduler.Resolve.{resolve_idle}
use mega_deepagents.Scheduler.Ending
use mega_deepagents.Scheduler.Delay
use mega_deepagents.Scheduler.Sync.{step_to}
use mega_deepagents.Scheduler.Stepping
use mega_deepagents.Scheduler.Wave
use mega_deepagents.Scheduler.Wave.{Waiting, Idle}

abbrev agent : String → List String → AgentInstance
agent id capabilities = record {
  agent_id = id;
  team_id = "team";
  run_id = "r";
  profile_id = id;
  name = id;
  role = id;
  description = "";
  session_id = "";
  thread_id = "";
  checkpoint_namespace = "";
  status = AgentStatus.idle;
  current_task_id = none;
  workspace_root = "";
  worktree_path = "";
  mailbox_cursor = 0;
  last_heartbeat_at = some 0;
  capabilities = capabilities;
  created_at = 0;
  updated_at = 0;
  stopped_at = none;
  max_concurrency = 1;
}

abbrev generalist : AgentInstance
generalist = agent "g" ("coding" ∷ "testing" ∷ [])

abbrev coder : AgentInstance
coder = agent "c" ("coding" ∷ [])

abbrev registry : Registry
registry = record {
  agents = ("g", generalist) ∷ ("c", coder) ∷ [];
  lease_timeout = 60;
  rows = ("g", row_of generalist) ∷ ("c", row_of coder) ∷ [];
}

registry-IsDurable : IsDurable registry
unfolding save mega_deepagents.Base.Dict.lookup mega_deepagents.Base.Dict.insert
    mega_deepagents.Base.Equality.string_eq
registry-IsDurable =
    save-IsDurable "c" coder _ refl
      (save-IsDurable "g" generalist (new_registry 60) refl (new_registry-IsDurable 60))

abbrev board_calls : List (ℕ × Call)
board_calls =
    (0, Call.create_task "t" "r" "T" "test it" [] ("testing" ∷ []) 1 3)
    ∷ (1, Call.create_task "x" "r" "X" "write it" [] ("coding" ∷ []) 5 3)
    ∷ []

abbrev board : Board
board = calls (empty_board true) board_calls

board-IsSound : IsSound board
board-IsSound = History.calls-IsSound true board_calls (tt, (tt, tt))

abbrev scheduler : Scheduler
scheduler = record {
  run_id = "r";
  max_concurrency = 2;
  task_graph = none;
  dispatch_agent_hints = [];
}

abbrev assigned : List Assignment → List (String × String)
assigned [] = []
assigned ((t, a) ∷ rest) = (t.task_id, a.agent_id) ∷ assigned rest

-- The task with one candidate comes first, and the other agent is left for the second.
both_selected : assigned (wave scheduler board registry [] 10) ≡ ("t", "g") ∷ ("x", "c") ∷ []
unfolding wave raw_list_by_run mega_deepagents.Base.Dict.lookup calls
    mega_deepagents.TaskBoard.Store.add mega_deepagents.Base.Dict.insert
    mega_deepagents.Base.Equality.string_eq new_task mega_deepagents.Base.Equality.pair_eq
    mega_deepagents.Base.Dict.erase
both_selected = refl

-- Of the two agents that can serve it, the narrower takes the task.
narrower_selected : assigned (wave scheduler board registry ("t" ∷ []) 10) ≡ ("x", "c") ∷ []
unfolding wave raw_list_by_run mega_deepagents.Base.Dict.lookup calls
    mega_deepagents.TaskBoard.Store.add mega_deepagents.Base.Dict.insert
    mega_deepagents.Base.Equality.string_eq new_task mega_deepagents.Base.Equality.pair_eq
narrower_selected = refl

-- Without a free place, a task is selected all the same.
one_too_many :
    assigned (wave (record scheduler { max_concurrency = 1 }) board registry ("t" ∷ []) 10)
    ≡ ("x", "c") ∷ []
unfolding wave raw_list_by_run mega_deepagents.Base.Dict.lookup calls
    mega_deepagents.TaskBoard.Store.add mega_deepagents.Base.Dict.insert
    mega_deepagents.Base.Equality.string_eq new_task mega_deepagents.Base.Equality.pair_eq
one_too_many = refl

wave-is_safe_example :
    All
      (λ (q : Assignment).
        Waiting board "r" 10 [] q.0 × Idle registry "r" q.1 × (agent_can_serve q.1 q.0 ≡ true))
      (wave scheduler board registry [] 10)
    × AreApart (wave scheduler board registry [] 10)
wave-is_safe_example = Wave.wave-is_safe scheduler registry [] 10 board-IsSound registry-IsDurable

wave-nil_iff_example :
    (wave scheduler board registry [] 10 ≡ [])
    ↔ All
        (λ t. All (λ a. agent_can_serve a t ≡ false) (idle_agents registry "r"))
        (ready_now board "r" 10)
wave-nil_iff_example = Progress.wave-nil_iff scheduler board registry 10 registry-IsDurable

abbrev exclusive_node : TaskNode
exclusive_node = record {
  id = "t";
  title = "T";
  objective = "test it";
  description = "";
  status = Node.pending;
  dependencies = [];
  required_capabilities = "testing" ∷ [];
  preferred_agent_profile = none;
  assigned_agent_id = none;
  input_artifact_ids = [];
  output_artifact_ids = [];
  output_contract = record {
    artifact_type = "text";
    description = "";
    acceptance_criteria = [];
    required_artifacts = [];
    allow_parallel = false;
  };
  priority = 1;
  attempts = 0;
  max_attempts = 3;
  budget = record { max_attempts = 1; max_tool_calls = 1; max_seconds = 1; max_tokens = none };
  error = none;
  started_at = none;
  completed_at = none;
}

-- The contract of `t` does not allow parallel work.
abbrev barred : Scheduler
barred = record scheduler {
  task_graph = some (record {
    root_task_id = "t";
    nodes = ("t", exclusive_node) ∷ [];
    version = 1;
    updated_at = 0;
  });
}

abbrev three_rounds : List Turn
three_rounds =
    Barrier.dispatch board registry 10
    ∷ Barrier.done ("y" ∷ [])
    ∷ Barrier.dispatch board registry 11
    ∷ []

exclusive_runs : any (is_exclusive barred) (after_turns barred [] three_rounds) ≡ true
unfolding after_turns raw_list_by_run mega_deepagents.Base.Dict.lookup calls
    mega_deepagents.TaskBoard.Store.add mega_deepagents.Base.Dict.insert
    mega_deepagents.Base.Equality.string_eq new_task mega_deepagents.Base.Equality.pair_eq
    is_exclusive
exclusive_runs = refl

exclusive_alone_example : length (after_turns barred [] three_rounds) ≤ 1
exclusive_alone_example = Barrier.exclusive_alone barred three_rounds exclusive_runs

abbrev task_x : BoardTask
task_x = new_task "x" "r" "X" "write it" [] ("coding" ∷ []) 5 3 1

begin_task-is_settled_example :
    Settled.IsHandedOver false registry board "r" task_x
      (begin_task false registry board "r" task_x (some "c") default_result default_result 12)
unfolding new_task
begin_task-is_settled_example =
    Settled.begin_task-is_settled false registry "r" task_x (some "c") default_result default_result
      12 board-IsSound registry-IsDurable

x_selected : Memᴰ (task_x, coder) (wave scheduler board registry ("t" ∷ []) 12)
unfolding wave raw_list_by_run mega_deepagents.Base.Dict.lookup calls
    mega_deepagents.TaskBoard.Store.add mega_deepagents.Base.Dict.insert
    mega_deepagents.Base.Equality.string_eq new_task mega_deepagents.Base.Equality.pair_eq
x_selected = Memᴰ.head refl

selected-starts_example :
    Starting.has_started
      (begin_task false registry board "r" task_x (some "c") default_result default_result 12).2
    ≡ true
unfolding new_task mega_deepagents.Base.Equality.string_eq
selected-starts_example =
    Starting.selected-starts scheduler registry ("t" ∷ []) 12 task_x coder (some "c") default_result
      default_result board-IsSound registry-IsDurable x_selected refl refl refl refl

abbrev gates : Gates
gates = record {
  requests = [];
  has_merge_conflicts = λ t. false;
  integration = some (record {
    checks = ("tests", Idle.ran (ℤ.pos 1) false false) ∷ [];
    missing_requirements = [];
  });
}

resolve_idle-completed_example :
    Ending.ends_completed (resolve_idle board registry "r" gates 3 20) ≡ (
      all_succeeded board "r"
      && (Ending.none_of (list_pending gates.requests "r")
          && not (any gates.has_merge_conflicts (raw_list_by_run board "r"))
          && Ending.all_passed gates.integration))
resolve_idle-completed_example = Ending.resolve_idle-completed board registry "r" gates 3 20

-- `x` waits for its next attempt.
abbrev waiting_x : BoardTask
waiting_x = record task_x { next_attempt_at = some 9000 }

abbrev waiting_board : Board
waiting_board = record (empty_board false) {
  tasks = (("r", "x"), waiting_x) ∷ [];
  by_run = ("r", ("r", "x") ∷ []) ∷ [];
}

x_waits : Memᴰ waiting_x (raw_list_by_run waiting_board "r")
unfolding raw_list_by_run mega_deepagents.Base.Dict.lookup mega_deepagents.Base.Equality.string_eq
    mega_deepagents.Base.Equality.pair_eq
x_waits = Memᴰ.head refl

next_retry_delay-on_time_example :
    (d : ℕ) × (next_retry_delay waiting_board "r" 4500 ≡ some d)
    × (d ≤ 5_000)
    × (d ≤ max 50 (9_000 - 4_500))
unfolding new_task
next_retry_delay-on_time_example =
    Delay.next_retry_delay-on_time waiting_board "r" 4500 waiting_x 9000 x_waits refl refl

-- The node of a task that failed, and was retried since.
abbrev failed_graph : TaskGraph
failed_graph = record {
  root_task_id = "t";
  nodes = ("t", record exclusive_node { status = Node.failed }) ∷ [];
  version = 1;
  updated_at = 0;
}

failed_there : Stepping.StandsAt failed_graph "t" Node.failed
unfolding mega_deepagents.Base.Dict.lookup mega_deepagents.Base.Equality.string_eq
failed_there = (record exclusive_node { status = Node.failed }, refl, refl)

-- It does not become SUCCEEDED.
step_to-settles_example :
    Stepping.StandsAt (step_to failed_graph "t" Node.succeeded 50) "t" Node.failed
step_to-settles_example =
    Stepping.step_to-settles failed_graph "t" Node.succeeded Node.failed 50 refl failed_there
