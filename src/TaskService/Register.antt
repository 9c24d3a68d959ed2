-- ===== src/TaskService/Register.antt =====
-- app/multiagent/transactional_task_service.py: `register_initial_graph` and `_replace_plan`.
use Prim.Native.String.{◌++◌ as join}
use mega_deepagents.Base.{
  ℕ, ◌+◌, max, String, Bool, true, false, ◌&&◌, not, none, some, List, [], ◌∷◌, ◌++◌, map,
  if◌then◌else◌, contains, ◌==◌, string_eq, pair_eq, any,
}
use mega_deepagents.Base.Dict.{Dict, insert, has_key, values}
use mega_deepagents.Base.Decimal.{decimal}
use mega_deepagents.TaskBoard.Task.{BoardTask}
use mega_deepagents.TaskBoard.Store.{Board, Key, key_of, raw_list_by_run}
use mega_deepagents.TaskBoard.Runs.{restore_run}
use mega_deepagents.TaskGraph.Node
use mega_deepagents.TaskGraph.Node.{TaskNode}
use mega_deepagents.TaskGraph.Graph
use mega_deepagents.TaskGraph.Graph.{TaskGraph}
use mega_deepagents.TaskGraph.Search.{validate}
use mega_deepagents.TaskService.Store.{
  TaskGraphVersion, MutationType, LoggedMutation, ServiceState, ServiceResult, success, ◌>>=◌, ◌>>◌,
  require, of_result, graph, blocked, of_graph, integrity_error,
}
use mega_deepagents.TaskService.Mutate.{task_of_node}
use mega_deepagents.TaskService.Apply.{insert_row, update_rows, add_all}
use mega_deepagents.TaskService.Signature.{same_plan}

abbrev is_initial : MutationType → Bool
is_initial MutationType.initial_task = true
is_initial _ = false

-- `SELECT 1 … WHERE run_id=? AND mutation_type='initial_task'`
unfoldable pub already_registered : Dict String LoggedMutation → String → Bool
already_registered log run_id =
    any (λ m. m.run_id == run_id && is_initial m.mutation_type) (values log)

-- `SELECT COUNT(*) … WHERE run_id=?`, as a test for 0
unfoldable pub is_untouched : Dict String LoggedMutation → String → Bool
is_untouched log run_id = not (any (λ m. m.run_id == run_id) (values log))

-- The hooks on TaskCreated, node by node.
unfoldable pub allow_each : (TaskNode → Bool) → List TaskNode → ServiceResult (Unit {0})
allow_each allows [] = success tt
allow_each allows (n ∷ ns) = require (allows n) (blocked n.id) >> allow_each allows ns

-- `INSERT OR IGNORE INTO task_board_tasks`
unfoldable pub insert_rows : List BoardTask → Dict Key BoardTask → Dict Key BoardTask
insert_rows [] rows = rows
insert_rows (t ∷ ts) rows = insert_rows ts (insert_row t rows)

-- `INSERT OR IGNORE INTO task_graph_mutations`
unfoldable pub log_initial :
    String → String → ℕ → List BoardTask → Dict String LoggedMutation → Dict String LoggedMutation
log_initial run_id actor version [] log = log
log_initial run_id actor version (t ∷ ts) log =
    let id = join "initial:" (join run_id (join ":" t.task_id)) in
    let entry : LoggedMutation = record {
      run_id = run_id;
      actor_agent_id = actor;
      mutation_type = MutationType.initial_task;
      result_version = version;
    } in
    log_initial run_id actor version ts (if has_key id log then log else insert id entry log)

abbrev pub with_board : Board → ServiceState → ServiceState
with_board b s = record s { board = b }

abbrev pub reload : String → ServiceState → ServiceState
reload run_id s = with_board (restore_run s.board run_id).0 s

-- The statements of the transaction that writes the plan.
abbrev pub written_initial :
    ServiceState → String → TaskGraph → String → List BoardTask → ServiceState
written_initial s run_id g actor tasks = record s {
  snapshots = insert run_id g s.snapshots;
  mutations = log_initial run_id actor g.version tasks s.mutations;
  board = record (s.board) { rows = insert_rows tasks s.board.rows };
}

-- The transaction, which writes nothing where the run has mutations already.
unfoldable pub write_initial : ServiceState → String → TaskGraph → String → ℕ → ServiceState
unfolding is_untouched task_of_node
write_initial s run_id g actor now =
    if is_untouched s.mutations run_id
    then written_initial s run_id g actor (map (task_of_node run_id now) (values g.nodes))
    else s

abbrev pub plan_version : String → String → TaskGraph → TaskGraphVersion
plan_version run_id id g = record {
  run_id = run_id;
  version = g.version;
  mutation_id = id;
  graph = g;
}

-- `id_map[node_id]`
unfoldable pub renamed : List String → ℕ → String → String
unfolding decimal
renamed occupied revision id =
    if contains occupied id then join "plan_v" (join (decimal revision) (join "__" id)) else id

-- The copy of a node in the new plan.
unfoldable pub revise_node : (String → String) → TaskNode → TaskNode
revise_node rename n = record n {
  id = rename n.id;
  dependencies = map rename n.dependencies;
  status = Node.pending;
  assigned_agent_id = none;
  input_artifact_ids = [];
  output_artifact_ids = [];
  attempts = 0;
  error = none;
  started_at = none;
  completed_at = none;
}

-- The copies, by the key of each node.
unfoldable pub revise_each : (String → String) → Dict String TaskNode → List TaskNode
unfolding revise_node
revise_each rename [] = []
revise_each rename ((k, n) ∷ d) = revise_node rename (record n { id = k }) ∷ revise_each rename d

-- `revised_nodes[node.id] = node` for each
unfoldable pub by_id : List TaskNode → Dict String TaskNode → Dict String TaskNode
by_id [] made = made
by_id (n ∷ ns) made = by_id ns (insert n.id n made)

-- `updated.metadata["superseded_by_plan_revision"] = revision`
unfoldable pub supersede_by_plan : ℕ → ℕ → BoardTask → BoardTask
supersede_by_plan revision now t = record t {
  updated_at = now;
  metadata = record t.metadata { superseded_by_plan_revision = some revision };
}

-- `INSERT INTO task_board_tasks`, which fails on a key that is there.
unfoldable pub insert_fresh :
    List BoardTask → Dict Key BoardTask → ServiceResult (Dict Key BoardTask)
insert_fresh [] rows = success rows
insert_fresh (t ∷ ts) rows =
    require (not (has_key (key_of t) rows)) (integrity_error t.task_id)
    >> insert_fresh ts (insert (key_of t) t rows)

abbrev pub revision_id : String → ℕ → String
revision_id run_id revision = join "plan-revision:" (join run_id (join ":" (decimal revision)))

abbrev pub occupied_ids : List BoardTask → List String
occupied_ids old_tasks = map (λ t. t.task_id) old_tasks

-- The new plan, from the incoming graph, where its root is one of its nodes and the hooks agree.
unfoldable pub revised_graph :
    (TaskNode → Bool) → (String → String) → ℕ → TaskGraph → ℕ → ServiceResult TaskGraph
unfolding revise_each by_id allow_each
revised_graph allows rename revision incoming now = do
  let nodes = revise_each rename incoming.nodes
  allow_each allows nodes
  require (has_key incoming.root_task_id incoming.nodes)
      (of_graph (Graph.key_error incoming.root_task_id))
  success (record {
    root_task_id = rename incoming.root_task_id;
    nodes = by_id nodes [];
    version = revision;
    updated_at = now;
  })

abbrev pub logged_revision : String → String → TaskGraph → LoggedMutation
logged_revision run_id actor g = record {
  run_id = run_id;
  actor_agent_id = actor;
  mutation_type = MutationType.revised_plan;
  result_version = g.version;
}

-- What the transaction writes, and what is published on the board after it.
abbrev pub revised_state :
    ServiceState → String → String → TaskGraph → List BoardTask → Dict Key BoardTask → ServiceState
revised_state s run_id actor g tasks rows = record {
  snapshots = insert run_id g s.snapshots;
  mutations = insert (revision_id run_id g.version) (logged_revision run_id actor g) s.mutations;
  board = add_all tasks (record (s.board) { rows = rows });
}

-- `_replace_plan` once it has read the run's tasks and the version of its plan; `s` is the state when
-- its transaction begins, which may be a later one.
unfoldable pub replace_with :
    (TaskNode → Bool)
    → ServiceState
    → String
    → TaskGraph
    → String
    → ℕ
    → List BoardTask
    → ℕ
    → ServiceResult (ServiceState × TaskGraphVersion)
unfolding revised_graph renamed supersede_by_plan insert_fresh task_of_node update_rows add_all
replace_with allows s run_id incoming actor now old_tasks version = do
  let revision = max (version + 1) incoming.version
  g ← revised_graph allows (renamed (occupied_ids old_tasks) revision) revision incoming now
  of_result (validate g)
  let superseded = map (supersede_by_plan g.version now) old_tasks
  let tasks = map (task_of_node run_id now) (values g.nodes)
  rows ← insert_fresh tasks (update_rows superseded s.board.rows)
  let id = revision_id run_id g.version
  require (not (has_key id s.mutations)) (integrity_error id)
  success (revised_state s run_id actor g (superseded ++ tasks) rows, plan_version run_id id g)

-- `_replace_plan`
unfoldable pub replace_plan :
    (TaskNode → Bool)
    → ServiceState
    → String
    → TaskGraph
    → String
    → ℕ
    → ServiceResult (ServiceState × TaskGraphVersion)
unfolding replace_with graph raw_list_by_run
replace_plan allows s run_id incoming actor now = do
  of_result (validate incoming)
  current ← graph s run_id
  replace_with allows s run_id incoming actor now (raw_list_by_run s.board run_id) current.version

-- The part of `register_initial_graph` for a run whose plan was registered before.
unfoldable pub register_again :
    (TaskNode → Bool)
    → ServiceState
    → String
    → TaskGraph
    → String
    → ℕ
    → ServiceResult (ServiceState × TaskGraphVersion)
unfolding replace_plan restore_run same_plan
register_again allows s run_id g actor now = do
  current ← graph s run_id
  (if same_plan current g
      then success (reload run_id s, plan_version run_id (join "initial:" run_id) current)
      else replace_plan allows s run_id g actor now)

unfoldable pub register_first :
    (TaskNode → Bool)
    → ServiceState
    → String
    → TaskGraph
    → String
    → ℕ
    → ServiceResult (ServiceState × TaskGraphVersion)
unfolding allow_each write_initial restore_run
register_first allows s run_id g actor now = do
  allow_each allows (values g.nodes)
  success (
    reload run_id (write_initial s run_id g actor now),
    plan_version run_id (join "initial:" run_id) g,
  )

-- `register_initial_graph`; one that raises leaves the state as it was.
unfoldable pub register_initial_graph :
    (TaskNode → Bool)
    → ServiceState
    → String
    → TaskGraph
    → String
    → ℕ
    → ServiceResult (ServiceState × TaskGraphVersion)
unfolding already_registered register_again register_first
register_initial_graph allows s run_id g actor now = do
  of_result (validate g)
  (if already_registered s.mutations run_id
      then register_again allows s run_id g actor now
      else register_first allows s run_id g actor now)

-- The transaction of a registration that found no plan when it read the log; `s` is the state when
-- its transaction begins, and the board reads the rows later.
unfoldable pub write_late :
    (TaskNode → Bool)
    → ServiceState
    → String
    → TaskGraph
    → String
    → ℕ
    → ServiceResult (ServiceState × TaskGraphVersion)
unfolding allow_each write_initial
write_late allows s run_id g actor now = do
  of_result (validate g)
  allow_each allows (values g.nodes)
  success (write_initial s run_id g actor now, plan_version run_id (join "initial:" run_id) g)
