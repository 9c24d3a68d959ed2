-- ===== src/TaskService/Apply.antt =====
-- app/multiagent/transactional_task_service.py: `apply`, its transaction and what it publishes on the
-- board after it. Two callers may both pass the tests before the transaction, so `commit_mutation` is a
-- function of its own: it runs under the database's write lock, on the state that it finds there.
use mega_deepagents.Base.{
  ℕ, String, Bool, Option, none, some, List, [], ◌∷◌, if◌then◌else◌, eqb, is_none, not, string_eq,
  pair_eq,
}
use mega_deepagents.Base.Dict.{Dict, lookup, insert, has_key}
use mega_deepagents.TaskBoard.Task.{BoardTask}
use mega_deepagents.TaskBoard.Store.{Board, Key, key_of, raw_get, add}
use mega_deepagents.TaskGraph.Node.{TaskNode}
use mega_deepagents.TaskGraph.Graph.{TaskGraph}
use mega_deepagents.TaskService.Store.{
  Payload, TaskGraphMutation, TaskGraphVersion, MutationType, LoggedMutation, ServiceState,
  ServiceResult, success, failure, ◌>>=◌, ◌>>◌, require, found, graph, no_graph, version_conflict,
  integrity_error,
}
use mega_deepagents.TaskService.Mutate.{Effects, apply_mutation}

abbrev pub type_of : Payload → MutationType
type_of (Payload.create_task n) = MutationType.created_task
type_of (Payload.add_dependency task dependency) = MutationType.added_dependency
type_of (Payload.update_task task changes) = MutationType.updated_task
type_of (Payload.repair_task target objective caps) = MutationType.repaired_task
type_of Payload.plan_revision = MutationType.revised_plan

-- `if expected_version is not None and version != expected_version: raise`
abbrev pub check_version : Option ℕ → ℕ → ServiceResult (Unit {0})
check_version none version = success tt
check_version (some expected) version =
    require (eqb version expected) (version_conflict expected version)

-- `INSERT … ON CONFLICT(run_id, task_id) DO NOTHING`
abbrev pub insert_row : BoardTask → Dict Key BoardTask → Dict Key BoardTask
insert_row t rows = if has_key (key_of t) rows then rows else insert (key_of t) t rows

abbrev pub insert_new : Option BoardTask → Dict Key BoardTask → Dict Key BoardTask
insert_new none rows = rows
insert_new (some t) rows = insert_row t rows

-- `UPDATE task_board_tasks SET … WHERE run_id=? AND task_id=?`
unfoldable pub update_rows : List BoardTask → Dict Key BoardTask → Dict Key BoardTask
update_rows [] rows = rows
update_rows (t ∷ ts) rows =
    update_rows ts (if has_key (key_of t) rows then insert (key_of t) t rows else rows)

-- The statements of the transaction, on the rows.
unfoldable pub write : ServiceState → TaskGraphMutation → Effects → ServiceState
unfolding update_rows
write s m e = record s {
  snapshots = insert m.run_id e.graph s.snapshots;
  mutations =
      insert m.mutation_id
        (record {
          run_id = m.run_id;
          actor_agent_id = m.actor_agent_id;
          mutation_type = type_of m.payload;
          result_version = e.graph.version;
        })
        s.mutations;
  board = record (s.board) {
    rows = update_rows e.board_updates (insert_new e.board_task s.board.rows);
  };
}

-- `board.add(updated_task)` for each
unfoldable pub add_all : List BoardTask → Board → Board
unfolding add
add_all [] b = b
add_all (t ∷ ts) b = add_all ts (add t b)

abbrev pub resync_dependencies : TaskGraph → Option BoardTask → Board → Board
resync_dependencies g none b = b
resync_dependencies g (some t) b =
    add
      (record t {
        dependencies = elim (lookup t.task_id g.nodes) [ none ↦ [] | some n ↦ n.dependencies ];
      })
      b

-- What is done on the board after the commit.
abbrev pub publish_board : String → Payload → Effects → Option BoardTask → Board → Board
publish_board run_id payload e (some t) b =
    add_all e.board_updates (if is_none (raw_get b t.task_id (some run_id)) then add t b else b)
publish_board run_id (Payload.add_dependency task dependency) e none b =
    resync_dependencies e.graph (raw_get b task (some run_id)) b
publish_board run_id _ e none b = b

unfoldable pub publish : TaskGraphMutation → Effects → ServiceState → ServiceState
unfolding add_all add raw_get
publish m e s = record s { board = publish_board m.run_id m.payload e e.board_task s.board }

abbrev pub version_of : TaskGraphMutation → ℕ → TaskGraph → TaskGraphVersion
version_of m version g = record {
  run_id = m.run_id;
  version = version;
  mutation_id = m.mutation_id;
  graph = g;
}

abbrev pub finish :
    ServiceState
    → TaskGraphMutation
    → ServiceResult Effects
    → ServiceState × ServiceResult TaskGraphVersion
finish s m (failure e) = (s, failure e)
finish s m (success e) = (publish m e (write s m e), success (version_of m e.graph.version e.graph))

-- The transaction up to its writes: what it would write, or why it is rolled back.
unfoldable pub prepare :
    (TaskNode → Bool) → ServiceState → TaskGraphMutation → ℕ → ServiceResult Effects
unfolding apply_mutation
prepare allows s m now = do
  g ← found (lookup m.run_id s.snapshots) (no_graph m.run_id)
  check_version m.expected_version g.version
  e ← apply_mutation allows s.board m.run_id g m.payload now
  require (not (has_key m.mutation_id s.mutations)) (integrity_error m.mutation_id)
  success e

unfoldable pub commit_mutation :
    (TaskNode → Bool)
    → ServiceState
    → TaskGraphMutation
    → ℕ
    → ServiceState × ServiceResult TaskGraphVersion
unfolding prepare write publish
commit_mutation allows s m now = finish s m (prepare allows s m now)

-- A mutation that was applied before: the graph as it is now, and the version then.
abbrev pub replay : TaskGraphMutation → ℕ → ServiceResult TaskGraph → ServiceResult TaskGraphVersion
replay m version (failure e) = failure e
replay m version (success g) = success (version_of m version g)

abbrev pub check_then :
    ServiceState
    → ServiceResult (Unit {0})
    → ServiceState × ServiceResult TaskGraphVersion
    → ServiceState × ServiceResult TaskGraphVersion
check_then s (failure e) rest = (s, failure e)
check_then s (success _) rest = rest

abbrev pub apply_found :
    (TaskNode → Bool)
    → ServiceState
    → TaskGraphMutation
    → ℕ
    → Option LoggedMutation
    → ServiceState × ServiceResult TaskGraphVersion
apply_found allows s m now (some logged) = (s, replay m logged.result_version (graph s m.run_id))
apply_found allows s m now none =
    check_then s (graph s m.run_id >>= λ g. check_version m.expected_version g.version)
      (commit_mutation allows s m now)

-- `apply`, with no other caller between its tests and its transaction.
unfoldable pub apply :
    (TaskNode → Bool)
    → ServiceState
    → TaskGraphMutation
    → ℕ
    → ServiceState × ServiceResult TaskGraphVersion
unfolding graph commit_mutation
apply allows s m now = apply_found allows s m now (lookup m.mutation_id s.mutations)
