-- ===== src/TaskService/Mutate.antt =====
-- app/multiagent/transactional_task_service.py: `_apply_mutation`, which changes a copy of the run's
-- graph and says which tasks of the board are to be added and changed. What the hooks on TaskCreated
-- answer is the argument `allows`, true where they allow the task and do not block it.
use Prim.Native.String.{◌++◌ as join}
use mega_deepagents.Base.{
  ℕ, String, Bool, true, false, not, Option, none, some, List, [], ◌∷◌, ◌++◌, if◌then◌else◌,
  contains, ◌==◌, string_eq,
}
use mega_deepagents.Base.Dict.{lookup, has_key, values}
use mega_deepagents.TaskBoard.Task.{BoardTask, new_task}
use mega_deepagents.TaskBoard.Store.{Board, raw_get}
use mega_deepagents.TaskGraph.Node
use mega_deepagents.TaskGraph.Node.{TaskNode, is_running}
use mega_deepagents.TaskGraph.Graph
use mega_deepagents.TaskGraph.Graph.{TaskGraph, touch, put_node, update_status, invalid_node}
use mega_deepagents.TaskGraph.Search.{validate}
use mega_deepagents.TaskGraph.Repair.{or_names, add_repair_task}
use mega_deepagents.TaskService.Store.{
  Change, Payload, ServiceResult, success, failure, ◌>>=◌, ◌>>◌, require, found, of_result, blocked,
  of_graph, unknown_task, immutable_field, unsupported,
}

-- `a or b` on texts
abbrev pub or_text : String → String → String
or_text a b = if a == "" then b else a

-- The board's task for a node of the plan.
unfoldable pub task_of_node : String → ℕ → TaskNode → BoardTask
unfolding new_task
task_of_node run_id now n =
    new_task n.id run_id (or_text n.title n.id) n.objective n.dependencies n.required_capabilities
      n.priority n.max_attempts now

-- What `_apply_mutation` leaves: the graph, the new task, and the changed ones.
pub record Effects : Type 0 where
  pub graph : TaskGraph
  pub board_task : Option BoardTask
  pub board_updates : List BoardTask

abbrev pub effects : TaskGraph → Option BoardTask → List BoardTask → Effects
effects g task updates = record { graph = g; board_task = task; board_updates = updates }

-- The branch CREATE_TASK; the first test is the validator of `TaskNode`.
unfoldable pub create_task_effects :
    (TaskNode → Bool) → String → TaskGraph → TaskNode → ℕ → ServiceResult Effects
unfolding task_of_node
create_task_effects allows run_id g n now = do
  require (not (contains n.dependencies n.id)) (of_graph (invalid_node n.id))
  require (allows n) (blocked n.id)
  g' ← of_result (Graph.add_node g n now)
  of_result (validate g')
  success (effects g' (some (task_of_node run_id now n)) [])

-- `if dependency_id not in node.dependencies: …`
unfoldable pub depend : TaskGraph → String → String → TaskNode → ℕ → TaskGraph
depend g task_id dependency_id n now =
    if contains n.dependencies dependency_id
    then g
    else put_node now task_id (record n { dependencies = n.dependencies ++ dependency_id ∷ [] }) g

-- The branch ADD_DEPENDENCY.
unfoldable pub add_dependency_effects : TaskGraph → String → String → ℕ → ServiceResult Effects
unfolding depend
add_dependency_effects g task_id dependency_id now = do
  n ← found (lookup task_id g.nodes) (unknown_task task_id)
  require (has_key dependency_id g.nodes) (unknown_task dependency_id)
  let g' = depend g task_id dependency_id n now
  of_result (validate g')
  success (effects g' none [])

abbrev pub apply_change : Change → TaskNode → ServiceResult TaskNode
apply_change (Change.set_title title) n = success (record n { title = title })
apply_change (Change.set_objective objective) n = success (record n { objective = objective })
apply_change (Change.set_description text) n = success (record n { description = text })
apply_change (Change.set_priority priority) n = success (record n { priority = priority })
apply_change Change.set_metadata n = success n
apply_change (Change.set_other key) n = failure (immutable_field key)

unfoldable pub apply_changes : List Change → TaskNode → ServiceResult TaskNode
apply_changes [] n = success n
apply_changes (c ∷ cs) n = apply_change c n >>= apply_changes cs

-- The branch UPDATE_TASK.
unfoldable pub update_task_effects : TaskGraph → String → List Change → ℕ → ServiceResult Effects
unfolding apply_changes
update_task_effects g task_id changes now = do
  n ← found (lookup task_id g.nodes) (unknown_task task_id)
  n' ← apply_changes changes n
  success (effects (put_node now task_id n' g) none [])

abbrev pub mark_superseded : String → ℕ → Option BoardTask → List BoardTask
mark_superseded repair_id now none = []
mark_superseded repair_id now (some t) =
    record t {
      updated_at = now;
      metadata = record t.metadata { superseded_by_repair = some repair_id };
    }
    ∷ []

abbrev same_names : List String → List String → Bool
same_names [] [] = true
same_names (a ∷ as') (b ∷ bs) = if a == b then same_names as' bs else false
same_names _ _ = false

abbrev pub resync_task : ℕ → TaskNode → Option BoardTask → List BoardTask → List BoardTask
resync_task now n none rest = rest
resync_task now n (some t) rest =
    if same_names t.dependencies n.dependencies
    then rest
    else record t { dependencies = n.dependencies; updated_at = now } ∷ rest

-- `for node in graph.nodes.values(): …`
unfoldable pub resync : Board → String → String → ℕ → List TaskNode → List BoardTask
unfolding raw_get
resync b run_id repair_id now [] = []
resync b run_id repair_id now (n ∷ ns) =
    let rest = resync b run_id repair_id now ns in
    if n.id == repair_id then rest else resync_task now n (raw_get b n.id (some run_id)) rest

abbrev pub fail_running : TaskGraph → String → TaskNode → ℕ → TaskGraph
fail_running g target t now =
    if is_running t.status then (update_status g target Node.failed now).0 else g

-- The branch REPAIR_TASK.
unfoldable pub repair_task_effects :
    Board → String → TaskGraph → String → String → List String → ℕ → ServiceResult Effects
unfolding add_repair_task resync task_of_node raw_get update_status
repair_task_effects b run_id g target objective caps now = do
  t ← found (lookup target g.nodes) (unknown_task target)
  made ← of_result (
      add_repair_task (fail_running g target t now) target
        (or_text objective (join "repair " t.objective)) (or_names caps t.required_capabilities)
        now)
  let repair = made.1
  success (
      effects made.0 (some (task_of_node run_id now repair)) (
        mark_superseded repair.id now (raw_get b target (some run_id))
        ++ resync b run_id repair.id now (values made.0.nodes)))

-- `_apply_mutation`
unfoldable pub apply_mutation :
    (TaskNode → Bool) → Board → String → TaskGraph → Payload → ℕ → ServiceResult Effects
unfolding create_task_effects add_dependency_effects update_task_effects repair_task_effects
apply_mutation allows b run_id g (Payload.create_task n) now =
    create_task_effects allows run_id g n now
apply_mutation allows b run_id g (Payload.add_dependency task dependency) now =
    add_dependency_effects g task dependency now
apply_mutation allows b run_id g (Payload.update_task task changes) now =
    update_task_effects g task changes now
apply_mutation allows b run_id g (Payload.repair_task target objective caps) now =
    repair_task_effects b run_id g target objective caps now
apply_mutation allows b run_id g Payload.plan_revision now = failure unsupported
