-- ===== src/TaskGraph/Graph.antt =====
-- app/multiagent/task_graph.py: `TaskGraph`, its validation, its mutators and the whole-graph queries.
-- A mutator takes the clock's reading `now`; what raises returns a `Result`.
use mega_deepagents.Base.{
  ℕ, ◌+◌, String, Bool, true, false, ◌&&◌, Option, none, some, List, [], ◌∷◌, ◌++◌, if◌then◌else◌,
  all, contains, is_none, string_eq,
}
use mega_deepagents.Base.Dict.{Dict, lookup, insert, has_key, values}
use mega_deepagents.TaskGraph.Node.{
  TaskNode, TaskNodeStatus, ExecutionError, is_legal_transition, is_terminal, is_running,
  is_resolved,
}

pub record TaskGraph : Type 0 where
  pub root_task_id : String
  pub nodes : Dict String TaskNode
  pub version : ℕ
  pub updated_at : ℕ

pub data GraphError : Type 0 where
  -- ValueError of `add_node`
  already_exists : String → GraphError
  -- ValueError of `_check_all_dependencies_exist`: the node and the dependency that it lacks.
  unknown_dependency : String → String → GraphError
  -- KeyError of a dictionary that the nodes' keys index
  key_error : String → GraphError
  -- ValueError of `validate` and `topological_order`
  cyclic : GraphError
  -- ValueError of `add_repair_task`
  no_such_target : String → GraphError
  -- ValidationError of a node that is constructed: its id, or a bound of its budget.
  invalid_node : String → GraphError
  -- The fuel of a loop of the model ran out.
  out_of_fuel : GraphError

pub data Result {ℓ} (A : Type ℓ) : Type ℓ where
  ok : A → Result A
  raise : GraphError → Result A

abbrev pub first_missing : TaskGraph → List String → Option String
first_missing g [] = none
first_missing g (dep ∷ deps) =
    let rest = first_missing g deps in if has_key dep g.nodes then rest else some dep

abbrev pub checked : String → Option String → Result (Unit {0}) → Result (Unit {0})
checked id none rest = rest
checked id (some dep) rest = raise (unknown_dependency id dep)

abbrev pub check_nodes : TaskGraph → List TaskNode → Result (Unit {0})
check_nodes g [] = ok tt
check_nodes g (n ∷ ns) = checked n.id (first_missing g n.dependencies) (check_nodes g ns)

-- `_check_all_dependencies_exist`
unfoldable pub check_all_dependencies_exist : TaskGraph → Result (Unit {0})
check_all_dependencies_exist g = check_nodes g (values g.nodes)

-- `_touch`
abbrev pub touch : ℕ → TaskGraph → TaskGraph
touch now g = record g { version = g.version + 1; updated_at = now }

-- The node object under the key is mutated, and the graph touched.
abbrev pub put_node : ℕ → String → TaskNode → TaskGraph → TaskGraph
put_node now node_id n g = touch now (record g { nodes = insert node_id n g.nodes })

unfoldable pub add_node : TaskGraph → TaskNode → ℕ → Result TaskGraph
add_node g node now =
    if has_key node.id g.nodes
    then raise (already_exists node.id)
    else ok (put_node now node.id node g)

unfoldable pub with_status : TaskNodeStatus → ℕ → TaskNode → TaskNode
with_status status now n = record n {
  status = status;
  started_at = if is_running status && is_none n.started_at then some now else n.started_at;
  completed_at = if is_terminal status then some now else n.completed_at;
}

abbrev update_found : TaskGraph → String → TaskNodeStatus → ℕ → Option TaskNode → TaskGraph × Bool
update_found g node_id status now none = (g, false)
update_found g node_id status now (some n) =
    if is_legal_transition n.status status
    then (put_node now node_id (with_status status now n) g, true)
    else (g, false)

unfoldable pub update_status : TaskGraph → String → TaskNodeStatus → ℕ → TaskGraph × Bool
update_status g node_id status now = update_found g node_id status now (lookup node_id g.nodes)

abbrev assign_found : TaskGraph → String → Option String → ℕ → Option TaskNode → TaskGraph
assign_found g node_id agent_id now none = g
assign_found g node_id agent_id now (some n) =
    put_node now node_id (record n { assigned_agent_id = agent_id }) g

unfoldable pub assign_agent : TaskGraph → String → Option String → ℕ → TaskGraph
assign_agent g node_id agent_id now = assign_found g node_id agent_id now (lookup node_id g.nodes)

abbrev or_keep : Option ExecutionError → Option ExecutionError → Option ExecutionError
or_keep none old = old
or_keep (some e) old = some e

abbrev attempt_found : TaskGraph → String → Option ExecutionError → ℕ → Option TaskNode → TaskGraph
attempt_found g node_id error now none = g
attempt_found g node_id error now (some n) =
    put_node now node_id (record n { attempts = n.attempts + 1; error = or_keep error n.error }) g

unfoldable pub record_attempt : TaskGraph → String → Option ExecutionError → ℕ → TaskGraph
record_attempt g node_id error now = attempt_found g node_id error now (lookup node_id g.nodes)

abbrev artifact_found : TaskGraph → String → String → ℕ → Option TaskNode → TaskGraph
artifact_found g node_id artifact_id now none = g
artifact_found g node_id artifact_id now (some n) =
    if contains n.output_artifact_ids artifact_id
    then g
    else put_node now node_id
        (record n { output_artifact_ids = n.output_artifact_ids ++ artifact_id ∷ [] }) g

unfoldable pub accept_artifact : TaskGraph → String → String → ℕ → TaskGraph
accept_artifact g node_id artifact_id now =
    artifact_found g node_id artifact_id now (lookup node_id g.nodes)

-- `all([])` is true, so the source's early return for an empty graph is this case too.
unfoldable pub all_succeeded : TaskGraph → Bool
all_succeeded g = all (λ n. is_resolved n.status) (values g.nodes)
