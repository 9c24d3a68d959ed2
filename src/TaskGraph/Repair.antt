-- ===== src/TaskGraph/Repair.antt =====
-- app/multiagent/task_graph.py: `add_repair_task`, which puts a repair node in a node's place.
use Prim.Native.String.{◌++◌ as join}
use text.Mathlib.Text.{starts_with}
use mega_deepagents.Base.{
  ℕ, zero, suc, max, String, Bool, true, false, ◌&&◌, Option, none, some, List, [], ◌∷◌,
  if◌then◌else◌, leb, length, contains, map, ◌==◌, string_eq,
}
use mega_deepagents.Base.Dict.{Dict, lookup, has_key}
use mega_deepagents.Base.Decimal.{decimal}
use mega_deepagents.TaskGraph.Node
use mega_deepagents.TaskGraph.Node.{TaskNode, is_succeeded, capability_timeout}
use mega_deepagents.TaskGraph.Graph.{
  TaskGraph, Result, ok, raise, no_such_target, invalid_node, out_of_fuel, add_node, update_status,
}

-- `s.split(marker, 1)[0]`: all of `s` where the marker does not stand in it.
unfoldable pub before : String → String → String
before marker String.[] = String.[]
before marker (String.◌∷◌ c s) =
    if starts_with (String.◌∷◌ c s) marker then String.[] else String.◌∷◌ c (before marker s)

abbrev pub versioned : String → ℕ → String
versioned name version = join name (join "__repair_v" (decimal version))

-- The id of the `i`-th attempt to find one.
unfoldable pub candidate : String → ℕ → ℕ → String
unfolding before decimal
candidate target version zero = versioned (before "__repair_v" target) version
candidate target version (suc i) = join (versioned target version) (join "_" (decimal (suc i)))

-- `while repair_id in self.nodes: i += 1; repair_id = …`
unfoldable pub first_free : Dict String TaskNode → (ℕ → String) → ℕ → ℕ → Option String
first_free nodes name zero i = none
first_free nodes name (suc fuel) i =
    let rest = first_free nodes name fuel (suc i) in
    if has_key (name i) nodes then rest else some (name i)

unfoldable pub repair_id : TaskGraph → String → Option String
unfolding first_free candidate
repair_id g target = first_free g.nodes (candidate target g.version) (suc (suc (length g.nodes))) 0

-- `xs or ys`
abbrev pub or_names : List String → List String → List String
or_names [] ys = ys
or_names (x ∷ xs) ys = x ∷ xs

-- `n if n else k`
abbrev pub or_number : ℕ → ℕ → ℕ
or_number zero k = k
or_number (suc n) k = suc n

unfoldable pub repair_attempts : TaskNode → ℕ
repair_attempts t = max (max (or_number t.max_attempts 4) (or_number t.budget.max_attempts 4)) 4

unfoldable pub repair_node : String → String → String → List String → TaskNode → TaskNode
unfolding repair_attempts capability_timeout
repair_node id target objective required_capabilities t =
    let caps =
      or_names required_capabilities
        (or_names t.required_capabilities ("coding" ∷ "file_write" ∷ [])) in
    record {
      id = id;
      title = join "Repair " target;
      objective = objective;
      description = join "在 " (join target " 基础上的修复任务");
      status = Node.pending;
      dependencies = t.dependencies;
      required_capabilities = caps;
      preferred_agent_profile = none;
      assigned_agent_id = none;
      input_artifact_ids = [];
      output_artifact_ids = [];
      output_contract = record {
        artifact_type = t.output_contract.artifact_type;
        description = t.output_contract.description;
        acceptance_criteria = t.output_contract.acceptance_criteria;
        required_artifacts = [];
        allow_parallel = true;
      };
      priority = 10;
      attempts = 0;
      max_attempts = repair_attempts t;
      budget = record {
        max_attempts = repair_attempts t;
        max_tool_calls = max (or_number t.budget.max_tool_calls 40) 80;
        max_seconds = or_number t.budget.max_seconds (capability_timeout caps);
        max_tokens = none;
      };
      error = none;
      started_at = none;
      completed_at = none;
    }

-- What the constructors of `TaskBudget` and `TaskNode` refuse of a repair node.
unfoldable pub is_constructible : TaskNode → Bool
is_constructible n =
    leb n.budget.max_attempts 10
    && leb n.budget.max_tool_calls 200
    && (if contains n.dependencies n.id then false else true)

unfoldable pub redirect : String → String → TaskNode → TaskNode
redirect target repair n =
    if contains n.dependencies target
    then record n { dependencies = map (λ d. if d == target then repair else d) n.dependencies }
    else n

-- `for n in self.nodes.values(): …`
unfoldable pub redirect_all : String → String → Dict String TaskNode → Dict String TaskNode
unfolding redirect
redirect_all target repair [] = []
redirect_all target repair ((k, n) ∷ d) =
    (k, redirect target repair n) ∷ redirect_all target repair d

-- The end of the method: the target is skipped, where the table allows it.
unfoldable pub retire : String → Bool → ℕ → TaskGraph → TaskGraph
unfolding update_status
retire target was_succeeded now g =
    let g' = if was_succeeded then (update_status g target Node.failed now).0 else g in
    (update_status g' target Node.skipped now).0

abbrev pub place :
    String → String → Bool → ℕ → TaskNode → Result TaskGraph → Result (TaskGraph × TaskNode)
place target repair was_succeeded now node (raise e) = raise e
place target repair was_succeeded now node (ok g) = ok (
  retire target was_succeeded now (record g { nodes = redirect_all target repair g.nodes }),
  redirect target repair node,
)

abbrev pub insert_repair :
    TaskGraph
    → String
    → String
    → List String
    → ℕ
    → TaskNode
    → Option String
    → Result (TaskGraph × TaskNode)
insert_repair g target objective caps now t none = raise out_of_fuel
insert_repair g target objective caps now t (some id) =
    let node = repair_node id target objective caps t in
    if is_constructible node
    then place target id (is_succeeded t.status) now node (add_node g node now)
    else raise (invalid_node id)

abbrev pub repair_found :
    TaskGraph → String → String → List String → ℕ → Option TaskNode → Result (TaskGraph × TaskNode)
repair_found g target objective caps now none = raise (no_such_target target)
repair_found g target objective caps now (some t) =
    insert_repair g target objective caps now t (repair_id g target)

-- `add_repair_task`, with the graph and the new node.
unfoldable pub add_repair_task :
    TaskGraph → String → String → List String → ℕ → Result (TaskGraph × TaskNode)
unfolding repair_id repair_node is_constructible redirect_all retire add_node
add_repair_task g target objective caps now =
    repair_found g target objective caps now (lookup target g.nodes)
