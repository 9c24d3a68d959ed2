-- ===== src/TaskGraph/Samples.antt =====
-- app/multiagent/task_graph.py: node_a graph of three nodes, on which the theorems are used.
use mathlib.Core.List.{Perm}
use mega_deepagents.Base.{
  ℕ, ◌+◌, String, string_eq, Bool, true, Option, none, some, List, [], ◌∷◌, ◌≡◌, ◌⊎◌, refl, keep,
  false, ◌≤◌, ◌<◌, arith, contains, if◌then◌else◌, ◌==◌, string_eq,
}
use mega_deepagents.Base.Dict.{lookup, values, has_key}
use mega_deepagents.TaskGraph.Node
use mega_deepagents.TaskGraph.Node.{TaskNode, TaskNodeStatus}
use mega_deepagents.TaskGraph.Graph.{
  TaskGraph, ok, raise, invalid_node, check_all_dependencies_exist,
}
use mega_deepagents.TaskGraph.Ready.{ready_tasks}
use mega_deepagents.TaskGraph.Search.{edges, has_cycle, topological_order, descendants}
use mega_deepagents.TaskGraph.Kahn.{occurrences, one_if}
use mega_deepagents.TaskGraph.Order
use mega_deepagents.TaskGraph.Cycles
use mega_deepagents.TaskGraph.Reach
use mega_deepagents.TaskGraph.Readiness
use mega_deepagents.TaskGraph.Ranks.{IsPlan}
use mega_deepagents.TaskGraph.Repair.{add_repair_task}
use mega_deepagents.TaskGraph.RepairPlan

abbrev node : String → TaskNodeStatus → List String → ℕ → TaskNode
node id status dependencies priority = record {
  id = id;
  title = id;
  objective = "";
  description = "";
  status = status;
  dependencies = dependencies;
  required_capabilities = [];
  preferred_agent_profile = none;
  assigned_agent_id = none;
  input_artifact_ids = [];
  output_artifact_ids = [];
  output_contract = record {
    artifact_type = "text";
    description = "";
    acceptance_criteria = [];
    required_artifacts = [];
    allow_parallel = true;
  };
  priority = priority;
  attempts = 0;
  max_attempts = 3;
  budget = record { max_attempts = 1; max_tool_calls = 1; max_seconds = 1; max_tokens = none };
  error = none;
  started_at = none;
  completed_at = none;
}

-- `b` and `c` wait for `a`, which has succeeded; `d` waits for `c`.
abbrev node_a : TaskNode
node_a = node "a" Node.succeeded [] 5

abbrev node_b : TaskNode
node_b = node "b" Node.pending ("a" ∷ []) 5

abbrev node_c : TaskNode
node_c = node "c" Node.pending ("a" ∷ []) 8

abbrev node_d : TaskNode
node_d = node "d" Node.pending ("c" ∷ []) 9

abbrev sample : TaskGraph
sample = record {
  root_task_id = "a";
  nodes = ("a", node_a) ∷ ("b", node_b) ∷ ("c", node_c) ∷ ("d", node_d) ∷ [];
  version = 4;
  updated_at = 0;
}

-- The higher priority comes first, and `d` is not ready.
sample_ready : ready_tasks sample ≡ ok (node_c ∷ node_b ∷ [])
unfolding ready_tasks lookup mega_deepagents.Base.Equality.string_eq
sample_ready = refl

sample_checked : check_all_dependencies_exist sample ≡ ok tt
unfolding check_all_dependencies_exist lookup mega_deepagents.Base.Equality.string_eq
sample_checked = refl

ready_tasks-exact_example :
    (ns : List TaskNode) × (ready_tasks sample ≡ ok ns)
    × Perm ns (keep (Readiness.is_runnable sample.nodes) (values sample.nodes))
    × Readiness.IsByPriority ns
ready_tasks-exact_example = Readiness.ready_tasks-exact sample sample_checked

sample-IsKeyed : Order.IsKeyed sample
unfolding mega_deepagents.Base.Equality.string_eq lookup
sample-IsKeyed = record {
  keyed = (refl, (refl, (refl, (refl, tt))));
  nodup = (refl, (refl, (refl, (refl, tt))));
}

-- `d` waits for `c` besides, and `c` for `d`.
abbrev cyclic_sample : TaskGraph
cyclic_sample = record sample {
  nodes = ("a", node_a) ∷ ("c", node "c" Node.pending ("a" ∷ "d" ∷ []) 8) ∷ ("d", node_d) ∷ [];
}

cyclic-IsKeyed : Order.IsKeyed cyclic_sample
unfolding mega_deepagents.Base.Equality.string_eq lookup
cyclic-IsKeyed = record { keyed = (refl, (refl, (refl, tt))); nodup = (refl, (refl, (refl, tt))) }

cyclic_checked : check_all_dependencies_exist cyclic_sample ≡ ok tt
unfolding check_all_dependencies_exist lookup mega_deepagents.Base.Equality.string_eq
cyclic_checked = refl

cyclic_found : has_cycle cyclic_sample ≡ ok true
unfolding has_cycle lookup mega_deepagents.Base.Equality.string_eq
cyclic_found = refl

sample_acyclic : has_cycle sample ≡ ok false
unfolding has_cycle lookup mega_deepagents.Base.Equality.string_eq
sample_acyclic = refl

sample_order : topological_order sample ≡ ok ("a" ∷ "c" ∷ "d" ∷ "b" ∷ [])
unfolding topological_order check_all_dependencies_exist lookup
    mega_deepagents.Base.Equality.string_eq
sample_order = refl

sample_below : descendants sample "a" ≡ some ("b" ∷ "d" ∷ "c" ∷ [])
unfolding descendants lookup mega_deepagents.Base.Equality.string_eq
sample_below = refl

abbrev letter_rank : String → ℕ
letter_rank v = if v == "a" then 0 else if v == "c" then 1 else 2

has_cycle-Violated_example :
    (v : String) × (w : String) × (contains (Order.dependencies_of cyclic_sample v) w ≡ true)
    × (letter_rank v ≤ letter_rank w)
has_cycle-Violated_example =
    Cycles.has_cycle-Violated cyclic_sample cyclic-IsKeyed cyclic_checked cyclic_found letter_rank

topological_order-sorts_example :
    (out : List String) × (topological_order sample ≡ ok out)
    × Cycles.IsTopological sample [] out
    × ((v : String) → occurrences v out ≡ one_if (has_key v sample.nodes))
topological_order-sorts_example =
    Cycles.topological_order-sorts sample sample-IsKeyed sample_checked sample_acyclic

held_a : has_key "a" sample.nodes ≡ true
unfolding lookup mega_deepagents.Base.Equality.string_eq
held_a = refl

descendants-Reach_example :
    (out : List String) × (descendants sample "a" ≡ some out)
    × ((v : String)
        → (contains out v ≡ true → Reach.Reach (edges (values sample.nodes)) "a" v)
          × (Reach.Reach (edges (values sample.nodes)) "a" v → contains out v ≡ true))
descendants-Reach_example = Reach.descendants-Reach sample "a" held_a

sample-IsPlan : IsPlan sample
sample-IsPlan = record {
  keyed = sample-IsKeyed;
  complete = sample_checked;
  acyclic = sample_acyclic;
}

found_c : lookup "c" sample.nodes ≡ some node_c
unfolding lookup mega_deepagents.Base.Equality.string_eq
found_c = refl

add_repair_task-IsRepaired_example :
    ((10 < node_c.max_attempts)
      × ((id : String) × (add_repair_task sample "c" "mend" [] 7 ≡ raise (invalid_node id))))
    ⊎ ((node_c.max_attempts ≤ 10)
        × ((g' : TaskGraph) × (n : TaskNode) × (add_repair_task sample "c" "mend" [] 7 ≡ ok (g', n))
            × RepairPlan.IsRepaired sample "c" g' n))
add_repair_task-IsRepaired_example =
    RepairPlan.add_repair_task-IsRepaired sample sample-IsPlan "c" "mend" [] 7 node_c found_c
      (omega arith) (omega arith)
