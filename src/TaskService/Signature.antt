-- ===== src/TaskService/Signature.antt =====
-- app/multiagent/transactional_task_service.py: `_plan_signature`, by which a plan is recognised. The
-- source compares the JSON text of the record that is built here.
use native.Mathlib.Decide.{ℕ_discrete}
use mega_deepagents.Base.{
  ℕ, String, Bool, true, false, Option, none, some, List, [], ◌∷◌, ite, if◌then◌else◌, string_eq,
  Eq,
}
use mega_deepagents.Base.Dict.{Dict}
use mega_deepagents.TaskGraph.Node.{TaskNode, OutputContract, TaskBudget}
use mega_deepagents.TaskGraph.Graph.{TaskGraph}
use mega_deepagents.TaskGraph.Ready.{name_lt}

unfoldable pub insert_name : String → List String → List String
insert_name x [] = x ∷ []
insert_name x (y ∷ ys) = let rest = insert_name x ys in if name_lt y x then y ∷ rest else x ∷ y ∷ ys

-- `sorted(names)`
unfoldable pub sort_names : List String → List String
unfolding insert_name
sort_names [] = []
sort_names (x ∷ xs) = insert_name x (sort_names xs)

-- The entry of a node.
pub record NodeSignature : Type 0 where
  pub id : String
  pub title : String
  pub objective : String
  pub description : String
  pub dependencies : List String
  pub required_capabilities : List String
  pub preferred_agent_profile : Option String
  pub output_contract : OutputContract
  pub priority : ℕ
  pub max_attempts : ℕ
  pub budget : TaskBudget

unfoldable pub node_signature : String → TaskNode → NodeSignature
unfolding sort_names
node_signature id n = record {
  id = id;
  title = n.title;
  objective = n.objective;
  description = n.description;
  dependencies = sort_names n.dependencies;
  required_capabilities = sort_names n.required_capabilities;
  preferred_agent_profile = n.preferred_agent_profile;
  output_contract = n.output_contract;
  priority = n.priority;
  max_attempts = n.max_attempts;
  budget = n.budget;
}

unfoldable pub insert_signature : NodeSignature → List NodeSignature → List NodeSignature
insert_signature x [] = x ∷ []
insert_signature x (y ∷ ys) =
    let rest = insert_signature x ys in if name_lt y.id x.id then y ∷ rest else x ∷ y ∷ ys

-- `for node_id, node in sorted(graph.nodes.items())`
unfoldable pub signatures : Dict String TaskNode → List NodeSignature
unfolding node_signature insert_signature
signatures [] = []
signatures ((id, n) ∷ d) = insert_signature (node_signature id n) (signatures d)

pub record PlanSignature : Type 0 where
  pub root_task_id : String
  pub nodes : List NodeSignature

unfoldable pub plan_signature : TaskGraph → PlanSignature
unfolding signatures
plan_signature g = record { root_task_id = g.root_task_id; nodes = signatures g.nodes }

string_dec : Discrete String
unfolding mega_deepagents.Base.Equality.string_eq
string_dec = string_eq.dec

unfoldable pub plan_signature_dec : Discrete PlanSignature
unfolding string_dec
plan_signature_dec = hlevel (string_dec, ℕ_discrete)

-- `self._plan_signature(current) == self._plan_signature(graph)`
unfoldable pub same_plan : TaskGraph → TaskGraph → Bool
unfolding plan_signature plan_signature_dec
same_plan g h = ite (plan_signature_dec (plan_signature g) (plan_signature h)) true false
