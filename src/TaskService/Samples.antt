-- ===== src/TaskService/Samples.antt =====
-- app/multiagent/transactional_task_service.py: a plan that is registered, extended and repaired.
use mega_deepagents.Base.{
  ℕ, String, string_eq, pair_eq, Bool, true, Option, none, some, List, [], ◌∷◌, ◌≡◌, refl, All,
}
use mega_deepagents.Base.Dict.{lookup, has_key, insert}
use mega_deepagents.TaskGraph.Node
use mega_deepagents.TaskGraph.Node.{TaskNode}
use mega_deepagents.TaskGraph.Graph.{TaskGraph}
use mega_deepagents.TaskGraph.Order.{IsKeyed}
use mega_deepagents.TaskGraph.Ranks.{IsPlan}
use mega_deepagents.TaskService.Store.{
  Payload, TaskGraphMutation, ServiceState, success, no_service, ◌>>=◌,
}
use mega_deepagents.TaskService.Apply.{apply, version_of}
use mega_deepagents.TaskService.Calls.{ServiceCall, TimedCall, service_calls}
use mega_deepagents.TaskService.Plans.{IsKeyedCall, stored-IsPlan}
use mega_deepagents.TaskService.Registered.{stored-on-board}
use mega_deepagents.TaskService.AtMostOnce.{apply_once}

abbrev pub step : String → List String → TaskNode
step id dependencies = record {
  id = id;
  title = id;
  objective = "";
  description = "";
  status = Node.pending;
  dependencies = dependencies;
  required_capabilities = [];
  preferred_agent_profile = none;
  assigned_agent_id = none;
  input_artifact_ids = [];
  output_artifact_ids = [];
  output_contract = record {
    artifact_type = "text";
    description = "";
    acceptance_criteria = [];
    required_artifacts = [];
    allow_parallel = true;
  };
  priority = 5;
  attempts = 0;
  max_attempts = 3;
  budget = record { max_attempts = 1; max_tool_calls = 1; max_seconds = 1; max_tokens = none };
  error = none;
  started_at = none;
  completed_at = none;
}

abbrev plan : TaskGraph
plan = record {
  root_task_id = "a";
  nodes = ("a", step "a" []) ∷ ("b", step "b" ("a" ∷ [])) ∷ [];
  version = 1;
  updated_at = 0;
}

plan-IsKeyed : IsKeyed plan
unfolding mega_deepagents.Base.Equality.string_eq lookup
plan-IsKeyed = record { keyed = (refl, (refl, tt)); nodup = (refl, (refl, tt)) }

abbrev mutation : String → Payload → TaskGraphMutation
mutation id payload = record {
  mutation_id = id;
  run_id = "r";
  actor_agent_id = "lead";
  payload = payload;
  expected_version = none;
}

abbrev pub adding : TaskGraphMutation
adding = mutation "m1" (Payload.create_task (step "c" ("b" ∷ [])))

abbrev linking : TaskGraphMutation
linking = mutation "m2" (Payload.add_dependency "c" "a")

abbrev anyone : TaskNode → Bool
anyone n = true

-- The last call makes its tests on an earlier state.
abbrev history : List TimedCall
history =
    (1, anyone, ServiceCall.register "r" plan "lead")
    ∷ (2, anyone, ServiceCall.mutate adding)
    ∷ (3, anyone, ServiceCall.mutate_late linking)
    ∷ []

history-keyed : All (λ c. IsKeyedCall c.2) history
history-keyed = (plan-IsKeyed, (tt, (tt, tt)))

abbrev plan_after : TaskGraph
plan_after = record {
  root_task_id = "a";
  nodes = ("a", step "a" []) ∷ ("b", step "b" ("a" ∷ [])) ∷ ("c", step "c" ("b" ∷ "a" ∷ [])) ∷ [];
  version = 3;
  updated_at = 3;
}

stored_after : lookup "r" (service_calls (no_service true) history).snapshots ≡ some plan_after
unfolding service_calls lookup ◌>>=◌ mega_deepagents.Base.Equality.string_eq
    mega_deepagents.Base.Equality.pair_eq mega_deepagents.TaskService.Apply.commit_mutation apply
    mega_deepagents.TaskService.Register.register_initial_graph
    mega_deepagents.TaskGraph.Search.validate
    mega_deepagents.TaskGraph.Graph.check_all_dependencies_exist
    mega_deepagents.TaskService.Register.log_initial insert
stored_after = refl

held_after : has_key "c" plan_after.nodes ≡ true
unfolding lookup mega_deepagents.Base.Equality.string_eq
held_after = refl

stored-IsPlan_example : IsPlan plan_after
stored-IsPlan_example = stored-IsPlan true history "r" plan_after history-keyed stored_after

stored-on-board_example :
    has_key ("r", "c") (service_calls (no_service true) history).board.rows ≡ true
stored-on-board_example =
    stored-on-board true history "r" plan_after "c" history-keyed stored_after held_after

abbrev pub registered : ServiceState
registered =
    service_calls (no_service true) ((1, anyone, ServiceCall.register "r" plan "lead") ∷ [])

-- The plan with the first mutation.
abbrev plan_added : TaskGraph
plan_added = record {
  root_task_id = "a";
  nodes = ("a", step "a" []) ∷ ("b", step "b" ("a" ∷ [])) ∷ ("c", step "c" ("b" ∷ [])) ∷ [];
  version = 2;
  updated_at = 2;
}

first_answer : (apply anyone registered adding 2).1 ≡ success (version_of adding 2 plan_added)
unfolding apply service_calls lookup ◌>>=◌ mega_deepagents.Base.Equality.string_eq
    mega_deepagents.Base.Equality.pair_eq
    mega_deepagents.TaskService.Register.register_initial_graph
    mega_deepagents.TaskGraph.Search.validate
    mega_deepagents.TaskGraph.Graph.check_all_dependencies_exist
    mega_deepagents.TaskService.Register.log_initial insert
first_answer = refl

abbrev later_calls : List TimedCall
later_calls = (3, anyone, ServiceCall.mutate linking) ∷ []

apply_once_example :
    let later = service_calls (apply anyone registered adding 2).0 later_calls in
    (g : TaskGraph) × (lookup "r" later.snapshots ≡ some g)
    × (apply anyone later adding 9 ≡ (later, success (version_of adding 2 g)))
apply_once_example =
    apply_once anyone anyone registered adding 2 9 (version_of adding 2 plan_added) later_calls
      first_answer
