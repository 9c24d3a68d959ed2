-- ===== src/TaskService/Store.antt =====
-- app/multiagent/transactional_task_service.py: `TaskGraphMutation`, `TaskGraphVersion`, the tables
-- `task_graph_snapshots` and `task_graph_mutations`, and `graph`. The log keeps no payloads, and the
-- table of events is not read by the service: it is left out. A transaction that raises is rolled
-- back, and the state before it is the state after it.
use mega_deepagents.Base.{ℕ, String, Option, none, some, List, []}
use mega_deepagents.Base.Dict.{Dict, lookup}
use mega_deepagents.TaskBoard.Store.{Board, empty_board}
use mega_deepagents.TaskGraph.Node.{TaskNode}
use mega_deepagents.TaskGraph.Graph
use mega_deepagents.TaskGraph.Graph.{TaskGraph, GraphError}
use mega_deepagents.Base.{Bool, true, false, string_eq}

-- A key of `changes` with its value.
pub data Change : Type 0 where
  set_title set_objective set_description : String → Change
  set_priority : ℕ → Change
  -- The keys of the metadata are left out.
  set_metadata : Change
  -- Any other key.
  set_other : String → Change

-- `mutation_type` with what it reads of `payload`.
pub data Payload : Type 0 where
  create_task : TaskNode → Payload
  add_dependency : (task_id dependency_id : String) → Payload
  update_task : (task_id : String) → List Change → Payload
  repair_task : (target_task_id objective : String) (required_capabilities : List String) → Payload
  plan_revision : Payload

pub record TaskGraphMutation : Type 0 where
  pub mutation_id : String
  pub run_id : String
  pub actor_agent_id : String
  pub payload : Payload
  pub expected_version : Option ℕ

pub record TaskGraphVersion : Type 0 where
  pub run_id : String
  pub version : ℕ
  pub mutation_id : String
  pub graph : TaskGraph

-- The column `mutation_type`.
pub data MutationType : Type 0 where
  created_task added_dependency updated_task repaired_task revised_plan initial_task : MutationType

-- A row of `task_graph_mutations`.
pub record LoggedMutation : Type 0 where
  pub run_id : String
  pub actor_agent_id : String
  pub mutation_type : MutationType
  pub result_version : ℕ

-- The database, and the process's board with the table of its tasks.
pub record ServiceState : Type 0 where
  pub snapshots : Dict String TaskGraph
  pub mutations : Dict String LoggedMutation
  pub board : Board

abbrev pub no_service : Bool → ServiceState
no_service persist = record { snapshots = []; mutations = []; board = empty_board persist }

pub data ServiceError : Type 0 where
  -- KeyError: the run has no graph
  no_graph : String → ServiceError
  -- RuntimeError: the version expected, and the version found
  version_conflict : ℕ → ℕ → ServiceError
  -- PermissionError of a hook
  blocked : String → ServiceError
  -- what a method of the graph raises
  of_graph : GraphError → ServiceError
  -- KeyError or ValueError: a node that the graph does not have
  unknown_task : String → ServiceError
  -- ValueError: a field that a plan's update may not set
  immutable_field : String → ServiceError
  -- ValueError: a type of mutation that `apply` does not know
  unsupported : ServiceError
  -- IntegrityError of the database: the row is there
  integrity_error : String → ServiceError

pub data ServiceResult {ℓ} (A : Type ℓ) : Type ℓ where
  success : A → ServiceResult A
  failure : ServiceError → ServiceResult A

infixl 5 ◌>>=◌ ◌>>◌
-- Shut, so that a proof meets the chain step by step.
unfoldable pub ◌>>=◌ {ℓ κ} :
    {A : Type ℓ} {B : Type κ} → ServiceResult A → (A → ServiceResult B) → ServiceResult B
success a >>= f = f a
failure e >>= f = failure e

abbrev pub ◌>>◌ {ℓ} : {B : Type ℓ} → ServiceResult (Unit {0}) → ServiceResult B → ServiceResult B
m >> k = m >>= λ _. k

abbrev pub require : Bool → ServiceError → ServiceResult (Unit {0})
require true e = success tt
require false e = failure e

abbrev pub found {ℓ} : {A : Type ℓ} → Option A → ServiceError → ServiceResult A
found none e = failure e
found (some a) e = success a

abbrev pub of_result {ℓ} : {A : Type ℓ} → Graph.Result A → ServiceResult A
of_result (Graph.ok a) = success a
of_result (Graph.raise e) = failure (of_graph e)

-- `graph`
unfoldable pub graph : ServiceState → String → ServiceResult TaskGraph
graph s run_id = found (lookup run_id s.snapshots) (no_graph run_id)
