-- ===== src/PlanApproval/Service.antt =====
-- app/multiagent/plan_approval.py: `PlanApprovalService` over the table `teammate_plans`, whose rows
-- hold the plans. A plan's identifier is random in the source, and given here.
use text.Mathlib.Text.{starts_with}
use mega_deepagents.Base.{
  ℕ, String, Bool, true, false, ◌&&◌, ◌||◌, Option, none, some, List, [], ◌∷◌, if◌then◌else◌,
  length, leb, keep, ◌==◌, string_eq,
}
use mega_deepagents.Base.Dict.{Dict, lookup, insert, values}

pub data PlanStatus : Type 0 where
  planning waiting_plan_approval plan_approved plan_rejected : PlanStatus

pub record TeammatePlan : Type 0 where
  pub plan_id : String
  pub run_id : String
  pub agent_id : String
  pub task_id : String
  pub files : List String
  pub steps : List String
  pub test_strategy : List String
  pub risks : List String
  pub rollback : String
  pub status : PlanStatus
  pub submitted_at : ℕ
  pub decided_at : Option ℕ
  pub decided_by : Option String
  pub feedback : String

abbrev pub Plans : Type 0
Plans = Dict String TeammatePlan

pub data PlanError : Type 0 where
  -- PermissionError
  not_a_principal : PlanError
  -- KeyError
  no_such_plan : String → PlanError

pub data Decision : Type 0 where
  decided : TeammatePlan → Decision
  raised : PlanError → Decision

abbrev pub is_empty : List String → Bool
is_empty [] = true
is_empty (_ ∷ _) = false

abbrev pub is_waiting : PlanStatus → Bool
is_waiting waiting_plan_approval = true
is_waiting _ = false

-- `_save`. On a conflict the columns of run, agent and task stay; the plan is read from the payload.
unfoldable pub save : TeammatePlan → Plans → Plans
save plan plans = insert plan.plan_id plan plans

-- The branches of `submit`.
unfoldable pub assess : ℕ → TeammatePlan → TeammatePlan
assess now plan =
    if is_empty plan.steps || is_empty plan.test_strategy
    then record plan {
      status = plan_rejected;
      feedback = "plan requires steps and test strategy";
      decided_by = some "lead:auto";
      decided_at = some now;
    }
    else if is_empty plan.risks && leb (length plan.files) 10
    then record plan {
      status = plan_approved;
      decided_by = some "lead:auto";
      decided_at = some now;
    }
    else record plan { status = waiting_plan_approval }

unfoldable pub submit : Plans → TeammatePlan → ℕ → Plans × TeammatePlan
unfolding assess save
submit plans plan now = (save (assess now plan) plans, assess now plan)

-- `get`
unfoldable pub get : Plans → String → Option TeammatePlan
get plans plan_id = lookup plan_id plans

unfoldable pub is_principal : String → Bool
is_principal decided_by = starts_with decided_by "user" || starts_with decided_by "lead"

unfoldable pub settle : Bool → String → String → ℕ → TeammatePlan → TeammatePlan
settle approved decided_by feedback now plan = record plan {
  status = if approved then plan_approved else plan_rejected;
  decided_by = some decided_by;
  decided_at = some now;
  feedback = feedback;
}

abbrev decide_found :
    Plans → String → Bool → String → String → ℕ → Option TeammatePlan → Plans × Decision
decide_found plans plan_id approved decided_by feedback now none =
    (plans, raised (no_such_plan plan_id))
decide_found plans plan_id approved decided_by feedback now (some plan) =
    let plan' = settle approved decided_by feedback now plan in (save plan' plans, decided plan')

unfoldable pub decide : Plans → String → Bool → String → String → ℕ → Plans × Decision
unfolding is_principal get settle save
decide plans plan_id approved decided_by feedback now =
    if is_principal decided_by
    then decide_found plans plan_id approved decided_by feedback now (get plans plan_id)
    else (plans, raised not_a_principal)

unfoldable pub list_pending : Plans → String → List TeammatePlan
list_pending plans run_id = keep (λ p. p.run_id == run_id && is_waiting p.status) (values plans)
