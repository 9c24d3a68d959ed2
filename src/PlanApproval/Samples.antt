-- ===== src/PlanApproval/Samples.antt =====
-- app/multiagent/plan_approval.py: two plans, on which the theorems are used.
use mega_deepagents.Base.{
  ℕ, String, Bool, true, none, some, List, [], ◌∷◌, ◌≡◌, refl, All, string_eq,
}
use mega_deepagents.Base.Dict.{lookup}
use mega_deepagents.PlanApproval.Service
use mega_deepagents.PlanApproval.Service.{TeammatePlan, PlanStatus}
use mega_deepagents.PlanApproval.Gate
use mega_deepagents.PlanApproval.Gate.{PlanCall, plan_calls, is_accounted, is_harmless}

abbrev plan : String → List String → TeammatePlan
plan id risks = record {
  plan_id = id;
  run_id = "r";
  agent_id = "agent_1";
  task_id = "a";
  files = "main.py" ∷ [];
  steps = "write" ∷ [];
  test_strategy = "run" ∷ [];
  risks = risks;
  rollback = "";
  status = PlanStatus.planning;
  submitted_at = 0;
  decided_at = none;
  decided_by = none;
  feedback = "";
}

-- An agent tries to approve its own plan.
abbrev ungoverned : List (ℕ × PlanCall)
ungoverned =
    (1, PlanCall.submit (plan "p1" ("migration" ∷ [])))
    ∷ (2, PlanCall.submit (plan "p2" []))
    ∷ (3, PlanCall.decide "p1" true "agent_1" "")
    ∷ []

abbrev approved_p2 : TeammatePlan
approved_p2 = record (plan "p2" []) {
  status = PlanStatus.plan_approved;
  decided_by = some "lead:auto";
  decided_at = some 2;
}

p2_found : lookup "p2" (plan_calls [] ungoverned) ≡ some approved_p2
unfolding plan_calls lookup Service.decide Service.submit mega_deepagents.Base.Dict.insert
    mega_deepagents.Base.Equality.string_eq
p2_found = refl

unprivileged : All (λ (e : ℕ × PlanCall). Gate.is_unprivileged e.1 ≡ true) ungoverned
unfolding Service.is_principal
unprivileged = (refl, (refl, (refl, tt)))

approved-justified_example : is_harmless approved_p2 ≡ true
approved-justified_example = Gate.approved-justified ungoverned "p2" unprivileged p2_found refl
