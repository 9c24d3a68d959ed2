-- ===== src/PlanApproval.antt =====
-- app/multiagent/plan_approval.py: the gate that a teammate's plan passes before it is carried out.
pub mod Service
pub mod Gate
pub mod Samples
