-- ===== src/TaskService.antt =====
-- app/multiagent/transactional_task_service.py: the plan graph of a run and its board, changed
-- together.
pub mod Store
pub mod Mutate
pub mod Apply
pub mod Signature
pub mod Register
pub mod Outcomes
pub mod PlanSteps
pub mod Calls
pub mod Plans
pub mod Extends
pub mod Rows
pub mod OnBoard
pub mod Registered
pub mod Later
pub mod AtMostOnce
pub mod Samples
