-- ===== src/TaskGraph.antt =====
-- app/multiagent/task_graph.py, the versioned plan structure.
pub mod Node
pub mod Graph
pub mod Ready
pub mod Search
pub mod Repair
pub mod Kahn
pub mod Order
pub mod Topology
pub mod Cycles
pub mod Ranks
pub mod Repairing
pub mod Shape
pub mod FreshId
pub mod Substitution
pub mod RepairBudget
pub mod RepairPlan
pub mod Reach
pub mod Mutations
pub mod Readiness
pub mod Samples
