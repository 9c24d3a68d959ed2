-- ===== src/Registry.antt =====
-- app/multiagent/agent_registry.py, the agents of the process.
pub mod Row
pub mod Pool
pub mod Leases
pub mod Durable
pub mod Keeping
pub mod Calls
pub mod Reserve
pub mod Exclusive
pub mod Expiry
pub mod Samples
