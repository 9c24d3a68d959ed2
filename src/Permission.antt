-- ===== src/Permission.antt =====
-- app/multiagent/permission.py: the permissions of the agents' tools.
pub mod Request
pub mod Broker
pub mod Authority
pub mod Samples
