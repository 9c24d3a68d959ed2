-- ===== src/Agent.antt =====
-- app/multiagent/agent_instance.py: one running agent and its state machine.
pub mod Instance
pub mod Lifecycle
pub mod Samples
