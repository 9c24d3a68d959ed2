-- ===== src/Termination.antt =====
-- app/multiagent/termination.py: when a team's rounds end.
pub mod Rules
pub mod Check
pub mod Success
pub mod Stalls
pub mod Samples
