-- ===== src/Scheduler.antt =====
-- app/multiagent/parallel_scheduler.py: the scheduler of a team's run.
pub mod Dispatch
pub mod Lists
pub mod Assign
pub mod Wave
pub mod Progress
pub mod Barrier
pub mod Begin
pub mod Handover
pub mod Settled
pub mod Starting
pub mod Idle
pub mod Resolve
pub mod Ending
pub mod Delay
pub mod Sync
pub mod Stepping
pub mod Samples
