-- ===== src/TaskBoard.antt =====
-- app/multiagent/task_board.py, the shared board of atomically claimed tasks.
pub mod Task
pub mod Store
pub mod Worker
pub mod Failure
pub mod Control
pub mod Runs
pub mod Query
pub mod WellFormed
pub mod Calls
pub mod Validity
pub mod Invariant
pub mod RunInvariant
pub mod History
pub mod Claiming
pub mod Retries
pub mod Frame
pub mod Recovery
pub mod Verdicts
pub mod Listing
pub mod Samples
