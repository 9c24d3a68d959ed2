-- ===== src/RetryPolicy.antt =====
-- app/runtime/reliability.py: the retry policy of failed assignments.
pub mod Policy
pub mod Backoff
pub mod Samples
