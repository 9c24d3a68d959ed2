-- ===== src/Mailbox.antt =====
-- app/multiagent/mailbox.py: the agents' inboxes and the governance of what enters them.
pub mod Message
pub mod Box
pub mod Deliver
pub mod Snapshot
pub mod Restore
pub mod Rate
pub mod History
pub mod Queue
pub mod Fifo
pub mod Capacity
pub mod Samples
