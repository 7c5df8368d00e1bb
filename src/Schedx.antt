-- ===== src/Schedx.antt =====
-- pkg/schedx: job schedulers with bounded queues.
pub mod Tasks
pub mod Sample
pub mod Options
pub mod Canceled
pub mod Pool
pub mod Scheduler
pub mod Retrievable
