-- ===== src/Orch.antt =====
-- pkg/orch: the recipes on top of the schedulers.
pub mod Piper
pub mod Pipe
pub mod Cron
