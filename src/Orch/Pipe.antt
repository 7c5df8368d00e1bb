-- ===== src/Orch/Pipe.antt =====
-- pkg/orch/pipe: pipelines of stages.
pub mod Errors
pub mod Ticket
pub mod Stages
pub mod Parallel
pub mod Lifetime
pub mod Run
mod Tests
