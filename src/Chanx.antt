-- ===== src/Chanx.antt =====
-- pkg/chanx: observable values, and subjects that pass them on to their subscribers.
pub mod Lifetime
pub mod Observer
pub mod Subject
mod Tests
