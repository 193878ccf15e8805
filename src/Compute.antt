-- ===== src/Compute.antt =====
-- src/compute: the pool for streamed tensors, and the budget of a session.
pub mod Pool
pub mod Prefetch
pub mod Callback
pub mod Controller
pub mod Session
mod Samples
pub mod Budget
mod Stale
mod Tests
