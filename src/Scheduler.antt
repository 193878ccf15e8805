-- ===== src/Scheduler.antt =====
-- src/scheduler: where each tensor of a model is kept.
pub mod Samples
pub mod Types
pub mod Placement
pub mod Prefetch
pub mod Summary
pub mod Plan
pub mod Estimator
