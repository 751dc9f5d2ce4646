-- ===== src/Workers.antt =====
-- drigs/workers: the workers that report to the control plane.
pub mod Registry
pub mod Agent
pub mod Dispatcher
