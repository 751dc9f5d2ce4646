-- ===== src/Recovery.antt =====
-- drigs/recovery: how failures are noticed, and what happens to a job whose worker or process
-- failed.
pub mod Rescheduler
pub mod Detector
pub mod Checkpoint
