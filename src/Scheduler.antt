-- ===== src/Scheduler.antt =====
-- drigs/scheduler
pub mod Placement
pub mod Sound
pub mod Choice
pub mod Capacity
pub mod Grants
pub mod Maximal
pub mod Complete
pub mod Safety
pub mod Policies
pub mod Best
pub mod Gang
