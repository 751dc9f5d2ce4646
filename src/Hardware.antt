-- ===== src/Hardware.antt =====
-- drigs/hardware
pub mod Topology
pub mod Simulated
