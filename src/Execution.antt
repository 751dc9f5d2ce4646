-- ===== src/Execution.antt =====
-- drigs/execution: what the backends that run workloads decide and record. Processes, files and
-- sockets of the operating system are arguments.
pub mod Text
pub mod Isolation
pub mod Process
pub mod Native
pub mod Distributed
pub mod Docker
pub mod Logs
