-- ===== src/Examples.antt =====
-- Concrete inputs: tests of the definitions, and the theorems applied to them.
mod Data
mod Placing
mod Queueing
mod Managing
mod Watching
mod Recovering
mod Fresh
mod Controlling
mod Isolating
mod Detecting
mod Executing
mod Docking
mod Streaming
mod Dispatching
mod Simulating
mod Checkpointing
mod Diagnosing
