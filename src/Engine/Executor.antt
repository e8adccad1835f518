-- ===== src/Engine/Executor.antt =====
-- `executeDag` of backend/src/engine/executor.js: the run of a workflow, layer by layer.
pub mod State
pub mod Nodes
pub mod Schedule
pub mod Effects
pub mod Finishes
pub mod Shuffling
pub mod Layer
pub mod Rounds
mod Ending
pub mod Order
pub mod Unrun
pub mod Completion
pub mod Parsed
pub mod Attempts
mod Tests
