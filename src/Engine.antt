-- ===== src/Engine.antt =====
-- The execution engine (backend/src/engine).
pub mod Limits
pub mod Executor
pub mod NodeStates
pub mod Batch
