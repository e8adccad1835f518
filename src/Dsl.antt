-- ===== src/Dsl.antt =====
-- The workflow language: the graph of a workflow and its validation (backend/src/dsl).
pub mod Graph
pub mod Workflow
pub mod Parser
