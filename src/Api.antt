-- ===== src/Api.antt =====
-- The HTTP API.
pub mod Executions
