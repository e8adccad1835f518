-- ===== src/Auth.antt =====
-- Who may do what.
pub mod Permissions
pub mod Tokens
pub mod Quotas
