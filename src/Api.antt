-- ===== src/Api.antt =====
-- internal/api: what the HTTP controllers ask before they act.
pub mod Auth
pub mod Tokens
mod Tests
