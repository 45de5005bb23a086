-- ===== src/Auth.antt =====
-- glados/auth: rate limits, sessions and per-user counters, and glados/webui/permissions.py.
pub mod RateLimit
pub mod Sessions
pub mod UserState
pub mod Permissions
mod Tests
