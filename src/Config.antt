-- ===== src/Config.antt =====
-- The configuration (internal/config/config.go).
pub mod Parse
pub mod Load
pub mod Checks
pub mod Accepted
