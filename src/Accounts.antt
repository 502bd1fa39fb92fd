-- ===== src/Accounts.antt =====
-- What internal/modules/auth and internal/modules/sessions make of users and visitor sessions.
pub mod Registration
pub mod Holders
pub mod SessionCalls
pub mod Login
