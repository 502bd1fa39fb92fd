-- ===== src/StressAdmin.antt =====
-- internal/modules/stressadmin: the responses (Dto), the repository's transactions (Repository), the
-- operations of the service (Service) and its HTTP handlers (Handler).
pub mod Dto
pub mod Repository
pub mod Service
pub mod Handler
