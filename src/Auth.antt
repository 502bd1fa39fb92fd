-- ===== src/Auth.antt =====
-- internal/modules/auth: the requests and responses (Dto), the operations of the service (Service) and
-- its HTTP handlers (Handler).
pub mod Dto
pub mod Service
pub mod Handler
