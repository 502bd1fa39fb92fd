-- ===== src/Sqlc.antt =====
-- internal/sqlc: the rows, the tables with their constraints, and the queries, read from their SQL.
pub mod Models
pub mod Database
pub mod Reservations
pub mod Sessions
pub mod Events
pub mod StressAdmin
pub mod Consistency
pub mod Users
