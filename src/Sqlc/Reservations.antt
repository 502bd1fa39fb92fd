-- ===== src/Sqlc/Reservations.antt =====
-- internal/sqlc/reservations.sql.go, by the table that a query writes or reads first.
pub mod Stock
pub mod Headers
pub mod Items
pub mod Holds
