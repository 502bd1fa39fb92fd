-- ===== src/Expiry.antt =====
-- The expiration worker (internal/worker/expiration.go) works off the reservations that have run out.
pub mod Counting
pub mod Oldest
pub mod Progress
pub mod Draining
pub mod Stopping
