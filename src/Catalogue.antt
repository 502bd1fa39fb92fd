-- ===== src/Catalogue.antt =====
-- What the operations on events (internal/modules/events) make of the catalogue and show of it: the
-- rows that they insert, the catalogue's part in the invariant, and the inventory that they list.
pub mod Inserts
pub mod Creation
pub mod Seats
pub mod SeatRequests
pub mod Keeps
pub mod SeatStatus
pub mod Shown
pub mod Guarantees
