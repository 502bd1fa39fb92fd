-- ===== src/Inventory.antt =====
-- The accounting of the inventory: what the items of the reservations hold, and that the counters of
-- the ticket types say the same after every operation.
pub mod Held
pub mod Tables
pub mod Counters
pub mod Moves
pub mod Loops
pub mod Invariant
pub mod Release
pub mod Headers
pub mod Holds
pub mod Distinct
pub mod Transitions
pub mod Requests
pub mod Lifecycle
pub mod Batch
pub mod SessionLookup
pub mod Replies
pub mod Inserts
pub mod SeatRows
pub mod Seats
pub mod SeatsRequest
pub mod Reserving
pub mod Quantity
pub mod QuantityRequest
pub mod Reachable
pub mod Shortage
pub mod Refusals
pub mod Guarantees
pub mod Replay
pub mod Access
pub mod Listing
pub mod Reading
