-- ===== src/Reservations.antt =====
-- internal/modules/reservations: the requests and responses (Dto), the checks of a request (Input),
-- the responses that rows become (Responses), the inventory movements of a lifecycle transition
-- (Transitions), and the operations of the service (Service, Quantity, Seats, Lifecycle) and its HTTP handlers (Handler).
pub mod Dto
pub mod Input
pub mod Responses
pub mod Transitions
pub mod Service
pub mod Quantity
pub mod Seats
pub mod Lifecycle
pub mod Handler
