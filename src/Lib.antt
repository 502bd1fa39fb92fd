-- ===== src/Lib.antt =====
-- The ticket reservation service of the repository: the modules reservations, events, sessions, auth and
-- stressadmin of internal/modules and the worker of internal/worker on the queries of internal/sqlc, in the
-- transactions of internal/db, on the schema of db/migrations/000001_init.up.sql.
--
-- The parts, and where they stand:
--   Base         numbers, lists, integers and texts that the parts share.
--   Db           internal/db/types.go (Types, Parse: the columns and ParseUUID) and internal/db/tx.go
--                (Tx: WithTx, as `with_tx`); the rules for reasoning about actions (Triples,
--                Transactions, Attempts).
--   Http         the replies of internal/httpserver/response.go, and the reply to a body that is not read.
--   Sqlc         internal/sqlc: the rows (Models, from models.go), the tables and their constraints
--                (Database, from the migration), the queries of reservations.sql.go (Reservations: Stock
--                on ticket_types, Headers on reservations, Items on reservation_items, Holds on seats and
--                reservation_seats), events.sql.go (Events), sessions.sql.go (Sessions), users.sql.go
--                (Users) and stress_admin.sql.go (StressAdmin: the deletions; Consistency: the violations).
--   Sessions     internal/modules/sessions: GetCurrentSession (Sessions itself), the tokens (Tokens),
--                CreateAnonymousSession, AttachUser and the cookies (Creation), the handlers (Handler).
--   Events       internal/modules/events: dto.go (Dto), service.go (Service), handler.go (Handler).
--   Auth         internal/modules/auth: dto.go (Dto), service.go (Service), handler.go (Handler).
--   StressAdmin  internal/modules/stressadmin: dto.go (Dto), repository.go (Repository), service.go
--                (Service), handler.go (Handler).
--   Worker       internal/worker/expiration.go: ProcessOnce and the loop of Run.
--   Reservations internal/modules/reservations: dto.go (Dto) and service.go (Input: parseQuantityInput,
--                parseSeatInput, sameUUIDSet; Responses: the conversions, buildReservationResponse,
--                canAccessReservation; Transitions: the three ...LockedReservation methods and the item
--                loops; Quantity: ReserveQuantity; Seats: ReserveSeats; Lifecycle: GetReservation,
--                CancelReservation, ConfirmReservation, ExpireExpiredReservations), and handler.go
--                (Handler).
--   Inventory    the invariant of the inventory and what each operation does to it: Invariant (`Inv`),
--                Held (what the items hold), Counters, Moves and Loops (the counters under the UPDATEs),
--                Release, Headers, Holds and Transitions (the lifecycle), Requests and Lifecycle (the
--                requests against the state machine), Batch (the worker's transaction), Inserts, Reserving,
--                Quantity, QuantityRequest, Seats and SeatsRequest (the two kinds of reservation),
--                SessionLookup and Replies (the handlers), Shortage and Refusals (insufficient stock),
--                Access, Listing and Reading (GetReservation), Replay (the idempotency key), Reachable
--                (sequences of requests) and Guarantees (the operations one by one).
--   Config       internal/config/config.go: the readers of a setting (Parse), Load and the level of
--                ConfigureLogger (Load), and what Load accepts (Checks, Accepted).
--   Catalogue    what the operations of Events do: Inserts, Creation and Guarantees (events and ticket
--                types), Seats and SeatRequests (seats), Keeps (the invariant), SeatStatus and Shown (the
--                inventory against the items and the seat rows).
--   Consistency  the report of AssertConsistency against the rows (Rows, Duplicates, Report), and after
--                any requests (Reached).
--   Fixtures     Seed (Seeding, SeedRequests) and Reset (Patterns, Resetting, ResetRequests).
--   Accounts     Register (Registration), what logging in does to sessions (Holders, SessionCalls) and
--                Login.
--   Expiry       the loop of the worker: how many have run out (Counting), which a batch takes first
--                (Oldest), what a batch (Progress) and rounds leave (Draining), and when it returns
--                (Stopping).
--   Parsing      the order and uniqueness of the parsed seats.
--   Tests        runs on a small database, and the theorems at concrete inputs.
--
-- How the code is rendered. An action takes the database and the number of driver calls made so far, and
-- returns a result or an error with the database that it leaves. A statement is one call: it may fail, and
-- then changes nothing. `with_tx` is BEGIN, the body, and COMMIT or the deferred ROLLBACK; a COMMIT that
-- fails counts as rolled back. `Env` gives what the server and the network decide, by the number of the
-- call: the value of gen_random_uuid(), whether the call fails; and now() of the server and the rows that
-- FOR UPDATE SKIP LOCKED skips. The clock of the service is read once for each time.Now() and passed as an
-- argument: a time is the number of microseconds since the zero time of Go, and the TTL is not negative. A
-- wrapped error is the error that errors.Is finds in it. A text is the list of its code points; the columns
-- status and type are the known values or any other text. The integers of a row are ℤ: int32 is the range of
-- the columns, whose CHECKs bound the counters, and total_quantity is bounded by 2147483647. The request's
-- quantity comes from a decoded int32.
--
-- Loops are structural recursion on the rows that a query returned or on the ids of the request, so they
-- end; no fuel is used. The loop of the worker runs over given rounds: each is the server, the clock, and
-- whether the context is cancelled at the two places that look, and the run says whether it has returned.
--
-- Not modelled. Each transaction runs alone: the waits of FOR UPDATE, deadlocks (other than as a failure of
-- a call) and interleavings are left out. Code outside the repository is a parameter: pgtype.UUID.Scan is
-- `scan`, the hash of a token is `hash` where a session is looked up or made, bcrypt and unicode.ToLower are
-- fields of `Auth`, rand.Read is the bytes that it draws or none, and the order of texts in the database is
-- `collate`. A duration is a number of microseconds, in Config of nanoseconds, and a time in a request is a
-- whole one. The repositories' one-line methods are the queries themselves. In the configuration,
-- os.Getenv is `environ`, time.ParseDuration `parse_duration`, and unicode.ToUpper `upper`; an int has 64
-- bits. Routes, JSON, request ids, the health module, the construction of the logger, the HTTP server, the
-- ticker and the main programs are left out.
pub mod Base
pub mod Db
pub mod Sqlc
pub mod Http
pub mod Reservations
pub mod Inventory
pub mod Parsing
pub mod Sessions
pub mod Auth
pub mod Events
pub mod Worker
pub mod Expiry
pub mod Accounts
pub mod Catalogue
pub mod StressAdmin
pub mod Consistency
pub mod Fixtures
pub mod Config
mod Tests
