-- ===== src/Inventory/Reachable.antt =====
-- The service as a sequence of requests: each one runs an operation of
-- internal/modules/reservations/service.go, or one of internal/modules/events/service.go that writes,
-- from the start to its end.
use study_ticket_reservation.Base.{ℕ, ◌≡◌, refl, true, [], All, arith, inl, inr, Bool-cases}
use study_ticket_reservation.Base.Int.{ℤ, pos, negsuc, ◌+ℤ◌, ◌≤ℤ◌, leb_ℤ}
use study_ticket_reservation.Db.Types.{Uuid}
use study_ticket_reservation.Db.Tx.{Error, ok, err, Result, Env, Tx, Action, raise}
use study_ticket_reservation.Db.Transactions.{Settled, Transacts}
use study_ticket_reservation.Sqlc.Models.{reserved, confirmed, VisitorSession}
use study_ticket_reservation.Sqlc.Database.{Database, active_seats_unique}
use study_ticket_reservation.Reservations.Dto.{QuantityReservationRequest, SeatReservationRequest}
use study_ticket_reservation.Reservations.Service.{Service}
use study_ticket_reservation.Reservations.Quantity.{reserve_quantity}
use study_ticket_reservation.Reservations.Seats.{reserve_seats}
use study_ticket_reservation.Reservations.Lifecycle.{
  cancel_reservation, confirm_reservation, expire_expired_reservations,
}
use study_ticket_reservation.Events.Dto.{
  CreateEventRequest, CreateTicketTypeRequest, CreateSeatsRequest,
}
use study_ticket_reservation.Events.Service.{create_event, create_ticket_type, create_seats}
use study_ticket_reservation.Inventory.Tables.{All-mono}
use study_ticket_reservation.Inventory.Held.{held}
use study_ticket_reservation.Inventory.Counters.{Counts, Distinct, ticket_ids}
use study_ticket_reservation.Inventory.Invariant.{Inv}
use study_ticket_reservation.Inventory.Lifecycle.{
  cancel_reservation-Transacts, confirm_reservation-Transacts,
}
use study_ticket_reservation.Inventory.Batch.{expire_expired_reservations-Transacts}
use study_ticket_reservation.Inventory.QuantityRequest.{reserve_quantity-Transacts}
use study_ticket_reservation.Catalogue.Creation.{
  create_event-Transacts, create_ticket_type-Transacts,
}
use study_ticket_reservation.Catalogue.Keeps.{catalogue-Inv, adds_ticket_type-Inv, create_seats-Inv}
use study_ticket_reservation.Inventory.SeatsRequest.{reserve_seats-Transacts}

-- The database after an action that starts with the call `n`.
abbrev pub after : {A : Type 0} → Action Database A → ℕ → Database → Database
after m n d = (m (record { db = d; calls = n })).1.db

-- One request, with the clock, the ids and the faults that it meets.
pub data Step : Database → Database → Type 0 where
  reserves_quantity :
      (env : Env) (session : VisitorSession) (s : Service) (now n : ℕ)
      (input : QuantityReservationRequest) (d : Database)
      → Step d (after (reserve_quantity env session s now input) n d)
  reserves_seats :
      (env : Env) (session : VisitorSession) (s : Service) (now later n : ℕ)
      (input : SeatReservationRequest) (d : Database)
      → Step d (after (reserve_seats env session s now later input) n d)
  cancels :
      (env : Env) (session : VisitorSession) (now n : ℕ) (id : Uuid) (d : Database)
      → Step d (after (cancel_reservation env session now id) n d)
  confirms :
      (env : Env) (session : VisitorSession) (now n : ℕ) (id : Uuid) (d : Database)
      → Step d (after (confirm_reservation env session now id) n d)
  expires :
      (env : Env) (now n : ℕ) (batch_size : ℤ) (d : Database)
      → Step d (after (expire_expired_reservations env now batch_size) n d)
  creates_event :
      (env : Env) (n : ℕ) (input : CreateEventRequest) (d : Database)
      → Step d (after (create_event env input) n d)
  creates_ticket_type :
      (env : Env) (n : ℕ) (event_id : Uuid) (input : CreateTicketTypeRequest) (d : Database)
      → Step d (after (create_ticket_type env event_id input) n d)
  creates_seats :
      (env : Env) (n : ℕ) (event_id : Uuid) (input : CreateSeatsRequest) (d : Database)
      → Step d (after (create_seats env event_id input) n d)

-- Requests one after the other.
pub data Steps (d : Database) : Database → Type 0 where
  start : Steps d d
  followed_by : (d1 d2 : Database) → Steps d d1 → Step d1 d2 → Steps d d2

module _ {A : Type 0} (m : Action Database A) (Q : A → Database → Type 0) (E : Error → Type 0)
    (d0 : Database) (n : ℕ) where
  after-Inv :
      Inv d0
      → Transacts (λ d. d ≡ d0) m Q E
      → ((a : A) (d : Database) → Q a d → Inv d)
      → Inv (after m n d0)
  after-Inv inv h keeps =
      settled (m (record { db = d0; calls = n })) (h.at (record { db = d0; calls = n }) refl)
    where
      settled : (r : Result A × Tx Database) → Settled Q E d0 r → Inv r.1.db
      settled (ok a, w) s = keeps a w.db s
      settled (err e, w) s = rw s.1 inv

expires-Inv :
    (env : Env) (now n : ℕ) (batch_size : ℤ) (d : Database)
    → Inv d
    → Inv (after (expire_expired_reservations env now batch_size) n d)
unfolding expire_expired_reservations raise
expires-Inv env now n (negsuc k) d inv =
    let small : leb_ℤ (negsuc k) (pos 0) ≡ true = ground arith in rw small inv
expires-Inv env now n (pos limit) d inv = elim (Bool-cases (leb_ℤ (pos limit) (pos 0))) [
  | inl small ↦ rw small inv
  | inr large ↦
      after-Inv (expire_expired_reservations env now (pos limit)) _ _ d n inv
        (expire_expired_reservations-Transacts env now limit d (ground arith) inv) (λ _ d h. h.1)
]

-- Every request takes a database that keeps the invariant to one that keeps it, whatever fails in it.
pub Step-Inv : (d d' : Database) → Step d d' → Inv d → Inv d'
Step-Inv _ _ (reserves_quantity env session s now n input d) inv =
    after-Inv (reserve_quantity env session s now input) _ _ d n inv
      (reserve_quantity-Transacts env session s now input d inv) (λ _ d h. h.2.0)
Step-Inv _ _ (reserves_seats env session s now later n input d) inv =
    after-Inv (reserve_seats env session s now later input) _ _ d n inv
      (reserve_seats-Transacts env session s now later input d inv) (λ _ d h. h.2.0)
Step-Inv _ _ (cancels env session now n id d) inv =
    after-Inv (cancel_reservation env session now id) _ _ d n inv
      (cancel_reservation-Transacts env session d inv now id) (λ _ d h. h.2.keeps)
Step-Inv _ _ (confirms env session now n id d) inv =
    after-Inv (confirm_reservation env session now id) _ _ d n inv
      (confirm_reservation-Transacts env session d inv now id) (λ _ d h. h.2.keeps)
Step-Inv _ _ (expires env now n batch_size d) inv = expires-Inv env now n batch_size d inv
Step-Inv _ _ (creates_event env n input d) inv =
    after-Inv (create_event env input) _ _ d n inv (create_event-Transacts env d input)
      (λ r d' h. rw h.adds.added (catalogue-Inv d _ inv refl))
Step-Inv _ _ (creates_ticket_type env n event_id input d) inv =
    after-Inv (create_ticket_type env event_id input) _ _ d n inv
      (create_ticket_type-Transacts env d event_id input)
      (λ r d' h. adds_ticket_type-Inv env.now d _ h.ticket_type d' h.adds inv)
Step-Inv _ _ (creates_seats env n event_id input d) inv =
    create_seats-Inv env event_id input (record { db = d; calls = n }) inv

-- So does every sequence of requests.
pub Steps-Inv : (d d' : Database) → Inv d → Steps d d' → Inv d'
Steps-Inv d _ inv start = inv
Steps-Inv d d' inv (followed_by d1 d2 before last) = Step-Inv d1 d2 last (Steps-Inv d d1 inv before)

-- A catalogue before the first reservation.
pub record IsFresh (d : Database) : Type 0 where
  pub unsold :
      All
        (λ t.
          (t.reserved_quantity ≡ pos 0)
          × (t.sold_quantity ≡ pos 0)
          × (pos 0 ≤ℤ t.total_quantity)
          × (t.total_quantity ≤ℤ pos 2147483647))
        d.ticket_types
  pub distinct_types : Distinct (ticket_ids d)
  pub no_reservations : d.reservations ≡ []
  pub no_items : d.reservation_items ≡ []
  pub no_holds : d.reservation_seats ≡ []

pub fresh-Inv : (d : Database) → IsFresh d → Inv d
unfolding held active_seats_unique ◌+ℤ◌
fresh-Inv d f = record {
  counted = rw f.no_items (
      All-mono _ (Counts (λ x. pos 0) (λ x. pos 0)) d.ticket_types
        (λ t u. (u.0, u.1, rw (u.0, u.1) (ground arith))) f.unsold);
  distinct_tickets = f.distinct_types;
  positive = rw f.no_items tt;
  known = rw f.no_items tt;
  owned = rw f.no_items tt;
  owned_seats = rw f.no_holds tt;
  distinct_reservations = rw f.no_reservations tt;
  typed = rw f.no_reservations tt;
  covered = rw f.no_reservations tt;
  exclusive = rw f.no_holds refl;
}

-- Whatever the requests after a fresh catalogue: the counters are what the items of the reservations
-- hold and sold, they stay within the total, and no seat is held twice.
pub Steps-stocked :
    (d d' : Database)
    → IsFresh d
    → Steps d d'
    → All
        (λ t.
          (t.reserved_quantity ≡ held reserved t.id d'.reservation_items)
          × (t.sold_quantity ≡ held confirmed t.id d'.reservation_items)
          × (t.sold_quantity +ℤ t.reserved_quantity ≤ℤ t.total_quantity))
        d'.ticket_types
      × (active_seats_unique d'.reservation_seats ≡ true)
Steps-stocked d d' f steps =
    let inv = Steps-Inv d d' (fresh-Inv d f) steps in
    (All-mono _ _ d'.ticket_types (λ t c. (c.0, c.1, c.2.2)) inv.counted, inv.exclusive)
