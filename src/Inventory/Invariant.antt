-- ===== src/Inventory/Invariant.antt =====
-- What holds of the database between two operations.
use study_ticket_reservation.Base.{
  ◌≡◌, refl, [], ◌∷◌, Bool, true, false, not, ◌&&◌, List, map, any, All,
}
use study_ticket_reservation.Db.Types.{Uuid, same_uuid}
use study_ticket_reservation.Sqlc.Models.{
  Reservation, ReservationItem, ReservationSeat, reserved, confirmed, status_eq, is_quantity,
}
use study_ticket_reservation.Sqlc.Database.{Database, known_status, known_type, active_seats_unique}
use study_ticket_reservation.Inventory.Held.{held, IsPositive}
use study_ticket_reservation.Inventory.Counters.{Counts, Distinct, ticket_ids}
use study_ticket_reservation.Inventory.Loops.{IsKnown}

-- The CHECKs of a header, and NOT NULL of its key.
abbrev pub IsTyped : Reservation → Type 0
IsTyped r =
    (known_status r.status ≡ true) × (known_type r.reservation_type ≡ true) × (r.id.valid ≡ true)

-- An item of a reservation that is still reserved.
abbrev pub has_item : Uuid → List ReservationItem → Bool
has_item id = any (λ i. same_uuid i.reservation_id id && status_eq i.status reserved)

-- A reserved reservation of tickets has an item that is reserved.
abbrev pub IsCovered : List ReservationItem → Reservation → Type 0
IsCovered items r =
    (is_quantity r.reservation_type && status_eq r.status reserved && not (has_item r.id items))
    ≡ false

-- The reservation of an item exists.
abbrev pub IsOwned : List Uuid → ReservationItem → Type 0
IsOwned ids i = any (λ id. same_uuid id i.reservation_id) ids ≡ true

-- The reservation of a row of reservation_seats exists.
abbrev pub IsHeld : List Uuid → ReservationSeat → Type 0
IsHeld ids row = any (λ id. same_uuid id row.reservation_id) ids ≡ true

abbrev pub reservation_ids : Database → List Uuid
reservation_ids d = map (λ r. r.id) d.reservations

-- An id among those of the headers.
pub ids-headers :
    (id : Uuid) (rs : List Reservation)
    → any (λ x. same_uuid x id) (map (λ r. r.id) rs) ≡ any (λ s. same_uuid s.id id) rs
ids-headers id [] = refl
ids-headers id (r ∷ rs) = rw (ids-headers id rs) refl

-- The counters of each ticket type are the sums over the items, reserved and confirmed, and fit its
-- total; ids are unique; the items are positive, and of a known ticket type and reservation; the headers are
-- well-typed and covered by items; the rows that hold seats are of a known reservation, and no seat is held twice.
pub record Inv (d : Database) : Type 0 where
  pub counted :
      All
        (Counts
          (λ x. held reserved x d.reservation_items)
          (λ x. held confirmed x d.reservation_items))
        d.ticket_types
  pub distinct_tickets : Distinct (ticket_ids d)
  pub positive : All IsPositive d.reservation_items
  pub known : All (IsKnown (ticket_ids d)) d.reservation_items
  pub owned : All (IsOwned (reservation_ids d)) d.reservation_items
  pub owned_seats : All (IsHeld (reservation_ids d)) d.reservation_seats
  pub distinct_reservations : Distinct (reservation_ids d)
  pub typed : All IsTyped d.reservations
  pub covered : All (IsCovered d.reservation_items) d.reservations
  pub exclusive : active_seats_unique d.reservation_seats ≡ true
