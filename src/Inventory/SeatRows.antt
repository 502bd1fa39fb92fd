-- ===== src/Inventory/SeatRows.antt =====
-- The rows of reservation_seats that ReserveSeats inserts (internal/sqlc/reservations.sql.go).
use study_ticket_reservation.Base.{
  ◌≡◌, refl, ap, ◌∙◌, true, false, not, ◌&&◌, ◌∷◌, any, arith, inl, inr, Bool-cases,
}
use study_ticket_reservation.Db.Types.{Uuid, Timestamptz, same_uuid}
use study_ticket_reservation.Db.Triples.{BodyPost}
use study_ticket_reservation.Sqlc.Models.{ReservationSeat}
use study_ticket_reservation.Sqlc.Database.{Database, is_active, holds_seat, active_seats_unique}
use study_ticket_reservation.Sqlc.Reservations.Holds.{
  CreateReservationSeatParams, new_seat_row, seat_row_check, seat_row_taken, seat_row_refers,
  insert_seat_row,
}
use study_ticket_reservation.Inventory.Invariant.{ids-headers, Inv}

abbrev pub AddsSeatRow :
    Timestamptz → CreateReservationSeatParams → Database → ReservationSeat → Database → Type 0
AddsSeatRow now arg d row d' =
    (d' ≡ record d { reservation_seats = row ∷ d.reservation_seats })
    × (row ≡ new_seat_row now row.id arg)
    × ((is_active arg.status && any (holds_seat arg.seat_id) d.reservation_seats) ≡ false)
    × (any (λ r. same_uuid r.id arg.reservation_id) d.reservations ≡ true)

pub insert_seat_row-Post :
    (now : Timestamptz) (arg : CreateReservationSeatParams) (id : Uuid) (d : Database)
    → BodyPost (AddsSeatRow now arg d) (λ _. Unit {0}) (insert_seat_row now arg id d)
unfolding insert_seat_row seat_row_taken seat_row_refers
insert_seat_row-Post now arg id d = elim (Bool-cases (not (id.valid && seat_row_check arg))) [
  | inl bad ↦ rw bad tt
  | inr checked ↦ elim (Bool-cases (seat_row_taken id arg d)) [
    | inl taken ↦ rw (checked, taken) tt
    | inr free ↦ elim (Bool-cases (not (seat_row_refers arg d))) [
      | inl missing ↦ rw (checked, free, missing) tt
      | inr refers ↦ rw (checked, free, refers) (refl, refl, ground arith, ground arith)
    ]
  ]
]

-- A row for a seat that nothing holds keeps the index.
pub seat_row-Inv :
    (now : Timestamptz) (arg : CreateReservationSeatParams) (d d' : Database)
    (row : ReservationSeat)
    → AddsSeatRow now arg d row d'
    → Inv d
    → Inv d'
unfolding active_seats_unique
seat_row-Inv now arg d d' row (e, r, free, refers) inv =
    let status : row.status ≡ arg.status = ap (λ x. x.status) r in
    let parent : row.reservation_id ≡ arg.reservation_id = ap (λ x. x.reservation_id) r in
    let seat : row.seat_id ≡ arg.seat_id = ap (λ x. x.seat_id) r in
    rw e (record {
      counted = inv.counted;
      distinct_tickets = inv.distinct_tickets;
      positive = inv.positive;
      known = inv.known;
      owned = inv.owned;
      owned_seats =
          (rw parent (ids-headers arg.reservation_id d.reservations ∙ refers), inv.owned_seats);
      distinct_reservations = inv.distinct_reservations;
      typed = inv.typed;
      covered = inv.covered;
      exclusive = rw (status, seat, free, inv.exclusive) refl;
    })
