-- ===== src/Inventory/Holds.antt =====
-- uq_active_reservation_seat under the status changes of held seats: only rows that are reserved
-- change, and no row starts to hold its seat.
use study_ticket_reservation.Base.{◌≡◌, refl, Bool, true, false, List, [], ◌∷◌, any, arith}
use study_ticket_reservation.Db.Types.{Uuid, Timestamptz}
use study_ticket_reservation.Db.Tx.{failure}
use study_ticket_reservation.Db.Triples.{BodyPost}
use study_ticket_reservation.Sqlc.Models.{
  ReservationSeat, Status, reserved, confirmed, cancelled, expired, other_status, status_eq,
}
use study_ticket_reservation.Sqlc.Database.{
  Database, update_where, known_status, is_active, holds_seat, active_seats_unique,
}
use study_ticket_reservation.Sqlc.Reservations.Holds.{set_seat_status, change_seats}

reserved-is_active : (s : Status) → status_eq s reserved ≡ true → is_active s ≡ true
unfolding status_eq
reserved-is_active reserved e = refl
reserved-is_active confirmed e = cc
reserved-is_active cancelled e = cc
reserved-is_active expired e = cc
reserved-is_active (other_status _) e = cc

module _ (now : Timestamptz) (status : Status) (test : ReservationSeat → Bool)
    (only_reserved : (row : ReservationSeat)
      → test row ≡ true
      → status_eq row.status reserved ≡ true) where
  abbrev pub reseated : List ReservationSeat → List ReservationSeat
  reseated = update_where test (set_seat_status now status)

  still_free :
      (seat : Uuid) (rows : List ReservationSeat)
      → any (holds_seat seat) rows ≡ false
      → any (holds_seat seat) (reseated rows) ≡ false
  still_free seat [] h = refl
  still_free seat (row ∷ rows) h =
      ground (arith, still_free seat rows, only_reserved row, reserved-is_active row.status)

  -- No seat gets a second holder.
  pub reseated-active_seats_unique :
      (rows : List ReservationSeat)
      → active_seats_unique rows ≡ true
      → active_seats_unique (reseated rows) ≡ true
  unfolding active_seats_unique
  reseated-active_seats_unique [] h = refl
  reseated-active_seats_unique (row ∷ rows) h = ground (
    arith,
    reseated-active_seats_unique rows,
    still_free row.seat_id rows,
    only_reserved row,
    reserved-is_active row.status,
  )

  pub change_seats-Post :
      (d : Database)
      → known_status status ≡ true
      → active_seats_unique d.reservation_seats ≡ true
      → BodyPost
          (λ _ d'. d' ≡ record d { reservation_seats = reseated d.reservation_seats })
          (λ e. e ≡ failure)
          (change_seats now status test d)
  unfolding change_seats
  change_seats-Post d k h = rw (k, reseated-active_seats_unique d.reservation_seats h) refl
