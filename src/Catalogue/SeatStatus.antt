-- ===== src/Catalogue/SeatStatus.antt =====
-- The LEFT JOIN of the seat inventory (internal/sqlc/events.sql.go) gives each seat one row, since no
-- seat has two active rows.
use mathlib.Core.List.{flat_map}
use study_ticket_reservation.Base.{
  ◌≡◌, refl, ap, Bool, true, false, ◌&&◌, List, [], ◌∷◌, map, any, select, inl, inr, Bool-cases,
  arith, if◌then◌else◌,
}
use study_ticket_reservation.Base.Text.{Text, text}
use study_ticket_reservation.Db.Types.{Uuid, same_uuid}
use study_ticket_reservation.Db.Equality.{eq_of_same_uuid}
use study_ticket_reservation.Sqlc.Models.{
  Seat, ReservationSeat, Status, reserved, confirmed, status_eq,
}
use study_ticket_reservation.Sqlc.Database.{Database, is_active, holds_seat, active_seats_unique}
use study_ticket_reservation.Sqlc.Events.{
  seat_row, case_status, left_joined, seats_of_event, seat_inventory,
}

-- Some row holds the seat with this status.
abbrev pub held_as : Status → Uuid → List ReservationSeat → Bool
held_as s id rows = any (λ row. same_uuid row.seat_id id && status_eq row.status s) rows

-- What a seat shows.
abbrev pub seat_status : Uuid → List ReservationSeat → Text
seat_status id rows =
    if held_as confirmed id rows
    then text "confirmed"
    else if held_as reserved id rows
    then text "reserved"
    else text "available"

module _ (id : Uuid) where
  select_free :
      (rows : List ReservationSeat)
      → any (holds_seat id) rows ≡ false
      → select (holds_seat id) rows ≡ []
  select_free [] h = refl
  select_free (row ∷ rows) h = ground (arith, select_free rows)

  not_held :
      (s : Status) (rows : List ReservationSeat)
      → is_active s ≡ true
      → any (holds_seat id) rows ≡ false
      → held_as s id rows ≡ false
  unfolding status_eq
  not_held s [] a h = refl
  not_held reserved (row ∷ rows) a h = ground (arith, not_held reserved rows a)
  not_held confirmed (row ∷ rows) a h = ground (arith, not_held confirmed rows a)
  not_held _ rows a h = cc

  -- A row that does not hold the seat does not show.
  skipped :
      (s st : Status) (row : ReservationSeat) (rows : List ReservationSeat)
      → is_active s ≡ true
      → row.status ≡ st
      → holds_seat id row ≡ false
      → held_as s id (row ∷ rows) ≡ held_as s id rows
  unfolding status_eq
  skipped reserved st row rows a e h = ground arith
  skipped confirmed st row rows a e h = ground arith
  skipped _ st row rows a e h = cc

  -- The only active row shows its status.
  alone :
      (st : Status) (row : ReservationSeat) (rows : List ReservationSeat)
      → row.status ≡ st
      → is_active st ≡ true
      → same_uuid row.seat_id id ≡ true
      → any (holds_seat id) rows ≡ false
      → case_status st ≡ seat_status id (row ∷ rows)
  unfolding case_status status_eq
  alone reserved row rows e a same free = rw (same, e, not_held confirmed rows refl free) refl
  alone confirmed row rows e a same free = rw (same, e) refl
  alone _ row rows e a same free = cc

pub left_joined_lem :
    (s : Seat) (rows : List ReservationSeat)
    → active_seats_unique rows ≡ true
    → left_joined s (select (holds_seat s.id) rows) ≡ seat_row s (seat_status s.id rows) ∷ []
unfolding left_joined active_seats_unique
left_joined_lem s [] h = refl
left_joined_lem s (row ∷ rows) h = elim (Bool-cases (holds_seat s.id row)) [
  | inl hit ↦
      let same : same_uuid row.seat_id s.id ≡ true = ground arith in
      let free : any (holds_seat s.id) rows ≡ false =
        rw (← eq_of_same_uuid row.seat_id s.id same) (ground arith) in
      rw (hit, select_free s.id rows free)
        (ap (λ status. seat_row s status ∷ [])
          (alone s.id row.status row rows refl (ground arith) same free))
  | inr miss ↦
      rw
        (
          miss,
          skipped s.id confirmed row.status row rows refl refl miss,
          skipped s.id reserved row.status row rows refl refl miss,
        )
        (left_joined_lem s rows (ground arith))
]

flat_map-single :
    {A B : Type 0} (f : A → List B) (g : A → B) (xs : List A)
    → ((x : A) → f x ≡ g x ∷ [])
    → flat_map f xs ≡ map g xs
unfolding flat_map
flat_map-single f g [] h = refl
flat_map-single f g (x ∷ xs) h = rw (h x, flat_map-single f g xs h) refl

-- The seats of the event in their order, each with the status of its holds.
pub seat_inventory_lem :
    (collate : Text → Text → Bool) (event_id : Uuid) (d : Database)
    → active_seats_unique d.reservation_seats ≡ true
    → seat_inventory collate event_id d
      ≡ map
          (λ s. seat_row s (seat_status s.id d.reservation_seats))
          (seats_of_event collate event_id d)
unfolding seat_inventory
seat_inventory_lem collate event_id d h =
    flat_map-single _ _ (seats_of_event collate event_id d)
      (λ s. left_joined_lem s d.reservation_seats h)
