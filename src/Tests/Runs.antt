-- ===== src/Tests/Runs.antt =====
-- Runs of the service: reserve, replay, confirm, cancel, and holds that expire.
use mathlib.Core.List.{flat_map}
use study_ticket_reservation.Base.{◌≡◌, refl, List, [], ◌∷◌, map}
use study_ticket_reservation.Base.Int.{ℤ, pos, ◌+ℤ◌, ◌-ℤ◌}
use study_ticket_reservation.Base.Text.{text_eq, text_lt, trim_space}
use study_ticket_reservation.Db.Types.{same_uuid, uuid_le, time_le, time_lt, uuid_to_string}
use study_ticket_reservation.Db.Tx.{
  err, Tx, with_tx, ◌>>=◌, insufficient_stock, idempotency_key_conflict, seat_unavailable,
}
use study_ticket_reservation.Sqlc.Models.{
  Status, reserved, confirmed, expired, status_eq, is_quantity, is_seats,
}
use study_ticket_reservation.Sqlc.Database.{Database, ticket_check, active_seats_unique}
use study_ticket_reservation.Sqlc.Reservations.Stock
use study_ticket_reservation.Sqlc.Reservations.Headers
use study_ticket_reservation.Sqlc.Reservations.Items
use study_ticket_reservation.Sqlc.Reservations.Holds
use study_ticket_reservation.Reservations.Input.{
  parse_quantity_input, parse_seat_input, same_uuid_set,
}
use study_ticket_reservation.Reservations.Responses
use study_ticket_reservation.Reservations.Transitions
use study_ticket_reservation.Reservations.Quantity.{replay_quantity, reserve_quantity}
use study_ticket_reservation.Reservations.Seats.{replay_seats, reserve_seats}
use study_ticket_reservation.Reservations.Lifecycle.{
  cancel_reservation, confirm_reservation, expire_expired_reservations,
}
use study_ticket_reservation.Tests.Samples.{
  uuid, service, calm, session, start, ask_quantity, ask_seats,
}

-- The counters of each ticket type, sold and reserved, and the statuses of the seat rows. A test
-- names this definition, and with it all that a run computes.
unfoldable pub inventory : Tx Database → List (ℤ × ℤ) × List Status
unfolding ◌+ℤ◌ ◌-ℤ◌ text_eq text_lt trim_space same_uuid uuid_le time_le time_lt uuid_to_string
    with_tx ◌>>=◌ status_eq is_quantity is_seats ticket_check active_seats_unique flat_map
    Stock.reserve_ticket_quantity Stock.release_ticket_quantity Stock.confirm_ticket_quantity
    Headers.create_reservation Headers.lock_reservation_for_update Headers.lock_reservations_by_id
    Headers.list_expired_reservations_for_update Headers.update_reservation_status
    Headers.expire_reservations_by_ids Items.create_reservation_item
    Items.get_quantity_reservation_by_idempotency_key Items.list_reservation_items
    Items.update_reservation_items_status Holds.lock_event_seats Holds.create_reservation_seat
    Holds.get_seat_reservation_by_idempotency_key
    Holds.list_expired_active_reservation_ids_for_seats Holds.list_reservation_seats
    Holds.update_reservation_seats_status Holds.expire_reservation_seats_by_reservation_ids
    parse_quantity_input parse_seat_input same_uuid_set Responses.build_reservation_response
    Responses.can_access_reservation Responses.reservation_expired
    Responses.quantity_reservation_to_response Responses.quantity_row_to_response
    Responses.seat_reservation_to_response Responses.seat_rows_to_response
    Transitions.cancel_locked_reservation Transitions.confirm_locked_reservation
    Transitions.expire_locked_reservation replay_quantity reserve_quantity replay_seats
    reserve_seats cancel_reservation confirm_reservation expire_expired_reservations
inventory w = (
  map (λ t. (t.sold_quantity, t.reserved_quantity)) w.db.ticket_types,
  map (λ row. row.status) w.db.reservation_seats,
)

abbrev reserved_three : Tx Database
reserved_three = (reserve_quantity (calm 100) session service 10 (ask_quantity 3) start).1

abbrev held_seats : Tx Database
held_seats = (reserve_seats (calm 100) session service 10 10 ask_seats start).1

reserve_three : inventory reserved_three ≡ ((pos 0, pos 3) ∷ [], [])
unfolding inventory
reserve_three = refl

-- The same key again: the inventory stay.
reserve_again :
    inventory (reserve_quantity (calm 200) session service 11 (ask_quantity 3) reserved_three).1
    ≡ ((pos 0, pos 3) ∷ [], [])
unfolding inventory
reserve_again = refl

reserve_too_many :
    (reserve_quantity (calm 100) session service 10 (ask_quantity 11) start).0
    ≡ err insufficient_stock
unfolding inventory
reserve_too_many = refl

confirm_three :
    inventory (confirm_reservation (calm 200) session 20 (uuid 103) reserved_three).1
    ≡ ((pos 3, pos 0) ∷ [], [])
unfolding inventory
confirm_three = refl

expire_three :
    inventory (expire_expired_reservations (calm 200) 61 (pos 5) reserved_three).1
    ≡ ((pos 0, pos 0) ∷ [], [])
unfolding inventory
expire_three = refl

reserve_two_seats : inventory held_seats ≡ ((pos 0, pos 0) ∷ [], reserved ∷ reserved ∷ [])
unfolding inventory
reserve_two_seats = refl

cancel_three :
    inventory (cancel_reservation (calm 200) session 20 (uuid 103) reserved_three).1
    ≡ ((pos 0, pos 0) ∷ [], [])
unfolding inventory
cancel_three = refl

confirm_seats :
    inventory (confirm_reservation (calm 200) session 20 (uuid 104) held_seats).1
    ≡ ((pos 0, pos 0) ∷ [], confirmed ∷ confirmed ∷ [])
unfolding inventory
confirm_seats = refl

-- The seats are free again once the hold has passed its deadline.
reserve_stale_seats :
    inventory
      (reserve_seats
        (calm 200)
        session
        service
        70
        70
        (record ask_seats { idempotency_key = 7 ∷ [] })
        held_seats).1
    ≡ ((pos 0, pos 0) ∷ [], reserved ∷ reserved ∷ expired ∷ expired ∷ [])
unfolding inventory
reserve_stale_seats = refl

reserve_held_seats :
    (reserve_seats
      (calm 200)
      session
      service
      20
      20
      (record ask_seats { idempotency_key = 7 ∷ [] })
      held_seats).0
    ≡ err seat_unavailable
unfolding inventory
reserve_held_seats = refl

-- A key that was used for tickets.
reserve_seats_same_key :
    (reserve_seats
      (calm 200)
      session
      service
      20
      20
      (record ask_seats { idempotency_key = (ask_quantity 3).idempotency_key })
      reserved_three).0
    ≡ err idempotency_key_conflict
unfolding inventory
reserve_seats_same_key = refl
