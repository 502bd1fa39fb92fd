-- ===== src/Tests/Examples.antt =====
-- The theorems on sequences of requests, and on requests to reserve, at concrete inputs.
use study_ticket_reservation.Base.{◌↔◌, ◌≡◌, refl, true, [], ◌∷◌, All}
use study_ticket_reservation.Base.Int.{pos, ◌+ℤ◌, ◌≤ℤ◌}
use study_ticket_reservation.Base.Text.{text_eq, trim_space}
use study_ticket_reservation.Db.Types.{uuid_to_string}
use study_ticket_reservation.Db.Tx.{ok, Tx, err, insufficient_stock}
use study_ticket_reservation.Db.Transactions.{Settled, IfOk}
use study_ticket_reservation.Sqlc.Models.{reserved, confirmed}
use study_ticket_reservation.Sqlc.Database.{Database, active_seats_unique}
use study_ticket_reservation.Reservations.Input.{parse_quantity_input, parse_seat_input}
use study_ticket_reservation.Reservations.Quantity.{reserve_quantity}
use study_ticket_reservation.Reservations.Lifecycle.{confirm_reservation}
use study_ticket_reservation.Inventory.Held.{held}
use study_ticket_reservation.Inventory.Invariant.{Inv}
use study_ticket_reservation.Inventory.QuantityRequest.{ReservesQuantity}
use study_ticket_reservation.Inventory.Shortage.{Lacks}
use study_ticket_reservation.Inventory.Refusals.{reserve_quantity-insufficient_stock}
use study_ticket_reservation.Inventory.Reachable.{
  after, reserves_quantity, confirms, start, followed_by, fresh-Inv, Step-Inv, Steps-stocked,
}
use study_ticket_reservation.Inventory.Guarantees.{reserve_quantity_lem}
use study_ticket_reservation.Tests.Runs
use study_ticket_reservation.Parsing.{IsOrdered, parse_seat_input-IsOrdered}
use study_ticket_reservation.Inventory.Replay.{reserve_quantity-replay}
use study_ticket_reservation.Reservations.Dto.{QuantityReservationResponse}
use study_ticket_reservation.Sqlc.Models.{by_quantity}
use study_ticket_reservation.Tests.Samples
use study_ticket_reservation.Tests.Samples.{
  uuid, scan_one, service, calm, session, fresh, ask_quantity, ask_seats,
}
use study_ticket_reservation.Tests.Start.{fresh-IsFresh, three, three-Inv, from_fresh}

-- ... and sold.
abbrev sold_three : Database
sold_three = after (confirm_reservation (calm 200) session 20 (uuid 103)) 0 three

Steps-stocked_example :
    All
      (λ t.
        (t.reserved_quantity ≡ held reserved t.id sold_three.reservation_items)
        × (t.sold_quantity ≡ held confirmed t.id sold_three.reservation_items)
        × (t.sold_quantity +ℤ t.reserved_quantity ≤ℤ t.total_quantity))
      sold_three.ticket_types
    × (active_seats_unique sold_three.reservation_seats ≡ true)
Steps-stocked_example = Steps-stocked fresh sold_three fresh-IsFresh (
    followed_by three sold_three
      (followed_by fresh three start
        (reserves_quantity (calm 100) session service 10 0 (ask_quantity 3) fresh))
      (confirms (calm 200) session 20 0 (uuid 103) three))

Step-Inv_example : Inv sold_three
Step-Inv_example =
    Step-Inv three sold_three (confirms (calm 200) session 20 0 (uuid 103) three) three-Inv

reserve_quantity_lem_example :
    Settled
      (ReservesQuantity (calm 100) session service 10 (ask_quantity 3) fresh)
      (λ _. Unit {0})
      fresh
      (reserve_quantity (calm 100) session service 10 (ask_quantity 3) from_fresh)
reserve_quantity_lem_example =
    reserve_quantity_lem (calm 100) session service 10 from_fresh (ask_quantity 3)
      (fresh-Inv fresh fresh-IsFresh)

-- Eleven of ten tickets.
reserve_quantity-insufficient_stock_example :
    (((reserve_quantity (calm 100) session service 10 (ask_quantity 11) Samples.start).0
        ≡ err insufficient_stock)
      ↔ Lacks (uuid b'E') (uuid b'T') (pos 11) fresh.ticket_types)
    × ((reserve_quantity (calm 100) session service 10 (ask_quantity 11) Samples.start).0
          ≡ err insufficient_stock
        → (reserve_quantity (calm 100) session service 10 (ask_quantity 11) Samples.start).1.db
          ≡ fresh)
unfolding parse_quantity_input trim_space text_eq
reserve_quantity-insufficient_stock_example =
    reserve_quantity-insufficient_stock (calm 100) session service 10 (ask_quantity 11)
      (uuid b'E', uuid b'T') Samples.start (λ k. refl) refl tt

parse_seat_input-IsOrdered_example :
    IfOk (IsOrdered scan_one ask_seats) (parse_seat_input scan_one ask_seats)
parse_seat_input-IsOrdered_example = parse_seat_input-IsOrdered scan_one ask_seats

-- The response to the three tickets, and what the request leaves.
abbrev response_three : QuantityReservationResponse
response_three = record {
  reservation_id = uuid_to_string (uuid 103);
  status = reserved;
  reservation_type = by_quantity;
  expires_at = 60;
  items = record { ticket_type_id = uuid_to_string (uuid b'T'); quantity = pos 3 } ∷ [];
}

abbrev left_three : Tx Database
left_three = (reserve_quantity (calm 100) session service 10 (ask_quantity 3) from_fresh).1

three_reserved :
    reserve_quantity (calm 100) session service 10 (ask_quantity 3) from_fresh
    ≡ (ok response_three, left_three)
unfolding Runs.inventory
three_reserved = refl

-- The same key asks for nine tickets, which are not there.
reserve_quantity-replay_example :
    ((reserve_quantity (calm 200) session service 15 (ask_quantity 9) left_three).0
      ≡ ok response_three)
    × ((reserve_quantity (calm 200) session service 15 (ask_quantity 9) left_three).1.db
        ≡ left_three.db)
unfolding parse_quantity_input text_eq trim_space
reserve_quantity-replay_example =
    reserve_quantity-replay (calm 100) (calm 200) session service 10 15 (ask_quantity 3)
      (ask_quantity 9) (uuid b'E', uuid b'T') from_fresh left_three response_three
      (fresh-Inv fresh fresh-IsFresh) refl three_reserved (λ k. refl) refl refl
