-- ===== src/Reservations/Transitions.antt =====
-- The inventory movements behind a lifecycle transition, on a reservation whose row the caller has
-- locked (internal/modules/reservations/service.go).
use study_ticket_reservation.Base.{
  Bool, true, false, not, ◌||◌, List, [], ◌∷◌, length, ◌==◌, if◌then◌else◌,
}
use study_ticket_reservation.Base.Int.{ℤ}
use study_ticket_reservation.Db.Types.{Uuid}
use study_ticket_reservation.Db.Tx.{
  reservation_invariant_broken, is_no_rows, Env, Action, pure, raise, on_error, ◌>>=◌, ◌>>◌,
}
use study_ticket_reservation.Sqlc.Models.{
  Reservation, ReservationItem, ReservationType, by_quantity, by_seats, other_type, Status,
  reserved, confirmed, cancelled, expired, status_eq,
}
use study_ticket_reservation.Sqlc.Database.{Database}
use study_ticket_reservation.Sqlc.Reservations.Stock.{
  TicketQuantityRow, release_ticket_quantity, confirm_ticket_quantity,
}
use study_ticket_reservation.Sqlc.Reservations.Headers.{update_reservation_status}
use study_ticket_reservation.Sqlc.Reservations.Items.{
  list_reservation_items, update_reservation_items_status,
}
use study_ticket_reservation.Sqlc.Reservations.Holds.{update_reservation_seats_status}

-- `isNoRows(err)` means that the counters do not cover the item.
abbrev pub or_broken : {A : Type 0} → Action Database A → Action Database A
or_broken m = on_error m λ e. raise (if is_no_rows e then reservation_invariant_broken else e)

-- The loop over the items: `move` is the UPDATE of the counters, and the result tells whether it
-- ran for any item.
unfoldable pub move_items :
    (Uuid → ℤ → Action Database TicketQuantityRow) → List ReservationItem → Action Database Bool
move_items move [] = pure false
move_items move (item ∷ items) =
    let rest = move_items move items in
    if not (status_eq item.status reserved)
    then rest
    else (do or_broken (move item.ticket_type_id item.quantity); rest; pure true)

-- What both loops end with: the items get their new status, if any of them was still reserved.
unfoldable pub mark_items :
    Env → Uuid → Status → List ReservationItem → Bool → Action Database (Unit {0})
mark_items env id target items moved_any =
    if length items == 0 || not moved_any
    then raise reservation_invariant_broken
    else update_reservation_items_status env id target reserved

unfoldable pub release_reserved_quantity_items : Env → Uuid → Status → Action Database (Unit {0})
unfolding move_items mark_items
release_reserved_quantity_items env id target = do
  items ← list_reservation_items env id
  released_any ← move_items (release_ticket_quantity env) items
  mark_items env id target items released_any

unfoldable pub confirm_reserved_quantity_items : Env → Uuid → Action Database (Unit {0})
unfolding move_items mark_items
confirm_reserved_quantity_items env id = do
  items ← list_reservation_items env id
  confirmed_any ← move_items (confirm_ticket_quantity env) items
  mark_items env id confirmed items confirmed_any

-- The switch on the reservation's type: the inventory that it holds changes its status.
unfoldable pub release_inventory :
    Env → ReservationType → Uuid → Status → Action Database (Unit {0})
unfolding release_reserved_quantity_items
release_inventory env by_quantity id target = release_reserved_quantity_items env id target
release_inventory env by_seats id target = update_reservation_seats_status env id target reserved
release_inventory env (other_type _) id target = raise reservation_invariant_broken

unfoldable pub confirm_inventory : Env → ReservationType → Uuid → Action Database (Unit {0})
unfolding confirm_reserved_quantity_items
confirm_inventory env by_quantity id = confirm_reserved_quantity_items env id
confirm_inventory env by_seats id = update_reservation_seats_status env id confirmed reserved
confirm_inventory env (other_type _) id = raise reservation_invariant_broken

module _ (env : Env) (reservation : Reservation) where
  unfoldable pub cancel_locked_reservation : Action Database Reservation
  unfolding release_inventory
  cancel_locked_reservation = do
    release_inventory env reservation.reservation_type reservation.id cancelled
    update_reservation_status env reservation.id cancelled

  unfoldable pub confirm_locked_reservation : Action Database Reservation
  unfolding confirm_inventory
  confirm_locked_reservation = do
    confirm_inventory env reservation.reservation_type reservation.id
    update_reservation_status env reservation.id confirmed

  unfoldable pub expire_locked_reservation : Action Database Reservation
  unfolding release_inventory
  expire_locked_reservation = do
    release_inventory env reservation.reservation_type reservation.id expired
    update_reservation_status env reservation.id expired
