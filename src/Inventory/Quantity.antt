-- ===== src/Inventory/Quantity.antt =====
-- ReserveQuantity: the counter, the header and the item of a reservation are made together.
use study_ticket_reservation.Base.{
  ◌≡◌, refl, ap, Bool, true, false, not, ◌&&◌, ◌||◌, List, [], ◌∷◌, map, any, arith,
}
use study_ticket_reservation.Base.Int.{ℤ, pos, ◌≤ℤ◌, int_laws}
use study_ticket_reservation.Db.Types.{Uuid, same_uuid}
use study_ticket_reservation.Db.Equality.{same_uuid_comm, same_uuid_refl}
use study_ticket_reservation.Db.Tx.{Env}
use study_ticket_reservation.Sqlc.Models.{Reservation, reserved, is_quantity, status_eq}
use study_ticket_reservation.Sqlc.Database.{Database}
use study_ticket_reservation.Sqlc.Reservations.Headers.{CreateReservationParams}
use study_ticket_reservation.Sqlc.Reservations.Items.{CreateReservationItemParams, new_item}
use study_ticket_reservation.Inventory.Tables.{All-mono}
use study_ticket_reservation.Inventory.Held.{held}
use study_ticket_reservation.Inventory.Counters.{ticket_ids}
use study_ticket_reservation.Inventory.Loops.{IsKnown}
use study_ticket_reservation.Inventory.Invariant.{
  IsOwned, IsHeld, reservation_ids, Inv, IsCovered, has_item,
}
use study_ticket_reservation.Inventory.Inserts.{IsNewHeader}
use study_ticket_reservation.Inventory.Reserving.{Taken}

pub absent-ids :
    (id : Uuid) (rs : List Reservation)
    → any (λ s. same_uuid s.id id) rs ≡ false
    → any (same_uuid id) (map (λ r. r.id) rs) ≡ false
absent-ids id [] h = refl
absent-ids id (r ∷ rs) h = ground (arith, same_uuid_comm r.id id, absent-ids id rs)

or_more : (a b : Bool) → b ≡ true → (a || b) ≡ true
or_more a b h = ground arith

covers_more : (a c more : Bool) → (a && not c) ≡ false → (a && not (more || c)) ≡ false
covers_more a c more h = ground arith

-- The item that a request inserts for the header `r`.
abbrev pub item_arg : Uuid → ℤ → Reservation → CreateReservationItemParams
item_arg ticket quantity r = record {
  reservation_id = r.id;
  ticket_type_id = ticket;
  quantity = quantity;
  status = reserved;
}

module _ (env : Env) (event_id ticket : Uuid) (quantity : ℤ) (d0 : Database) (inv : Inv d0)
    (positive : pos 1 ≤ℤ quantity) where
  -- A new header and its item keep the invariant, on counters that have taken the quantity.
  pub reserved-Inv :
      (arg : CreateReservationParams) (d1 : Database) (r : Reservation) (item_id : Uuid)
      → Taken env ticket event_id quantity d0 inv positive d1
      → IsNewHeader env.now arg d1 r
      → Inv (record d1 {
        reservations = r ∷ d1.reservations;
        reservation_items =
            new_item env.now item_id (item_arg ticket quantity r) ∷ d1.reservation_items;
      })
  unfolding held status_eq
  reserved-Inv arg d1 r item_id taken new =
      let items : d1.reservation_items ≡ d0.reservation_items =
        ap (λ d. d.reservation_items) taken.0.0 in
      let headers : d1.reservations ≡ d0.reservations = ap (λ d. d.reservations) taken.0.0 in
      let holds : d1.reservation_seats ≡ d0.reservation_seats =
        ap (λ d. d.reservation_seats) taken.0.0 in
      record {
        counted = rw items (All-mono _ _ d1.ticket_types (λ t c. grind int_laws) taken.1);
        distinct_tickets = rw taken.0.1 inv.distinct_tickets;
        positive = rw items (positive, inv.positive);
        known = (
          rw taken.0.1 taken.2,
          All-mono (IsKnown (ticket_ids d0)) (IsKnown (ticket_ids d1)) d1.reservation_items
              (λ i k. rw taken.0.1 k) (rw items inv.known),
        );
        owned = (
          ground (arith, same_uuid_refl r.id new.valid),
          All-mono (IsOwned (reservation_ids d0)) (IsOwned (r.id ∷ reservation_ids d1))
              d1.reservation_items
              (λ i o. rw headers (or_more (same_uuid r.id i.reservation_id) _ o))
              (rw items inv.owned),
        );
        owned_seats =
            All-mono (IsHeld (reservation_ids d0)) (IsHeld (r.id ∷ reservation_ids d1))
              d1.reservation_seats
              (λ row o. rw headers (or_more (same_uuid r.id row.reservation_id) _ o))
              (rw holds inv.owned_seats);
        distinct_reservations =
            (absent-ids r.id d1.reservations new.unused, rw headers inv.distinct_reservations);
        typed = ((rw new.row new.typed.0, rw new.row new.typed.1, new.valid), rw headers inv.typed);
        covered = (
          ground (arith, same_uuid_refl r.id new.valid),
          All-mono (IsCovered d0.reservation_items)
              (IsCovered
                (new_item env.now item_id (item_arg ticket quantity r) ∷ d1.reservation_items))
              d1.reservations
              (λ s c. rw items (
                covers_more (is_quantity s.reservation_type && status_eq s.status reserved)
                  (has_item s.id d0.reservation_items) _ c))
              (rw headers inv.covered),
        );
        exclusive = rw holds inv.exclusive;
      }
