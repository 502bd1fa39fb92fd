-- ===== src/Catalogue/Shown.antt =====
-- GetInventory (internal/modules/events/service.go) shows what the items and holds leave of an event.
use study_ticket_reservation.Base.{
  ◌≡◌, refl, Bool, inr, List, [], ◌∷◌, map, All, All-select, All-sort_by,
}
use study_ticket_reservation.Base.Int.{ℤ, pos, ◌+ℤ◌, ◌-ℤ◌, ◌≤ℤ◌, int_laws}
use study_ticket_reservation.Base.Text.{Text}
use study_ticket_reservation.Db.Types.{Uuid, uuid_to_string, same_uuid}
use study_ticket_reservation.Db.Tx.{Env, Tx, Result, ok, err, reading}
use study_ticket_reservation.Db.Triples.{Post}
use study_ticket_reservation.Db.Transactions.{
  Settled, Transacts, Transacts-statement, Transacts-bind, Transacts-pure, Transacts-weaken,
}
use study_ticket_reservation.Sqlc.Models.{Seat, TicketType, reserved, confirmed}
use study_ticket_reservation.Sqlc.Database.{Database}
use study_ticket_reservation.Sqlc.Events.{
  TicketTypeInventoryRow, SeatInventoryRow, ticket_type_row, seat_row, ticket_types_of,
  seats_of_event, ticket_inventory, seat_inventory, list_ticket_type_inventory_by_event,
  list_seat_inventory_by_event,
}
use study_ticket_reservation.Events.Dto.{
  TicketTypeInventoryResponse, SeatInventoryResponse, InventoryResponse,
}
use study_ticket_reservation.Events.Service.{
  ticket_type_inventory, seat_inventory_response, to_ticket_type_inventory_responses,
  to_seat_inventory_responses, find_event, get_inventory,
}
use study_ticket_reservation.Inventory.Held.{held}
use study_ticket_reservation.Inventory.Counters.{Counts}
use study_ticket_reservation.Inventory.Invariant.{Inv}
use study_ticket_reservation.Catalogue.Inserts.{IsUnfound, find_event-Transacts}
use study_ticket_reservation.Catalogue.SeatStatus.{seat_status, seat_inventory_lem}

-- A ticket type by the items of the reservations, whatever its counters say.
abbrev pub left_of : Database → TicketType → TicketTypeInventoryResponse
left_of d t =
    let sold : ℤ = held confirmed t.id d.reservation_items in
    let taken : ℤ = held reserved t.id d.reservation_items in
    record {
      id = uuid_to_string t.id;
      event_id = uuid_to_string t.event_id;
      name = t.name;
      total_quantity = t.total_quantity;
      sold_quantity = sold;
      reserved_quantity = taken;
      available_quantity = t.total_quantity -ℤ sold -ℤ taken;
    }

-- A seat by the rows that hold it.
abbrev pub shown_seat : Database → Seat → SeatInventoryResponse
shown_seat d s = record {
  id = uuid_to_string s.id;
  event_id = uuid_to_string s.event_id;
  section = s.section;
  row_name = s.row_name;
  seat_number = s.seat_number;
  status = seat_status s.id d.reservation_seats;
}

module _ (collate : Text → Text → Bool) (event_id : Uuid) (d : Database) where
  -- Every ticket type and every seat of the event, once each and in their order.
  abbrev pub shown : InventoryResponse
  shown = record {
    ticket_types = map (left_of d) (ticket_types_of collate event_id d);
    seats = map (shown_seat d) (seats_of_event collate event_id d);
  }

  ticket_types_shown :
      (ts : List TicketType)
      → All
          (Counts
            (λ x. held reserved x d.reservation_items)
            (λ x. held confirmed x d.reservation_items))
          ts
      → map ticket_type_inventory (map ticket_type_row ts) ≡ map (left_of d) ts
  ticket_types_shown [] h = refl
  ticket_types_shown (t ∷ ts) h = rw (h.0.0, h.0.1, ticket_types_shown ts h.1) refl

  seats_shown :
      (ss : List Seat)
      → map seat_inventory_response
          (map (λ s. seat_row s (seat_status s.id d.reservation_seats)) ss)
        ≡ map (shown_seat d) ss
  seats_shown [] = refl
  seats_shown (s ∷ ss) = rw (seats_shown ss) refl

  ticket_types_of-counted :
      Inv d
      → All
          (Counts
            (λ x. held reserved x d.reservation_items)
            (λ x. held confirmed x d.reservation_items))
          (ticket_types_of collate event_id d)
  unfolding ticket_types_of
  ticket_types_of-counted inv =
      All-sort_by _ _ _
        (All-select _ (λ t. same_uuid t.event_id event_id) d.ticket_types inv.counted)

  pub get_inventory-Transacts :
      (env : Env)
      → Inv d
      → Transacts
          (λ e. e ≡ d)
          (get_inventory env collate event_id)
          (λ response e. (response ≡ shown) × (e ≡ d))
          (IsUnfound event_id d)
  unfolding get_inventory ticket_inventory to_ticket_type_inventory_responses
      to_seat_inventory_responses list_ticket_type_inventory_by_event list_seat_inventory_by_event
  get_inventory-Transacts env inv =
      Transacts-bind {R = λ _. Unit {0}} (find_event env event_id) _
        (Transacts-weaken _ _ _ _ _ (find_event-Transacts env event_id d) (λ e d h. (tt, h.1))
          (λ e h. h))
        λ event _.
          Transacts-bind {R = λ ts. ts ≡ ticket_inventory collate event_id d} _ _
            (Transacts-statement env (reading (ticket_inventory collate event_id))
              (λ _. (refl, refl)) (inr refl))
            λ ts listed.
              Transacts-bind {R = λ ss. ss ≡ seat_inventory collate event_id d} _ _
                (Transacts-statement env (reading (seat_inventory collate event_id))
                  (λ _. (refl, refl)) (inr refl))
                λ ss seats. Transacts-pure _ (both ts ss listed seats, refl)
    where
      both :
          (ts : List TicketTypeInventoryRow) (ss : List SeatInventoryRow)
          → ts ≡ ticket_inventory collate event_id d
          → ss ≡ seat_inventory collate event_id d
          → record {
            ticket_types = to_ticket_type_inventory_responses ts;
            seats = to_seat_inventory_responses ss;
          }
            ≡ shown
      both ts ss listed seats =
          rw
            (
              listed,
              seats,
              seat_inventory_lem collate event_id d inv.exclusive,
              ticket_types_shown (ticket_types_of collate event_id d) (ticket_types_of-counted inv),
              seats_shown (seats_of_event collate event_id d),
            )
            refl

-- What is left of a ticket type is not negative, and with what is taken of it makes its total, which
-- the integer column holds.
abbrev pub IsWithin : TicketTypeInventoryResponse → Type 0
IsWithin t =
    (pos 0 ≤ℤ t.available_quantity)
    × (t.available_quantity +ℤ t.sold_quantity +ℤ t.reserved_quantity ≡ t.total_quantity)
    × (t.total_quantity ≤ℤ pos 2147483647)

left_of-IsWithin :
    (d : Database) (t : TicketType)
    → Counts
        (λ x. held reserved x d.reservation_items)
        (λ x. held confirmed x d.reservation_items)
        t
    → IsWithin (left_of d t)
left_of-IsWithin d t c = within t.total_quantity _ _ (rw (← c.1, ← c.0) c.2.2) c.2.3
  where
    within :
        (total sold taken : ℤ)
        → sold +ℤ taken ≤ℤ total
        → total ≤ℤ pos 2147483647
        → (pos 0 ≤ℤ total -ℤ sold -ℤ taken)
          × (total -ℤ sold -ℤ taken +ℤ sold +ℤ taken ≡ total)
          × (total ≤ℤ pos 2147483647)
    within total sold taken h k = omega int_laws

pub All-map-left_of :
    (d : Database) (ts : List TicketType)
    → All
        (Counts
          (λ x. held reserved x d.reservation_items)
          (λ x. held confirmed x d.reservation_items))
        ts
    → All IsWithin (map (left_of d) ts)
All-map-left_of d [] c = tt
All-map-left_of d (t ∷ ts) c = (left_of-IsWithin d t c.0, All-map-left_of d ts c.1)

module _ (env : Env) (collate : Text → Text → Bool) (event_id : Uuid) (w : Tx Database)
    (inv : Inv w.db) where
  pub get_inventory_lem :
      Settled
        (λ response d. (response ≡ shown collate event_id w.db) × (d ≡ w.db))
        (IsUnfound event_id w.db)
        w.db
        (get_inventory env collate event_id w)
  get_inventory_lem = (get_inventory-Transacts collate event_id w.db env inv).at w refl

  -- From a database that keeps the invariant, each ticket type in the inventory of an event has an
  -- available quantity that is not negative and that the sold and the reserved quantity complete to
  -- the total, and the total fits the 32 bits of the response's fields.
  pub get_inventory-IsWithin :
      Post
        (λ response _. All IsWithin response.ticket_types)
        (λ _. Unit {0})
        (get_inventory env collate event_id w)
  get_inventory-IsWithin = within (get_inventory env collate event_id w) get_inventory_lem
    where
      within :
          (r : Result InventoryResponse × Tx Database)
          → Settled
              (λ response d. (response ≡ shown collate event_id w.db) × (d ≡ w.db))
              (IsUnfound event_id w.db)
              w.db
              r
          → Post (λ response _. All IsWithin response.ticket_types) (λ _. Unit {0}) r
      within (ok response, w') h = rw h.0 (
          All-map-left_of w.db (ticket_types_of collate event_id w.db)
            (ticket_types_of-counted collate event_id w.db inv))
      within (err e, w') h = tt
