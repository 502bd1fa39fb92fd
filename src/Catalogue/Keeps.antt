-- ===== src/Catalogue/Keeps.antt =====
-- The operations on events keep the invariant of the inventory (internal/modules/events/service.go).
use study_ticket_reservation.Base.{
  ◌≡◌, ◌≢◌, refl, sym, ap, ◌∙◌, ◌⊎◌, true, false, List, [], ◌∷◌, map, any, All, inl, inr,
  Bool-cases, arith,
}
use study_ticket_reservation.Base.Int.{pos, ◌+ℤ◌, +ℤ_parts}
use study_ticket_reservation.Db.Types.{Uuid, Timestamptz, same_uuid}
use study_ticket_reservation.Db.Equality.{eq_of_same_uuid, same_uuid_comm}
use study_ticket_reservation.Db.Tx.{Env, Tx}
use study_ticket_reservation.Sqlc.Models.{TicketType, ReservationItem, Status, reserved, confirmed}
use study_ticket_reservation.Sqlc.Database.{Database, ticket_check}
use study_ticket_reservation.Sqlc.Events.{CreateTicketTypeParams, event_exists}
use study_ticket_reservation.Events.Dto.{CreateSeatsRequest}
use study_ticket_reservation.Events.Service.{create_seats}
use study_ticket_reservation.Inventory.Held.{held}
use study_ticket_reservation.Inventory.Counters.{IsStocked, ticket_ids}
use study_ticket_reservation.Inventory.Loops.{IsKnown}
use study_ticket_reservation.Inventory.Tables.{All-mono}
use study_ticket_reservation.Inventory.Invariant.{Inv}
use study_ticket_reservation.Catalogue.Inserts.{AddsTicketType}
use study_ticket_reservation.Catalogue.Seats.{Progress, with_seats}
use study_ticket_reservation.Catalogue.SeatRequests.{Refuses, create_seats_lem}

-- The invariant does not speak of events and seats.
pub catalogue-Inv :
    (d d' : Database) → Inv d → d' ≡ record d { events = d'.events; seats = d'.seats } → Inv d'
catalogue-Inv d d' inv e = rw e (record {
  counted = inv.counted;
  distinct_tickets = inv.distinct_tickets;
  positive = inv.positive;
  known = inv.known;
  owned = inv.owned;
  owned_seats = inv.owned_seats;
  distinct_reservations = inv.distinct_reservations;
  typed = inv.typed;
  covered = inv.covered;
  exclusive = inv.exclusive;
})

-- Nothing is held of a ticket type that is not known.
unknown_id :
    (ticket other : Uuid) (ids : List Uuid)
    → any (same_uuid ticket) ids ≡ false
    → any (λ id. same_uuid id other) ids ≡ true
    → same_uuid ticket other ≡ false
unknown_id ticket other [] h k = cc
unknown_id ticket other (id ∷ ids) h k = elim (Bool-cases (same_uuid ticket other)) [
  | inr differ ↦ differ
  | inl same ↦
      let e : ticket ≡ other = eq_of_same_uuid ticket other same in
      ground
        (arith, unknown_id ticket other ids, same_uuid_comm ticket id, ap (λ x. same_uuid id x) e)
]

held-unknown :
    (s : Status) (ticket : Uuid) (ids : List Uuid) (is : List ReservationItem)
    → any (same_uuid ticket) ids ≡ false
    → All (IsKnown ids) is
    → held s ticket is ≡ pos 0
unfolding held ◌+ℤ◌
held-unknown s ticket ids [] h k = refl
held-unknown s ticket ids (i ∷ is) h k =
    rw (unknown_id ticket i.ticket_type_id ids h k.0, held-unknown s ticket ids is h k.1) refl

unused-ids :
    (id : Uuid) (ts : List TicketType)
    → any (λ o. same_uuid o.id id) ts ≡ false
    → any (same_uuid id) (map (λ t. t.id) ts) ≡ false
unused-ids id [] h = refl
unused-ids id (t ∷ ts) h = ground (arith, unused-ids id ts, same_uuid_comm t.id id)

stocked_of_check : (t : TicketType) → ticket_check t ≡ true → IsStocked t
unfolding ticket_check
stocked_of_check t h = ground (arith, +ℤ_parts t.sold_quantity t.reserved_quantity)

-- A new ticket type has no items, and a new id.
pub adds_ticket_type-Inv :
    (now : Timestamptz) (d : Database) (arg : CreateTicketTypeParams) (t : TicketType)
    (d' : Database)
    → AddsTicketType now d arg t d'
    → Inv d
    → Inv d'
adds_ticket_type-Inv now d arg t d' a inv =
    let fresh : any (same_uuid t.id) (ticket_ids d) ≡ false =
      unused-ids t.id d.ticket_types a.unused in
    let unsold : (t.reserved_quantity ≡ pos 0) × (t.sold_quantity ≡ pos 0) =
      (ap (λ r. r.reserved_quantity) a.row, ap (λ r. r.sold_quantity) a.row) in
    rw a.added (record {
      counted = (
        (
          unsold.0 ∙ sym (held-unknown reserved t.id (ticket_ids d) _ fresh inv.known),
          unsold.1 ∙ sym (held-unknown confirmed t.id (ticket_ids d) _ fresh inv.known),
          stocked_of_check t a.checked,
        ),
        inv.counted,
      );
      distinct_tickets = (fresh, inv.distinct_tickets);
      positive = inv.positive;
      known =
          All-mono _ (IsKnown (t.id ∷ ticket_ids d)) d.reservation_items (λ i k. ground arith)
            inv.known;
      owned = inv.owned;
      owned_seats = inv.owned_seats;
      distinct_reservations = inv.distinct_reservations;
      typed = inv.typed;
      covered = inv.covered;
      exclusive = inv.exclusive;
    })

-- Whatever comes of a request to create seats.
pub create_seats-Inv :
    (env : Env) (event_id : Uuid) (input : CreateSeatsRequest) (w : Tx Database)
    → Inv w.db
    → Inv (create_seats env event_id input w).1.db
create_seats-Inv env event_id input w inv = by_case (create_seats_lem env event_id input w)
  where
    by_case :
        Refuses event_id input w (create_seats env event_id input w)
          ⊎ ((event_exists event_id w.db ≡ true)
              × (input.seats ≢ [])
              × Progress env.now event_id w.db input.seats (create_seats env event_id input w))
        → Inv (create_seats env event_id input w).1.db
    by_case (inl r) = rw r.unchanged inv
    by_case (inr (_, _, p)) = rw p.stored (catalogue-Inv w.db (with_seats w.db p.rows) inv refl)
