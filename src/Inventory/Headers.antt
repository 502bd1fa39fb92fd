-- ===== src/Inventory/Headers.antt =====
-- The header of a reservation takes its final status, after its inventory did.
use mathlib.Core.Path.{subst, sym, ap}
use study_ticket_reservation.Base.{
  ◌≡◌, refl, ◌∙◌, Bool, true, false, List, [], ◌∷◌, map, any, All, arith, inl, inr, Bool-cases,
}
use study_ticket_reservation.Db.Types.{Uuid, Timestamptz, same_uuid}
use study_ticket_reservation.Db.Equality.{eq_of_same_uuid, same_uuid_comm}
use study_ticket_reservation.Db.Tx.{failure}
use study_ticket_reservation.Db.Triples.{BodyPost}
use study_ticket_reservation.Sqlc.Models.{
  Reservation, ReservationItem, Status, reserved, confirmed, status_eq,
}
use study_ticket_reservation.Sqlc.Database.{
  Database, update_where, known_status, known_type, active_seats_unique,
}
use study_ticket_reservation.Sqlc.Reservations.Headers.{set_status, change_status, select_one}
use study_ticket_reservation.Inventory.Tables.{
  All-mono, All-update_where, All-selected, any-update_where, map-update_where, select-any,
}
use study_ticket_reservation.Inventory.Held.{held, marked, IsPositive}
use study_ticket_reservation.Inventory.Counters.{Counts, ticket_ids}
use study_ticket_reservation.Inventory.Loops.{IsKnown}
use study_ticket_reservation.Inventory.Invariant.{
  IsOwned, IsHeld, reservation_ids, Inv, IsTyped, IsCovered, has_item,
}

module _ (now : Timestamptz) (id : Uuid) (target : Status) where
  -- `UPDATE reservations SET status = target WHERE id = id`.
  abbrev pub retitled : List Reservation → List Reservation
  retitled = update_where (λ r. same_uuid r.id id) (set_status now target)

  abbrev pub exists : List Reservation → Bool
  exists = any (λ r. same_uuid r.id id)

  -- A row of the changed table.
  abbrev pub IsRetitled : Reservation → Type 0
  IsRetitled r = IsTyped r × (same_uuid r.id id ≡ true → r.status ≡ target)

  retitled-IsRetitled :
      (rs : List Reservation)
      → known_status target ≡ true
      → All IsTyped rs
      → All IsRetitled (retitled rs)
  retitled-IsRetitled rs k =
      All-update_where IsTyped IsRetitled (λ r. same_uuid r.id id) (set_status now target) rs
        λ r t. elim (Bool-cases (same_uuid r.id id)) [
          | inl same ↦ rw same ((k, t.1, t.2), λ _. refl)
          | inr other ↦ rw other (t, λ e. cc)
        ]

  -- The query finds the row, and returns it with the new status.
  pub change_status-Post :
      (d : Database)
      → known_status target ≡ true
      → exists d.reservations ≡ true
      → All IsTyped d.reservations
      → BodyPost
          (λ r d'.
            (d' ≡ record d { reservations = retitled d.reservations })
            × (r.status ≡ target)
            × (known_type r.reservation_type ≡ true))
          (λ e. e ≡ failure)
          (change_status now id target d)
  unfolding change_status
  change_status-Post d k found typed =
      let (y, ys, e) =
        select-any (λ r. same_uuid r.id id) (retitled d.reservations)
          (any-update_where (λ r. same_uuid r.id id) (λ r. same_uuid r.id id)
              (set_status now target) d.reservations (λ r. refl)
            ∙ found) in
      let row =
        All-selected IsRetitled (λ r. same_uuid r.id id) (retitled d.reservations) y ys e
          (retitled-IsRetitled d.reservations k typed) in
      rw (k, e, select_one) (refl, row.0.1 row.1, row.0.0.1)

  -- What a row needs to be covered does not change elsewhere.
  retitled-IsCovered :
      (items items' : List ReservationItem) (rs : List Reservation)
      → status_eq target reserved ≡ false
      → ((other : Uuid) → same_uuid other id ≡ false → has_item other items' ≡ has_item other items)
      → All (IsCovered items) rs
      → All (IsCovered items') (retitled rs)
  retitled-IsCovered items items' rs h same_items =
      All-update_where (IsCovered items) (IsCovered items') (λ r. same_uuid r.id id)
        (set_status now target) rs
        λ r c. elim (Bool-cases (same_uuid r.id id)) [
          | inl same ↦ rw same (ground arith)
          | inr other ↦ rw (other, same_items r.id other) c
        ]

  -- The invariant after a transition, from the parts that the inventory movement settles.
  pub retitled-Inv :
      (d0 d : Database)
      → Inv d0
      → known_status target ≡ true
      → status_eq target reserved ≡ false
      → d.reservations ≡ retitled d0.reservations
      → All
          (Counts
            (λ x. held reserved x d.reservation_items)
            (λ x. held confirmed x d.reservation_items))
          d.ticket_types
      → ticket_ids d ≡ ticket_ids d0
      → All IsPositive d.reservation_items
      → All (IsKnown (ticket_ids d0)) d.reservation_items
      → All (IsOwned (reservation_ids d0)) d.reservation_items
      → All (IsHeld (reservation_ids d0)) d.reservation_seats
      → ((other : Uuid)
          → same_uuid other id ≡ false
          → has_item other d.reservation_items ≡ has_item other d0.reservation_items)
      → active_seats_unique d.reservation_seats ≡ true
      → Inv d
  retitled-Inv d0 d inv k h headers counts ids positive known owned held_by items seats = record {
    counted = counts;
    distinct_tickets = rw ids inv.distinct_tickets;
    positive = positive;
    known = rw ids known;
    owned =
        subst (λ ids. All (IsOwned ids) d.reservation_items)
          (sym (
            ap (map (λ r. r.id)) headers
            ∙ map-update_where (λ r. r.id) (λ r. same_uuid r.id id) (set_status now target)
                d0.reservations (λ r. refl)))
          owned;
    owned_seats =
        subst (λ ids. All (IsHeld ids) d.reservation_seats)
          (sym (
            ap (map (λ r. r.id)) headers
            ∙ map-update_where (λ r. r.id) (λ r. same_uuid r.id id) (set_status now target)
                d0.reservations (λ r. refl)))
          held_by;
    distinct_reservations =
        rw
          (
            headers,
            map-update_where (λ r. r.id) (λ r. same_uuid r.id id) (set_status now target)
                d0.reservations (λ r. refl),
          )
          inv.distinct_reservations;
    typed = rw headers (
        All-mono IsRetitled IsTyped (retitled d0.reservations) (λ r t. t.0)
          (retitled-IsRetitled d0.reservations k inv.typed));
    covered = rw headers (
        retitled-IsCovered d0.reservation_items d.reservation_items d0.reservations h items
          inv.covered);
    exclusive = seats;
  }

  -- Marking the items of one reservation leaves those of the others.
  pub has_item-marked :
      (other : Uuid) (is : List ReservationItem)
      → same_uuid other id ≡ false
      → has_item other (marked now id target is) ≡ has_item other is
  has_item-marked other [] h = refl
  has_item-marked other (i ∷ is) h = ground (
    arith,
    has_item-marked other is h,
    eq_of_same_uuid i.reservation_id id,
    eq_of_same_uuid i.reservation_id other,
    same_uuid_comm other id,
  )
