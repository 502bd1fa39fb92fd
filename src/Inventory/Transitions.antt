-- ===== src/Inventory/Transitions.antt =====
-- cancel, confirm and expireLockedReservation on a database that keeps the invariant.
use study_ticket_reservation.Base.{◌≡◌, refl, sym, ap, ◌∙◌, true, false, ◌&&◌, any, All, arith}
use study_ticket_reservation.Base.Int.{ℤ}
use study_ticket_reservation.Db.Types.{Uuid, same_uuid}
use study_ticket_reservation.Db.Tx.{failure, Env}
use study_ticket_reservation.Db.Triples.{
  Triple, Triple-statement, Triple-bind, Triple-weaken, BodyPost-mono,
}
use study_ticket_reservation.Sqlc.Models.{
  Reservation, ReservationType, by_quantity, by_seats, other_type, Status, reserved, confirmed,
  cancelled, expired, status_eq, is_quantity,
}
use study_ticket_reservation.Sqlc.Database.{Database, known_status, known_type, active_seats_unique}
use study_ticket_reservation.Sqlc.Reservations.Headers.{change_status, update_reservation_status}
use study_ticket_reservation.Sqlc.Reservations.Items.{set_item_status}
use study_ticket_reservation.Sqlc.Reservations.Holds.{
  set_seat_status, change_seats, update_reservation_seats_status,
}
use study_ticket_reservation.Reservations.Transitions.{
  release_inventory, confirm_inventory, cancel_locked_reservation, confirm_locked_reservation,
  expire_locked_reservation,
}
use study_ticket_reservation.Inventory.Tables.{All-mono, All-update_where}
use study_ticket_reservation.Inventory.Held.{held, marked, IsPositive, held-marked_other}
use study_ticket_reservation.Inventory.Counters.{Counts, ticket_ids}
use study_ticket_reservation.Inventory.Loops.{IsKnown}
use study_ticket_reservation.Inventory.Invariant.{IsOwned, IsHeld, reservation_ids, Inv, has_item}
use study_ticket_reservation.Inventory.Release.{
  Marked, left, sold, sold_after, release-Marked, confirm-Marked,
}
use study_ticket_reservation.Inventory.Headers.{
  retitled, exists, change_status-Post, retitled-Inv, has_item-marked,
}
use study_ticket_reservation.Inventory.Holds.{reseated-active_seats_unique, change_seats-Post}

-- The inventory of the reservation `id` has moved, and its header has not changed yet.
record Moved (id : Uuid) (d0 d : Database) : Type 0 where
  headers : d.reservations ≡ d0.reservations
  counts :
      All
        (Counts
          (λ x. held reserved x d.reservation_items)
          (λ x. held confirmed x d.reservation_items))
        d.ticket_types
  ids : ticket_ids d ≡ ticket_ids d0
  positive : All IsPositive d.reservation_items
  known : All (IsKnown (ticket_ids d0)) d.reservation_items
  owned : All (IsOwned (reservation_ids d0)) d.reservation_items
  held_by : All (IsHeld (reservation_ids d0)) d.reservation_seats
  items :
      (other : Uuid)
      → same_uuid other id ≡ false
      → has_item other d.reservation_items ≡ has_item other d0.reservation_items
  seats : active_seats_unique d.reservation_seats ≡ true

module _ (env : Env) (id : Uuid) (d0 : Database) (inv : Inv d0) where
  Marked-Moved :
      (target : Status) (r s : Uuid → ℤ) (d : Database)
      → status_eq target reserved ≡ false
      → ((x : Uuid) → r x ≡ held reserved x (marked env.now id target d0.reservation_items))
      → ((x : Uuid) → s x ≡ held confirmed x (marked env.now id target d0.reservation_items))
      → Marked env id d0 inv target r s d
      → Moved id d0 d
  Marked-Moved target r s d h er es (e, ids, counts) =
      let rows : d.reservation_items ≡ marked env.now id target d0.reservation_items =
        ap (λ x. x.reservation_items) e in
      record {
        headers = ap (λ x. x.reservations) e;
        counts = rw rows (
            All-mono (Counts r s) _ d.ticket_types (λ t c. rw (sym (er t.id), sym (es t.id)) c)
              counts);
        ids = ids;
        positive = rw rows (
            All-update_where IsPositive IsPositive
              (λ i. same_uuid i.reservation_id id && status_eq i.status reserved)
              (set_item_status env.now target) d0.reservation_items (λ i p. ground arith)
              inv.positive);
        known = rw rows (
            All-update_where (IsKnown (ticket_ids d0)) (IsKnown (ticket_ids d0))
              (λ i. same_uuid i.reservation_id id && status_eq i.status reserved)
              (set_item_status env.now target) d0.reservation_items (λ i p. ground arith)
              inv.known);
        owned = rw rows (
            All-update_where (IsOwned (reservation_ids d0)) (IsOwned (reservation_ids d0))
              (λ i. same_uuid i.reservation_id id && status_eq i.status reserved)
              (set_item_status env.now target) d0.reservation_items (λ i p. ground arith)
              inv.owned);
        held_by = rw (ap (λ x. x.reservation_seats) e) inv.owned_seats;
        items = λ other n. rw rows (has_item-marked env.now id target other d0.reservation_items n);
        seats = ap (λ x. active_seats_unique x.reservation_seats) e ∙ inv.exclusive;
      }

  seats-Moved :
      (target : Status)
      → known_status target ≡ true
      → Triple
          (λ d. d ≡ d0)
          (update_reservation_seats_status env id target reserved)
          (λ _ d. Moved id d0 d)
          (λ e. e ≡ failure)
  unfolding update_reservation_seats_status
  seats-Moved target k =
      Triple-statement env
        (λ _.
          change_seats env.now target
            (λ row. same_uuid row.reservation_id id && status_eq row.status reserved))
        (λ _ d e. rw e (
          BodyPost-mono _ _ _ _
            (change_seats env.now target
              (λ row. same_uuid row.reservation_id id && status_eq row.status reserved) d0)
            (λ _ d' e'. rw e' (record {
              headers = refl;
              counts = inv.counted;
              ids = refl;
              positive = inv.positive;
              known = inv.known;
              owned = inv.owned;
              held_by =
                  All-update_where (IsHeld (reservation_ids d0)) (IsHeld (reservation_ids d0))
                    (λ row. same_uuid row.reservation_id id && status_eq row.status reserved)
                    (set_seat_status env.now target) d0.reservation_seats (λ row p. ground arith)
                    inv.owned_seats;
              items = λ other n. refl;
              seats =
                  reseated-active_seats_unique env.now target
                    (λ row. same_uuid row.reservation_id id && status_eq row.status reserved)
                    (λ row h. ground arith) d0.reservation_seats inv.exclusive;
            }))
            (λ e h. h)
            (change_seats-Post env.now target _ (λ row h. ground arith) d0 k inv.exclusive)))
        refl

  -- Releasing to `target`, by the type of the reservation.
  release-Moved :
      (rt : ReservationType) (target : Status)
      → known_type rt ≡ true
      → known_status target ≡ true
      → status_eq target reserved ≡ false
      → status_eq target confirmed ≡ false
      → (is_quantity rt ≡ true → has_item id d0.reservation_items ≡ true)
      → Triple
          (λ d. d ≡ d0)
          (release_inventory env rt id target)
          (λ _ d. Moved id d0 d)
          (λ e. e ≡ failure)
  unfolding release_inventory is_quantity
  release-Moved by_quantity target kt k h hc covered =
      Triple-weaken (λ d. d ≡ d0) (λ d. d ≡ d0) (λ _ d. Moved id d0 d)
        (λ _ d. Marked env id d0 inv target (left env id d0 inv target) (sold env id d0 inv) d) _ _
        _ (release-Marked env id d0 inv target k h (covered refl)) (λ d e. e)
        (λ _ d m.
          Marked-Moved target _ _ d h (λ x. refl)
            (λ x. sym (held-marked_other env.now id target x d0.reservation_items hc)) m)
        (λ e p. p)
  release-Moved by_seats target kt k h hc covered = seats-Moved target k
  release-Moved (other_type _) target kt k h hc covered = cc

  confirm-Moved :
      (rt : ReservationType)
      → known_type rt ≡ true
      → (is_quantity rt ≡ true → has_item id d0.reservation_items ≡ true)
      → Triple (λ d. d ≡ d0) (confirm_inventory env rt id) (λ _ d. Moved id d0 d) (λ e. e ≡ failure)
  unfolding confirm_inventory is_quantity status_eq
  confirm-Moved by_quantity kt covered =
      Triple-weaken (λ d. d ≡ d0) (λ d. d ≡ d0) (λ _ d. Moved id d0 d)
        (λ _ d.
          Marked env id d0 inv confirmed (left env id d0 inv confirmed) (sold_after env id d0 inv)
            d)
        _ _ _ (confirm-Marked env id d0 inv (covered refl)) (λ d e. e)
        (λ _ d m. Marked-Moved confirmed _ _ d refl (λ x. refl) (λ x. refl) m) (λ e p. p)
  confirm-Moved by_seats kt covered = seats-Moved confirmed refl
  confirm-Moved (other_type _) kt covered = cc

  -- What a transition to `target` leaves: its row, and the database with the header retitled.
  abbrev pub MovedTo : Status → Reservation → Database → Type 0
  MovedTo target r d =
      Inv d
      × (d.reservations ≡ retitled env.now id target d0.reservations)
      × (r.status ≡ target)
      × (known_type r.reservation_type ≡ true)
      × ((other : Uuid)
          → same_uuid other id ≡ false
          → has_item other d.reservation_items ≡ has_item other d0.reservation_items)

  status-Triple :
      (target : Status)
      → known_status target ≡ true
      → status_eq target reserved ≡ false
      → exists env.now id target d0.reservations ≡ true
      → Triple
          (λ d. Moved id d0 d)
          (update_reservation_status env id target)
          (MovedTo target)
          (λ e. e ≡ failure)
  unfolding update_reservation_status
  status-Triple target k h found =
      Triple-statement env (λ _. change_status env.now id target)
        (λ _ d m.
          BodyPost-mono _ _ _ _ (change_status env.now id target d)
            (λ r d' p. rw p.0 (
              retitled-Inv env.now id target d0
                  (record d { reservations = retitled env.now id target d.reservations }) inv k h
                  (ap (retitled env.now id target) m.headers) m.counts m.ids m.positive m.known
                  m.owned m.held_by m.items m.seats,
              ap (retitled env.now id target) m.headers,
              p.1,
              p.2,
              m.items,
            ))
            (λ e p. p)
            (change_status-Post env.now id target d k (rw m.headers found)
              (rw m.headers inv.typed)))
        refl

-- A row that a query returned, on which a transition runs: it exists, is well-typed, and a reserved
-- item covers it if it is of tickets.
abbrev pub IsReady : Database → Reservation → Type 0
IsReady d r =
    (any (λ r'. same_uuid r'.id r.id) d.reservations ≡ true)
    × (known_type r.reservation_type ≡ true)
    × (is_quantity r.reservation_type ≡ true → has_item r.id d.reservation_items ≡ true)

module _ (env : Env) (d0 : Database) (inv : Inv d0) (r : Reservation) (ready : IsReady d0 r) where
  -- Only the server can make a transition fail, and it keeps the invariant.
  pub cancel_locked-Triple :
      Triple
        (λ d. d ≡ d0)
        (cancel_locked_reservation env r)
        (MovedTo env r.id d0 inv cancelled)
        (λ e. e ≡ failure)
  unfolding cancel_locked_reservation status_eq
  cancel_locked-Triple =
      Triple-bind _ _
        (release-Moved env r.id d0 inv r.reservation_type cancelled ready.1 refl refl refl ready.2)
        λ _. status-Triple env r.id d0 inv cancelled refl refl ready.0

  pub confirm_locked-Triple :
      Triple
        (λ d. d ≡ d0)
        (confirm_locked_reservation env r)
        (MovedTo env r.id d0 inv confirmed)
        (λ e. e ≡ failure)
  unfolding confirm_locked_reservation status_eq
  confirm_locked-Triple =
      Triple-bind _ _ (confirm-Moved env r.id d0 inv r.reservation_type ready.1 ready.2)
        λ _. status-Triple env r.id d0 inv confirmed refl refl ready.0

  pub expire_locked-Triple :
      Triple
        (λ d. d ≡ d0)
        (expire_locked_reservation env r)
        (MovedTo env r.id d0 inv expired)
        (λ e. e ≡ failure)
  unfolding expire_locked_reservation status_eq
  expire_locked-Triple =
      Triple-bind _ _
        (release-Moved env r.id d0 inv r.reservation_type expired ready.1 refl refl refl ready.2)
        λ _. status-Triple env r.id d0 inv expired refl refl ready.0
