-- ===== src/Inventory/Seats.antt =====
-- ReserveSeats: the stale holds that make way, and the rows that a request inserts.
use mathlib.Core.Path.{ap₂, subst, sym}
use study_ticket_reservation.Base.{
  ◌≡◌, refl, ap, ◌∙◌, Bool, false, ◌&&◌, List, [], ◌∷◌, map, All, arith, inl, inr, Bool-cases,
}
use study_ticket_reservation.Db.Types.{Uuid, Timestamptz}
use study_ticket_reservation.Db.Tx.{Env}
use study_ticket_reservation.Db.Triples.{
  BodyPost-mono, Triple, Triple-statement, Triple-reading, Triple-bind, Triple-pure, Triple-each,
  Triple-on_error,
}
use study_ticket_reservation.Sqlc.Models.{
  Reservation, ReservationSeat, reserved, expired, status_eq, is_quantity, VisitorSession,
}
use study_ticket_reservation.Sqlc.Database.{Database, update_where, any_id}
use study_ticket_reservation.Sqlc.Reservations.Headers.{
  CreateReservationParams, set_status, expire_headers, expire_reservations_by_ids,
  lock_reservations_by_id,
}
use study_ticket_reservation.Sqlc.Reservations.Holds.{
  CreateReservationSeatParams, insert_seat_row, create_reservation_seat, set_seat_status,
  change_seats, expire_reservation_seats_by_reservation_ids,
}
use study_ticket_reservation.Reservations.Seats.{create_holds, expire_stale}
use study_ticket_reservation.Inventory.Tables.{All-mono, All-update_where, map-update_where}
use study_ticket_reservation.Inventory.Invariant.{
  IsOwned, IsHeld, reservation_ids, Inv, IsTyped, IsCovered,
}
use study_ticket_reservation.Inventory.Inserts.{IsNewHeader}
use study_ticket_reservation.Inventory.Quantity.{absent-ids}
use study_ticket_reservation.Inventory.SeatRows.{AddsSeatRow, insert_seat_row-Post, seat_row-Inv}
use study_ticket_reservation.Inventory.Holds.{reseated-active_seats_unique, change_seats-Post}

module _ (now : Timestamptz) (ids : List Uuid) where
  -- The rows that `reservation_id = ANY(ids) AND status = 'reserved'` finds.
  abbrev pub is_stale_row : ReservationSeat → Bool
  is_stale_row row = any_id row.reservation_id ids && status_eq row.status reserved

  abbrev pub is_stale_header : Reservation → Bool
  is_stale_header r = any_id r.id ids && status_eq r.status reserved

  -- The database after the reservations `ids` expired.
  abbrev pub expired_by_ids : Database → Database
  expired_by_ids d = record d {
    reservations = update_where is_stale_header (set_status now expired) d.reservations;
    reservation_seats = update_where is_stale_row (set_seat_status now expired) d.reservation_seats;
  }

  pub expired_by_ids-Inv : (d : Database) → Inv d → Inv (expired_by_ids d)
  unfolding status_eq
  expired_by_ids-Inv d inv = record {
    counted = inv.counted;
    distinct_tickets = inv.distinct_tickets;
    positive = inv.positive;
    known = inv.known;
    owned =
        subst (λ ids. All (IsOwned ids) d.reservation_items)
          (sym (
            map-update_where (λ r. r.id) is_stale_header (set_status now expired) d.reservations
              (λ r. refl)))
          inv.owned;
    owned_seats =
        subst
          (λ ids.
            All (IsHeld ids)
              (update_where is_stale_row (set_seat_status now expired) d.reservation_seats))
          (sym (
            map-update_where (λ r. r.id) is_stale_header (set_status now expired) d.reservations
              (λ r. refl)))
          (All-update_where (IsHeld (reservation_ids d)) (IsHeld (reservation_ids d)) is_stale_row
            (set_seat_status now expired) d.reservation_seats (λ row p. ground arith)
            inv.owned_seats);
    distinct_reservations =
        rw
          (map-update_where (λ r. r.id) is_stale_header (set_status now expired) d.reservations
            (λ r. refl))
          inv.distinct_reservations;
    typed =
        All-update_where IsTyped IsTyped is_stale_header (set_status now expired) d.reservations
          (λ r t. elim (Bool-cases (is_stale_header r)) [
            | inl stale ↦ rw stale (refl, t.1, t.2)
            | inr other ↦ rw other t
          ])
          inv.typed;
    covered =
        All-update_where (IsCovered d.reservation_items) (IsCovered d.reservation_items)
          is_stale_header (set_status now expired) d.reservations
          (λ r c. elim (Bool-cases (is_stale_header r)) [
            | inl stale ↦ rw stale (ground arith)
            | inr other ↦ rw other c
          ])
          inv.covered;
    exclusive =
        reseated-active_seats_unique now expired is_stale_row (λ row h. ground arith)
          d.reservation_seats inv.exclusive;
  }

-- Without stale holds no statement runs.
abbrev pub made_way : Timestamptz → List Uuid → Database → Database
made_way now [] d = d
made_way now (id ∷ ids) d = expired_by_ids now (id ∷ ids) d

pub made_way-Inv :
    (now : Timestamptz) (ids : List Uuid) (d : Database) → Inv d → Inv (made_way now ids d)
made_way-Inv now [] d inv = inv
made_way-Inv now (id ∷ ids) d inv = expired_by_ids-Inv now (id ∷ ids) d inv

-- A new header of a reservation of seats needs no item.
pub seats_header-Inv :
    (now : Timestamptz) (arg : CreateReservationParams) (d : Database) (r : Reservation)
    → is_quantity r.reservation_type ≡ false
    → IsNewHeader now arg d r
    → Inv d
    → Inv (record d { reservations = r ∷ d.reservations })
seats_header-Inv now arg d r q new inv = record {
  counted = inv.counted;
  distinct_tickets = inv.distinct_tickets;
  positive = inv.positive;
  known = inv.known;
  owned =
      All-mono (IsOwned (reservation_ids d)) (IsOwned (r.id ∷ reservation_ids d))
        d.reservation_items (λ i o. ground arith) inv.owned;
  owned_seats =
      All-mono (IsHeld (reservation_ids d)) (IsHeld (r.id ∷ reservation_ids d)) d.reservation_seats
        (λ i o. ground arith) inv.owned_seats;
  distinct_reservations = (absent-ids r.id d.reservations new.unused, inv.distinct_reservations);
  typed = ((rw new.row new.typed.0, rw new.row new.typed.1, new.valid), inv.typed);
  covered = (rw q refl, inv.covered);
  exclusive = inv.exclusive;
}

module _ (env : Env) (session : VisitorSession) where
  -- Making way for a request keeps the invariant.
  pub expire_stale-Triple :
      (ids : List Uuid) (d0 : Database)
      → Inv d0
      → Triple
          (λ d. d ≡ d0)
          (expire_stale env session ids)
          (λ _ d. d ≡ made_way env.now ids d0)
          (λ _. Unit {0})
  unfolding expire_stale lock_reservations_by_id expire_reservation_seats_by_reservation_ids
      expire_reservations_by_ids expire_headers
  expire_stale-Triple [] d0 inv = Triple-pure tt (λ d e. e)
  expire_stale-Triple (id ∷ ids) d0 inv =
      Triple-bind {R = λ _ d. d ≡ d0} _ _ (Triple-reading env _ (λ d e. e) tt) λ _.
        Triple-bind
          {R = λ _ d. d ≡ record d0 {
            reservation_seats =
                update_where (is_stale_row env.now (id ∷ ids)) (set_seat_status env.now expired)
                  d0.reservation_seats;
          }}
          _ _
          (Triple-statement env
            (λ _. change_seats env.now expired (is_stale_row env.now (id ∷ ids)))
            (λ _ d e. rw e (
              BodyPost-mono _ _ _ _
                (change_seats env.now expired (is_stale_row env.now (id ∷ ids)) d0) (λ _ d' h. h)
                (λ e h. tt)
                (change_seats-Post env.now expired (is_stale_row env.now (id ∷ ids))
                  (λ row h. ground arith) d0 refl inv.exclusive)))
            tt)
          λ _. Triple-statement env (λ _. expire_headers env.now (id ∷ ids)) (λ _ d e. rw e refl) tt

  -- The rows of the request, on top of the table.
  abbrev pub pushed : List ReservationSeat → List ReservationSeat → List ReservationSeat
  pushed [] table = table
  pushed (row ∷ rows) table = pushed rows (row ∷ table)

  -- One row for each seat, held by the reservation.
  abbrev pub AddsHolds :
      Uuid → Timestamptz → List Uuid → Database → List ReservationSeat → Database → Type 0
  AddsHolds id expires_at seat_ids d0 rows d =
      (d ≡ record d0 { reservation_seats = pushed rows d0.reservation_seats })
      × (map (λ row. row.seat_id) rows ≡ seat_ids)
      × All (λ row. (row.reservation_id ≡ id) × (row.status ≡ reserved)) rows

  pub create_holds-Triple :
      (id : Uuid) (expires_at : Timestamptz) (seat_ids : List Uuid) (d0 : Database)
      → Inv d0
      → Triple
          (λ d. d ≡ d0)
          (create_holds env session id expires_at seat_ids)
          (λ rows d. Inv d × AddsHolds id expires_at seat_ids d0 rows d)
          (λ _. Unit {0})
  unfolding create_holds create_reservation_seat
  create_holds-Triple id expires_at [] d0 inv = Triple-pure [] (λ d e. (rw e inv, (e, refl, tt)))
  create_holds-Triple id expires_at (seat ∷ seats) d0 inv =
      let arg : CreateReservationSeatParams = record {
        reservation_id = id;
        seat_id = seat;
        status = reserved;
        expires_at = expires_at;
      } in
      Triple-bind {R = AddsSeatRow env.now arg d0} _ _
        (Triple-on_error {F = λ _. Unit {0}} _ _
          (Triple-statement env (insert_seat_row env.now arg)
            (λ x d e. rw e (insert_seat_row-Post env.now arg x d0)) tt)
          (λ e h. tt))
        λ row. Triple-each _ _ _ _ λ d1 added.
          Triple-bind _ _
            (create_holds-Triple id expires_at seats d1
              (seat_row-Inv env.now arg d0 d1 row added inv))
            λ rows. Triple-pure (row ∷ rows) (λ d h. (
              h.0,
              (
                h.1.0
                    ∙ ap {A = Database} {B = Database}
                        (λ x. record x { reservation_seats = pushed rows x.reservation_seats })
                        added.0,
                ap₂ (λ x xs. x ∷ xs) (ap (λ x. x.seat_id) added.1) h.1.1,
                ((ap (λ x. x.reservation_id) added.1, ap (λ x. x.status) added.1), h.1.2),
              ),
            ))
