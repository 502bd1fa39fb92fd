-- ===== src/Sqlc/Consistency.antt =====
-- The queries that look for violations of the inventory's rules (internal/sqlc/stress_admin.sql.go).
use study_ticket_reservation.Base.{ℕ, Bool, not, ◌||◌, List, map, length, any, select, sort_by, ltb}
use study_ticket_reservation.Base.Int.{ℤ, pos, ◌+ℤ◌, leb_ℤ}
use study_ticket_reservation.Db.Types.{Uuid, Timestamptz, same_uuid, uuid_le}
use study_ticket_reservation.Db.Tx.{Env, Action, reading, statement}
use study_ticket_reservation.Sqlc.Models.{ReservationSeat, Status, TicketType}
use study_ticket_reservation.Sqlc.Database.{Database, is_active, holds_seat}
use study_ticket_reservation.Sqlc.Reservations.Headers.{is_overdue, expiry_le}
use study_ticket_reservation.Sqlc.Reservations.Holds.{distinct}

pub record TicketQuantityRow : Type 0 where
  pub id : Uuid
  pub total_quantity : ℤ
  pub sold_quantity : ℤ
  pub reserved_quantity : ℤ

pub record DuplicateActiveSeatRow : Type 0 where
  pub seat_id : Uuid
  pub active_count : ℕ

pub record OrphanReservationItemRow : Type 0 where
  pub reservation_item_id : Uuid
  pub reservation_id : Uuid

pub record OrphanReservationSeatRow : Type 0 where
  pub reservation_seat_id : Uuid
  pub reservation_id : Uuid

pub record StaleReservationRow : Type 0 where
  pub id : Uuid
  pub status : Status
  pub expires_at : Timestamptz

abbrev quantities : TicketType → TicketQuantityRow
quantities t = record {
  id = t.id;
  total_quantity = t.total_quantity;
  sold_quantity = t.sold_quantity;
  reserved_quantity = t.reserved_quantity;
}

abbrev pub is_negative : TicketType → Bool
is_negative t =
    not (leb_ℤ (pos 0) t.total_quantity)
    || not (leb_ℤ (pos 0) t.sold_quantity)
    || not (leb_ℤ (pos 0) t.reserved_quantity)

abbrev pub is_oversold : TicketType → Bool
is_oversold t = not (leb_ℤ (t.sold_quantity +ℤ t.reserved_quantity) t.total_quantity)

-- `SELECT ... FROM ticket_types WHERE test ORDER BY id`.
abbrev pub quantity_rows : (TicketType → Bool) → Database → List TicketQuantityRow
quantity_rows test d =
    map quantities (sort_by (λ a b. uuid_le a.id b.id) (select test d.ticket_types))

abbrev pub count_active : List ReservationSeat → Uuid → ℕ
count_active rows id = length (select (holds_seat id) rows)

-- GROUP BY seat_id HAVING COUNT(*) > 1 ORDER BY seat_id.
unfoldable pub duplicate_seats : Database → List DuplicateActiveSeatRow
unfolding distinct
duplicate_seats d =
    map (λ id. record { seat_id = id; active_count = count_active d.reservation_seats id })
      (sort_by uuid_le (
        select (λ id. ltb 1 (count_active d.reservation_seats id))
          (distinct
            (map (λ row. row.seat_id) (select (λ row. is_active row.status) d.reservation_seats)))))

-- A LEFT JOIN on the reservation that finds none.
abbrev pub is_orphan : (reservation_id : Uuid) → Database → Bool
is_orphan reservation_id d = not (any (λ r. same_uuid r.id reservation_id) d.reservations)

unfoldable pub orphan_items : Database → List OrphanReservationItemRow
orphan_items d =
    map (λ i. record { reservation_item_id = i.id; reservation_id = i.reservation_id })
      (sort_by (λ a b. uuid_le a.id b.id)
        (select (λ i. is_orphan i.reservation_id d) d.reservation_items))

unfoldable pub orphan_seats : Database → List OrphanReservationSeatRow
orphan_seats d =
    map (λ row. record { reservation_seat_id = row.id; reservation_id = row.reservation_id })
      (sort_by (λ a b. uuid_le a.id b.id)
        (select (λ row. is_orphan row.reservation_id d) d.reservation_seats))

unfoldable pub stale_rows : Timestamptz → Database → List StaleReservationRow
stale_rows threshold d =
    map (λ r. record { id = r.id; status = r.status; expires_at = r.expires_at })
      (sort_by expiry_le (select (is_overdue threshold) d.reservations))

module _ (env : Env) where
  unfoldable pub list_duplicate_active_seat_violations :
      Action Database (List DuplicateActiveSeatRow)
  unfolding statement duplicate_seats
  list_duplicate_active_seat_violations = statement env (reading duplicate_seats)

  unfoldable pub list_negative_ticket_quantity_violations : Action Database (List TicketQuantityRow)
  unfolding statement
  list_negative_ticket_quantity_violations = statement env (reading (quantity_rows is_negative))

  unfoldable pub list_oversold_ticket_quantity_violations : Action Database (List TicketQuantityRow)
  unfolding statement
  list_oversold_ticket_quantity_violations = statement env (reading (quantity_rows is_oversold))

  unfoldable pub list_orphan_reservation_item_violations :
      Action Database (List OrphanReservationItemRow)
  unfolding statement orphan_items
  list_orphan_reservation_item_violations = statement env (reading orphan_items)

  unfoldable pub list_orphan_reservation_seat_violations :
      Action Database (List OrphanReservationSeatRow)
  unfolding statement orphan_seats
  list_orphan_reservation_seat_violations = statement env (reading orphan_seats)

  unfoldable pub list_stale_expired_active_reservation_violations :
      (threshold : Timestamptz) → Action Database (List StaleReservationRow)
  unfolding statement stale_rows
  list_stale_expired_active_reservation_violations threshold =
      statement env (reading (stale_rows threshold))
