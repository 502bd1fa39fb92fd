-- ===== src/Sqlc/Database.antt =====
-- The tables, and the constraints of db/migrations/000001_init.up.sql that the queries can meet.
-- A table is a list of rows, newest first; what a query returns is ordered by its ORDER BY.
use study_ticket_reservation.Base.{
  ℕ, Bool, true, false, not, ◌&&◌, List, [], ◌∷◌, any, if◌then◌else◌,
}
use study_ticket_reservation.Base.Int.{pos, ◌+ℤ◌, leb_ℤ}
use study_ticket_reservation.Base.Text.{text_eq}
use study_ticket_reservation.Db.Types.{Uuid, same_uuid}
use study_ticket_reservation.Db.Tx.{no_rows, Result, ok, err}
use study_ticket_reservation.Sqlc.Models.{
  Event, Reservation, ReservationItem, ReservationSeat, ReservationType, by_quantity, by_seats,
  Seat, Status, reserved, confirmed, cancelled, expired, TicketType, User, VisitorSession,
}

pub record Database : Type 0 where
  pub users : List User
  pub visitor_sessions : List VisitorSession
  pub events : List Event
  pub ticket_types : List TicketType
  pub seats : List Seat
  pub reservations : List Reservation
  pub reservation_items : List ReservationItem
  pub reservation_seats : List ReservationSeat

-- Row operations of SQL.
module _ {A : Type 0} where
  -- `UPDATE ... SET change WHERE test`.
  abbrev pub update_where : (A → Bool) → (A → A) → List A → List A
  update_where test change [] = []
  update_where test change (x ∷ xs) = (if test x then change x else x) ∷ update_where test change xs

  -- A `:one` query: the first row, or `pgx.ErrNoRows`.
  abbrev pub one : List A → Result A
  one [] = err no_rows
  one (x ∷ xs) = ok x

-- `id = ANY(ids)`.
abbrev pub any_id : Uuid → List Uuid → Bool
any_id id ids = any (same_uuid id) ids

-- ck_*_status and ck_reservations_reservation_type.
abbrev pub known_status : Status → Bool
known_status reserved = true
known_status confirmed = true
known_status cancelled = true
known_status expired = true
known_status _ = false

abbrev pub known_type : ReservationType → Bool
known_type by_quantity = true
known_type by_seats = true
known_type _ = false

-- The statuses of uq_active_reservation_seat.
abbrev pub is_active : Status → Bool
is_active reserved = true
is_active confirmed = true
is_active _ = false

-- ck_ticket_types_*, and the range of the integer column that bounds the other two.
unfoldable pub ticket_check : TicketType → Bool
ticket_check t =
    leb_ℤ (pos 0) t.total_quantity
    && leb_ℤ (pos 0) t.sold_quantity
    && leb_ℤ (pos 0) t.reserved_quantity
    && leb_ℤ (t.sold_quantity +ℤ t.reserved_quantity) t.total_quantity
    && leb_ℤ t.total_quantity (pos 2147483647)

-- uq_active_reservation_seat: no seat has two active rows.
abbrev pub holds_seat : Uuid → ReservationSeat → Bool
holds_seat seat row = is_active row.status && same_uuid row.seat_id seat

unfoldable pub active_seats_unique : List ReservationSeat → Bool
active_seats_unique [] = true
active_seats_unique (row ∷ rows) =
    not (is_active row.status && any (holds_seat row.seat_id) rows) && active_seats_unique rows

-- uq_reservations_visitor_session_id_idempotency_key.
abbrev pub has_key : Uuid → List ℕ → Reservation → Bool
has_key session key r = same_uuid r.visitor_session_id session && text_eq r.idempotency_key key
