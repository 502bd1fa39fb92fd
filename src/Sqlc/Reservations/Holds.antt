-- ===== src/Sqlc/Reservations/Holds.antt =====
-- The queries on seats and reservation_seats. A row of reservation_seats with an active status holds
-- its seat, and uq_active_reservation_seat allows one such row for a seat.
use mathlib.Core.List.{flat_map}
use study_ticket_reservation.Base.{
  Bool, not, ◌&&◌, ◌||◌, List, [], ◌∷◌, map, any, select, sort_by, if◌then◌else◌,
}
use study_ticket_reservation.Base.Text.{Text}
use study_ticket_reservation.Db.Types.{Uuid, Timestamptz, same_uuid, uuid_le, time_le}
use study_ticket_reservation.Db.Tx.{
  unique_violation, constraint_violation, Result, ok, err, Env, Action, reading, statement,
}
use study_ticket_reservation.Sqlc.Models.{
  Reservation, ReservationSeat, ReservationType, Status, reserved, expired, status_eq, is_seats,
}
use study_ticket_reservation.Sqlc.Database.{
  Database, update_where, any_id, known_status, is_active, holds_seat, active_seats_unique, has_key,
}

pub record CreateReservationSeatParams : Type 0 where
  pub reservation_id : Uuid
  pub seat_id : Uuid
  pub status : Status
  pub expires_at : Timestamptz

abbrev pub new_seat_row : Timestamptz → Uuid → CreateReservationSeatParams → ReservationSeat
new_seat_row now id arg = record {
  id = id;
  reservation_id = arg.reservation_id;
  seat_id = arg.seat_id;
  status = arg.status;
  expires_at = arg.expires_at;
  created_at = now;
  updated_at = now;
}

unfoldable pub seat_row_check : CreateReservationSeatParams → Bool
seat_row_check arg = known_status arg.status && arg.expires_at.valid

-- The primary key, and uq_active_reservation_seat.
unfoldable pub seat_row_taken : Uuid → CreateReservationSeatParams → Database → Bool
seat_row_taken id arg d =
    any (λ row. same_uuid row.id id) d.reservation_seats
    || (is_active arg.status && any (holds_seat arg.seat_id) d.reservation_seats)

unfoldable pub seat_row_refers : CreateReservationSeatParams → Database → Bool
seat_row_refers arg d =
    any (λ r. same_uuid r.id arg.reservation_id) d.reservations
    && any (λ s. same_uuid s.id arg.seat_id) d.seats

unfoldable pub insert_seat_row :
    Timestamptz
    → CreateReservationSeatParams
    → Uuid
    → Database
    → Result (ReservationSeat × Database)
unfolding seat_row_check seat_row_taken seat_row_refers
insert_seat_row now arg id d =
    if not (id.valid && seat_row_check arg)
    then err constraint_violation
    else if seat_row_taken id arg d
    then err unique_violation
    else if not (seat_row_refers arg d)
    then err constraint_violation
    else (let row = new_seat_row now id arg in
        ok (row, record d { reservation_seats = row ∷ d.reservation_seats }))

pub record SeatReservationRow : Type 0 where
  pub reservation_id : Uuid
  pub status : Status
  pub reservation_type : ReservationType
  pub expires_at : Timestamptz
  pub seat_id : Uuid

abbrev pub joined_seat : Reservation → ReservationSeat → SeatReservationRow
joined_seat r row = record {
  reservation_id = r.id;
  status = r.status;
  reservation_type = r.reservation_type;
  expires_at = r.expires_at;
  seat_id = row.seat_id;
}

-- `reservations AS r JOIN reservation_seats AS rs ON rs.reservation_id = r.id WHERE ...`, ordered by
-- rs.seat_id.
unfoldable pub seat_rows : Uuid → Text → Database → List SeatReservationRow
seat_rows session key d =
    sort_by (λ a b. uuid_le a.seat_id b.seat_id)
      (flat_map
        (λ r.
          map (joined_seat r)
            (select (λ row. same_uuid row.reservation_id r.id) d.reservation_seats))
        (select (λ r. has_key session key r && is_seats r.reservation_type) d.reservations))

-- SELECT DISTINCT.
unfoldable pub distinct : List Uuid → List Uuid
distinct [] = []
distinct (id ∷ ids) = let rest = distinct ids in if any_id id rest then rest else id ∷ rest

-- A hold on one of the seats whose deadline has passed.
abbrev pub is_stale_hold : List Uuid → Timestamptz → ReservationSeat → Bool
is_stale_hold seat_ids now row =
    any_id row.seat_id seat_ids && status_eq row.status reserved && time_le row.expires_at now

abbrev pub hold_le : ReservationSeat → ReservationSeat → Bool
hold_le a b =
    not (uuid_le b.seat_id a.seat_id) || (uuid_le a.seat_id b.seat_id && uuid_le a.id b.id)

abbrev pub seats_of : Uuid → Database → List ReservationSeat
seats_of id d =
    sort_by hold_le (select (λ row. same_uuid row.reservation_id id) d.reservation_seats)

abbrev pub set_seat_status : Timestamptz → Status → ReservationSeat → ReservationSeat
set_seat_status now status row = record row { status = status; updated_at = now }

-- `UPDATE reservation_seats SET status WHERE test`: the CHECK and the unique index must still hold.
unfoldable pub change_seats :
    Timestamptz → Status → (ReservationSeat → Bool) → Database → Result (Unit {0} × Database)
change_seats now status test d =
    let changed = update_where test (set_seat_status now status) d.reservation_seats in
    if not (known_status status)
    then err constraint_violation
    else if not (active_seats_unique changed)
    then err unique_violation
    else ok (tt, record d { reservation_seats = changed })

-- The seats of the event among `ids`.
unfoldable pub lockable : (event_id : Uuid) (ids : List Uuid) → Database → List Uuid
lockable event_id ids d =
    sort_by uuid_le
      (map (λ s. s.id) (select (λ s. same_uuid s.event_id event_id && any_id s.id ids) d.seats))

unfoldable pub stale_reservations : (seat_ids : List Uuid) → Timestamptz → Database → List Uuid
unfolding distinct
stale_reservations seat_ids now d = sort_by uuid_le (
    distinct
      (map (λ row. row.reservation_id) (select (is_stale_hold seat_ids now) d.reservation_seats)))

module _ (env : Env) where
  unfoldable pub lock_event_seats :
      (event_id : Uuid) (ids : List Uuid) → Action Database (List Uuid)
  unfolding statement lockable
  lock_event_seats event_id ids = statement env (reading (lockable event_id ids))

  unfoldable pub create_reservation_seat :
      CreateReservationSeatParams → Action Database ReservationSeat
  unfolding statement insert_seat_row
  create_reservation_seat arg = statement env (insert_seat_row env.now arg)

  unfoldable pub get_seat_reservation_by_idempotency_key :
      Uuid → Text → Action Database (List SeatReservationRow)
  unfolding statement seat_rows
  get_seat_reservation_by_idempotency_key session key =
      statement env (reading (seat_rows session key))

  unfoldable pub list_expired_active_reservation_ids_for_seats :
      List Uuid → Timestamptz → Action Database (List Uuid)
  unfolding statement stale_reservations
  list_expired_active_reservation_ids_for_seats seat_ids expires_at =
      statement env (reading (stale_reservations seat_ids expires_at))

  unfoldable pub list_reservation_seats : Uuid → Action Database (List ReservationSeat)
  unfolding statement
  list_reservation_seats id = statement env (reading (seats_of id))

  -- The new status of the rows of a reservation that have the status `from`.
  unfoldable pub update_reservation_seats_status :
      (reservation_id : Uuid) (status from : Status) → Action Database (Unit {0})
  unfolding statement change_seats
  update_reservation_seats_status id status from = statement env λ _.
      change_seats env.now status
        (λ row. same_uuid row.reservation_id id && status_eq row.status from)

  unfoldable pub expire_reservation_seats_by_reservation_ids :
      List Uuid → Action Database (Unit {0})
  unfolding statement change_seats
  expire_reservation_seats_by_reservation_ids ids = statement env λ _.
      change_seats env.now expired
        (λ row. any_id row.reservation_id ids && status_eq row.status reserved)
