-- ===== src/Sqlc/Reservations/Headers.antt =====
-- The queries on reservations: creation, reads, locks and status changes of the header row.
use study_ticket_reservation.Base.{
  Bool, not, ◌&&◌, ◌||◌, List, ◌∷◌, map, any, select, sort_by, take, ltb, ◌==◌, if◌then◌else◌,
}
use study_ticket_reservation.Base.Int.{ℤ, pos, negsuc}
use study_ticket_reservation.Base.Text.{Text}
use study_ticket_reservation.Db.Types.{Uuid, Timestamptz, same_uuid, uuid_le, time_lt}
use study_ticket_reservation.Db.Tx.{
  unique_violation, constraint_violation, Result, ok, err, Env, Action, reading, statement,
}
use study_ticket_reservation.Sqlc.Models.{
  Reservation, ReservationType, Status, reserved, expired, status_eq,
}
use study_ticket_reservation.Sqlc.Database.{
  Database, update_where, any_id, known_status, known_type, has_key, one,
}

pub record CreateReservationParams : Type 0 where
  pub event_id : Uuid
  pub visitor_session_id : Uuid
  pub user_id : Uuid
  pub status : Status
  pub reservation_type : ReservationType
  pub idempotency_key : Text
  pub expires_at : Timestamptz

-- The row that INSERT makes, with the column defaults.
abbrev pub new_reservation : Timestamptz → Uuid → CreateReservationParams → Reservation
new_reservation now id arg = record {
  id = id;
  event_id = arg.event_id;
  visitor_session_id = arg.visitor_session_id;
  user_id = arg.user_id;
  status = arg.status;
  reservation_type = arg.reservation_type;
  idempotency_key = arg.idempotency_key;
  expires_at = arg.expires_at;
  created_at = now;
  updated_at = now;
}

-- NOT NULL and CHECK.
unfoldable pub reservation_check : CreateReservationParams → Bool
reservation_check arg =
    known_status arg.status && known_type arg.reservation_type && arg.expires_at.valid

-- The primary key, and one key for each visitor session.
unfoldable pub reservation_taken : Uuid → CreateReservationParams → Database → Bool
reservation_taken id arg d =
    any (λ r. same_uuid r.id id || has_key arg.visitor_session_id arg.idempotency_key r)
      d.reservations

-- FOREIGN KEY; a user may be NULL.
unfoldable pub reservation_refers : CreateReservationParams → Database → Bool
reservation_refers arg d =
    any (λ e. same_uuid e.id arg.event_id) d.events
    && any (λ s. same_uuid s.id arg.visitor_session_id) d.visitor_sessions
    && (not arg.user_id.valid || any (λ u. same_uuid u.id arg.user_id) d.users)

unfoldable pub insert_reservation :
    Timestamptz → CreateReservationParams → Uuid → Database → Result (Reservation × Database)
unfolding reservation_check reservation_taken reservation_refers
insert_reservation now arg id d =
    if not (id.valid && reservation_check arg)
    then err constraint_violation
    else if reservation_taken id arg d
    then err unique_violation
    else if not (reservation_refers arg d)
    then err constraint_violation
    else (let row = new_reservation now id arg in
        ok (row, record d { reservations = row ∷ d.reservations }))

abbrev pub set_status : Timestamptz → Status → Reservation → Reservation
set_status now status r = record r { status = status; updated_at = now }

-- `SELECT ... WHERE test`, as a `:one` query, leaves the database as it is.
abbrev pub select_one : (Reservation → Bool) → Database → Result (Reservation × Database)
select_one test d = elim (one (select test d.reservations)) [ ok r ↦ ok (r, d) | err e ↦ err e ]

-- `UPDATE reservations SET status WHERE id`, with the row that it returns.
unfoldable pub change_status :
    Timestamptz → Uuid → Status → Database → Result (Reservation × Database)
change_status now id status d =
    if not (known_status status)
    then err constraint_violation
    else select_one (λ r. same_uuid r.id id)
        (record d {
          reservations =
              update_where (λ r. same_uuid r.id id) (set_status now status) d.reservations;
        })

-- ORDER BY expires_at, id.
abbrev pub expiry_le : Reservation → Reservation → Bool
expiry_le a b =
    ltb a.expires_at.time b.expires_at.time
    || (a.expires_at.time == b.expires_at.time && uuid_le a.id b.id)

abbrev pub is_overdue : Timestamptz → Reservation → Bool
is_overdue now r = status_eq r.status reserved && time_lt r.expires_at now

-- `LIMIT` refuses a negative number.
unfoldable pub overdue_batch :
    (Uuid → Bool) → Timestamptz → ℤ → Database → Result (List Reservation × Database)
overdue_batch locked now (pos limit) d = ok (
  take limit (
      select (λ r. not (locked r.id)) (sort_by expiry_le (select (is_overdue now) d.reservations))),
  d,
)
overdue_batch locked now (negsuc _) d = err constraint_violation

-- `UPDATE reservations SET status = 'expired' WHERE id = ANY(ids) AND status = 'reserved'`.
unfoldable pub expire_headers : Timestamptz → List Uuid → Database → Result (Unit {0} × Database)
expire_headers now ids d = ok (
  tt,
  record d {
    reservations =
        update_where (λ r. any_id r.id ids && status_eq r.status reserved) (set_status now expired)
          d.reservations;
  },
)

module _ (env : Env) where
  unfoldable pub create_reservation : CreateReservationParams → Action Database Reservation
  unfolding statement insert_reservation
  create_reservation arg = statement env (insert_reservation env.now arg)

  unfoldable pub get_reservation_by_id : Uuid → Action Database Reservation
  unfolding statement
  get_reservation_by_id id = statement env λ _. select_one λ r. same_uuid r.id id

  unfoldable pub get_reservation_by_idempotency_key : Uuid → Text → Action Database Reservation
  unfolding statement
  get_reservation_by_idempotency_key session key =
      statement env λ _. select_one (has_key session key)

  -- FOR UPDATE makes other transactions wait for this row.
  unfoldable pub lock_reservation_for_update : Uuid → Action Database Reservation
  unfolding statement
  lock_reservation_for_update id = statement env λ _. select_one λ r. same_uuid r.id id

  unfoldable pub lock_reservations_by_id : List Uuid → Action Database (List Uuid)
  unfolding statement
  lock_reservations_by_id ids = statement env (
      reading λ d. sort_by uuid_le (map (λ r. r.id) (select (λ r. any_id r.id ids) d.reservations)))

  unfoldable pub list_expired_reservations_for_update :
      (expires_at : Timestamptz) (limit : ℤ) → Action Database (List Reservation)
  unfolding statement overdue_batch
  list_expired_reservations_for_update expires_at limit =
      statement env λ _. overdue_batch env.locked expires_at limit

  unfoldable pub update_reservation_status : Uuid → Status → Action Database Reservation
  unfolding statement change_status
  update_reservation_status id status = statement env λ _. change_status env.now id status

  unfoldable pub expire_reservations_by_ids : List Uuid → Action Database (Unit {0})
  unfolding statement expire_headers
  expire_reservations_by_ids ids = statement env λ _. expire_headers env.now ids
