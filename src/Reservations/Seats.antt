-- ===== src/Reservations/Seats.antt =====
-- `ReserveSeats` and its replay (internal/modules/reservations/service.go).
use study_ticket_reservation.Base.{ℕ, ◌+◌, not, List, [], ◌∷◌, if◌then◌else◌}
use study_ticket_reservation.Base.Text.{Text, trim_space}
use study_ticket_reservation.Db.Types.{Uuid, Timestamptz}
use study_ticket_reservation.Db.Tx.{
  seats_not_found, seat_unavailable, idempotency_key_conflict, idempotency_replay_required,
  is_unique_violation, Env, Action, pure, raise, lift, with_tx, ◌>>=◌, ◌>>◌,
}
use study_ticket_reservation.Sqlc.Models.{ReservationSeat, by_seats, reserved, VisitorSession}
use study_ticket_reservation.Sqlc.Database.{Database}
use study_ticket_reservation.Sqlc.Reservations.Headers.{
  create_reservation, lock_reservations_by_id, expire_reservations_by_ids,
}
use study_ticket_reservation.Sqlc.Reservations.Holds.{
  SeatReservationRow, lock_event_seats, create_reservation_seat,
  get_seat_reservation_by_idempotency_key, list_expired_active_reservation_ids_for_seats,
  expire_reservation_seats_by_reservation_ids,
}
use study_ticket_reservation.Reservations.Dto.{SeatReservationRequest, SeatReservationResponse}
use study_ticket_reservation.Reservations.Input.{parse_seat_input, same_uuid_set}
use study_ticket_reservation.Reservations.Responses.{
  seat_reservation_to_response, seat_rows_to_response,
}
use study_ticket_reservation.Reservations.Service.{Service, timestamp, instead, or_replay}

module _ (env : Env) where
  abbrev pub replay_rows : List SeatReservationRow → Action Database SeatReservationResponse
  replay_rows [] = raise idempotency_key_conflict
  replay_rows (row ∷ rows) = pure (seat_rows_to_response row rows)

  unfoldable pub replay_seats : Uuid → Text → Action Database SeatReservationResponse
  replay_seats session_id key = do
    rows ← get_seat_reservation_by_idempotency_key env session_id key
    replay_rows rows

module _ (env : Env) (session : VisitorSession) where
  -- The insertions into reservation_seats, in the order of the locked seats.
  unfoldable pub create_holds :
      (reservation_id : Uuid) (expires_at : Timestamptz)
      → List Uuid
      → Action Database (List ReservationSeat)
  create_holds reservation_id expires_at [] = pure []
  create_holds reservation_id expires_at (seat_id ∷ seat_ids) =
      let rest = create_holds reservation_id expires_at seat_ids in
      do
        row ← instead is_unique_violation seat_unavailable (
            create_reservation_seat env (record {
              reservation_id = reservation_id;
              seat_id = seat_id;
              status = reserved;
              expires_at = expires_at;
            }))
        rows ← rest
        pure (row ∷ rows)

  -- Holds whose deadline has passed make way, with their reservations.
  unfoldable pub expire_stale : List Uuid → Action Database (Unit {0})
  expire_stale [] = pure tt
  expire_stale (id ∷ ids) = do
    _ ← lock_reservations_by_id env (id ∷ ids)
    expire_reservation_seats_by_reservation_ids env (id ∷ ids)
    expire_reservations_by_ids env (id ∷ ids)

  -- The part of the transaction that takes the seats.
  unfoldable pub hold_seats :
      (event_id : Uuid) (seat_ids : List Uuid) (key : Text) (expires_at now : Timestamptz)
      → Action Database SeatReservationResponse
  unfolding create_holds expire_stale
  hold_seats event_id seat_ids key expires_at now = do
    locked ← lock_event_seats env event_id seat_ids
    if not (same_uuid_set locked seat_ids) then raise seats_not_found else do
      stale ← list_expired_active_reservation_ids_for_seats env seat_ids now
      expire_stale stale
      reservation ← instead is_unique_violation idempotency_replay_required (
          create_reservation env (record {
            event_id = event_id;
            visitor_session_id = session.id;
            user_id = session.user_id;
            status = reserved;
            reservation_type = by_seats;
            idempotency_key = key;
            expires_at = expires_at;
          }))
      rows ← create_holds reservation.id expires_at locked
      pure (seat_reservation_to_response reservation rows)

  unfoldable pub seats_unless_found :
      List SeatReservationRow
      → Action Database SeatReservationResponse
      → Action Database SeatReservationResponse
  seats_unless_found [] hold = hold
  seats_unless_found (row ∷ rows) hold = pure (seat_rows_to_response row rows)

  -- The transaction of ReserveSeats.
  unfoldable pub reserve_seats_tx :
      (event_id : Uuid) (seat_ids : List Uuid) (key : Text) (expires_at now : Timestamptz)
      → Action Database SeatReservationResponse
  unfolding hold_seats seats_unless_found
  reserve_seats_tx event_id seat_ids key expires_at now = do
    existing ← get_seat_reservation_by_idempotency_key env session.id key
    seats_unless_found existing (hold_seats event_id seat_ids key expires_at now)

  unfoldable pub reserve_seats :
      Service → (now later : ℕ) → SeatReservationRequest → Action Database SeatReservationResponse
  unfolding reserve_seats_tx
  reserve_seats s now later input = do
    (event_id, seat_ids) ← lift (parse_seat_input s.scan input)
    let key = trim_space input.idempotency_key
    or_replay
        (with_tx env (
          reserve_seats_tx event_id seat_ids key (timestamp (now + s.reservation_ttl))
            (timestamp later)))
        (replay_seats env session.id key)
