-- ===== src/Reservations/Quantity.antt =====
-- `ReserveQuantity` and its replay (internal/modules/reservations/service.go).
use study_ticket_reservation.Base.{ℕ, ◌+◌, if◌then◌else◌}
use study_ticket_reservation.Base.Int.{ℤ}
use study_ticket_reservation.Base.Text.{Text, trim_space}
use study_ticket_reservation.Db.Types.{Uuid, Timestamptz}
use study_ticket_reservation.Db.Tx.{
  insufficient_stock, idempotency_key_conflict, idempotency_replay_required, Result, ok, err,
  is_no_rows, is_unique_violation, Env, Action, pure, raise, lift, attempt, with_tx, ◌>>=◌, ◌>>◌,
}
use study_ticket_reservation.Sqlc.Models.{by_quantity, reserved, VisitorSession}
use study_ticket_reservation.Sqlc.Database.{Database}
use study_ticket_reservation.Sqlc.Reservations.Stock.{reserve_ticket_quantity}
use study_ticket_reservation.Sqlc.Reservations.Headers.{create_reservation}
use study_ticket_reservation.Sqlc.Reservations.Items.{
  QuantityReservationRow, create_reservation_item, get_quantity_reservation_by_idempotency_key,
}
use study_ticket_reservation.Reservations.Dto.{
  QuantityReservationRequest, QuantityReservationResponse,
}
use study_ticket_reservation.Reservations.Input.{parse_quantity_input}
use study_ticket_reservation.Reservations.Responses.{
  quantity_reservation_to_response, quantity_row_to_response,
}
use study_ticket_reservation.Reservations.Service.{Service, timestamp, instead, or_replay}

module _ (env : Env) where
  -- The first row with the key, or a conflict: the key was used for a reservation of seats.
  unfoldable pub replay_quantity : Uuid → Text → Action Database QuantityReservationResponse
  replay_quantity session_id key = do
    row ←
        instead is_no_rows idempotency_key_conflict
          (get_quantity_reservation_by_idempotency_key env session_id key)
    pure (quantity_row_to_response row)

module _ (env : Env) (session : VisitorSession) where
  -- The part of the transaction that takes the stock.
  unfoldable pub hold_quantity :
      (event_id ticket_type_id : Uuid) (quantity : ℤ) (key : Text) (expires_at : Timestamptz)
      → Action Database QuantityReservationResponse
  hold_quantity event_id ticket_type_id quantity key expires_at = do
    instead is_no_rows insufficient_stock
        (reserve_ticket_quantity env ticket_type_id event_id quantity)
    reservation ← instead is_unique_violation idempotency_replay_required (
        create_reservation env (record {
          event_id = event_id;
          visitor_session_id = session.id;
          user_id = session.user_id;
          status = reserved;
          reservation_type = by_quantity;
          idempotency_key = key;
          expires_at = expires_at;
        }))
    item ← create_reservation_item env (record {
      reservation_id = reservation.id;
      ticket_type_id = ticket_type_id;
      quantity = quantity;
      status = reserved;
    })
    pure (quantity_reservation_to_response reservation item)

  -- What the first query found: a row to replay, none, or an error.
  unfoldable pub quantity_unless_found :
      Result QuantityReservationRow
      → Action Database QuantityReservationResponse
      → Action Database QuantityReservationResponse
  quantity_unless_found (ok row) hold = pure (quantity_row_to_response row)
  quantity_unless_found (err e) hold = if is_no_rows e then hold else raise e

  -- The transaction of ReserveQuantity.
  unfoldable pub reserve_quantity_tx :
      (event_id ticket_type_id : Uuid) (quantity : ℤ) (key : Text) (expires_at : Timestamptz)
      → Action Database QuantityReservationResponse
  unfolding hold_quantity quantity_unless_found
  reserve_quantity_tx event_id ticket_type_id quantity key expires_at = do
    existing ← attempt (get_quantity_reservation_by_idempotency_key env session.id key)
    quantity_unless_found existing (hold_quantity event_id ticket_type_id quantity key expires_at)

  unfoldable pub reserve_quantity :
      Service → (now : ℕ) → QuantityReservationRequest → Action Database QuantityReservationResponse
  unfolding reserve_quantity_tx
  reserve_quantity s now input = do
    (event_id, ticket_type_id) ← lift (parse_quantity_input s.scan input)
    let key = trim_space input.idempotency_key
    or_replay
        (with_tx env (
          reserve_quantity_tx event_id ticket_type_id input.quantity key
            (timestamp (now + s.reservation_ttl))))
        (replay_quantity env session.id key)
