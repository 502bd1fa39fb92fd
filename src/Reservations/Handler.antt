-- ===== src/Reservations/Handler.antt =====
-- The HTTP handlers (internal/modules/reservations/handler.go): each one finds the session, reads its
-- input, calls the service and makes a reply of the result. The cookie, the decoded body and the id in
-- the path are arguments; `seen`, `now` and `later` are the readings of the clock, in that order.
use study_ticket_reservation.Base.{ℕ, Option, none, some}
use study_ticket_reservation.Base.Text.{Text, text}
use study_ticket_reservation.Db.Types.{Uuid}
use study_ticket_reservation.Db.Parse.{parse_uuid}
use study_ticket_reservation.Db.Tx.{
  Error, invalid_quantity_reservation, invalid_seat_reservation, insufficient_stock,
  seats_not_found, seat_unavailable, idempotency_key_conflict, reservation_not_found,
  reservation_cannot_cancel, reservation_cannot_confirm, reservation_invariant_broken,
  session_required, Result, ok, err, Env, Action, pure, attempt, ◌>>=◌,
}
use study_ticket_reservation.Sqlc.Models.{VisitorSession}
use study_ticket_reservation.Sqlc.Database.{Database}
use study_ticket_reservation.Http.{Reply, answered, refused, reply, for_payload}
use study_ticket_reservation.Sessions.{get_current_session}
use study_ticket_reservation.Reservations.Dto.{
  QuantityReservationRequest, QuantityReservationResponse, SeatReservationRequest,
  SeatReservationResponse, ReservationResponse,
}
use study_ticket_reservation.Reservations.Service.{Service}
use study_ticket_reservation.Reservations.Quantity.{reserve_quantity}
use study_ticket_reservation.Reservations.Seats.{reserve_seats}
use study_ticket_reservation.Reservations.Lifecycle.{
  Outcome, get_reservation, cancel_reservation, confirm_reservation,
}

module _ {A : Type 0} where
  -- What the handlers reply to an error of the service.
  unfoldable pub quantity_error : Error → Reply A
  quantity_error invalid_quantity_reservation =
      refused 400 (text "INVALID_QUANTITY_RESERVATION")
        (text "Invalid quantity reservation payload")
  quantity_error insufficient_stock =
      refused 409 (text "INSUFFICIENT_STOCK") (text "Not enough stock available")
  quantity_error idempotency_key_conflict =
      refused 409 (text "IDEMPOTENCY_KEY_CONFLICT") (text "Idempotency key was already used")
  quantity_error _ =
      refused 500 (text "RESERVATION_CREATE_FAILED") (text "Could not create reservation")

  unfoldable pub seats_error : Error → Reply A
  seats_error invalid_seat_reservation =
      refused 400 (text "INVALID_SEAT_RESERVATION") (text "Invalid seat reservation payload")
  seats_error seats_not_found =
      refused 404 (text "SEATS_NOT_FOUND") (text "One or more seats do not exist for this event")
  seats_error seat_unavailable =
      refused 409 (text "SEAT_UNAVAILABLE") (text "One or more seats are not available")
  seats_error idempotency_key_conflict =
      refused 409 (text "IDEMPOTENCY_KEY_CONFLICT") (text "Idempotency key was already used")
  seats_error _ =
      refused 500 (text "SEAT_RESERVATION_CREATE_FAILED") (text "Could not create seat reservation")

  unfoldable pub get_error : Error → Reply A
  get_error reservation_not_found =
      refused 404 (text "RESERVATION_NOT_FOUND") (text "Reservation not found")
  get_error _ = refused 500 (text "RESERVATION_LOOKUP_FAILED") (text "Could not read reservation")

  unfoldable pub cancel_error : Error → Reply A
  cancel_error reservation_not_found =
      refused 404 (text "RESERVATION_NOT_FOUND") (text "Reservation not found")
  cancel_error reservation_cannot_cancel =
      refused 409 (text "RESERVATION_CANNOT_BE_CANCELLED") (text "Reservation cannot be cancelled")
  cancel_error reservation_invariant_broken =
      refused 409 (text "RESERVATION_INCONSISTENT")
        (text "Reservation cannot be transitioned safely")
  cancel_error _ =
      refused 500 (text "RESERVATION_CANCEL_FAILED") (text "Could not cancel reservation")

  unfoldable pub confirm_error : Error → Reply A
  confirm_error reservation_not_found =
      refused 404 (text "RESERVATION_NOT_FOUND") (text "Reservation not found")
  confirm_error reservation_cannot_confirm =
      refused 409 (text "RESERVATION_CANNOT_BE_CONFIRMED") (text "Reservation cannot be confirmed")
  confirm_error reservation_invariant_broken =
      refused 409 (text "RESERVATION_INCONSISTENT")
        (text "Reservation cannot be transitioned safely")
  confirm_error _ =
      refused 500 (text "RESERVATION_CONFIRM_FAILED") (text "Could not confirm reservation")

  -- The session, or the reply to a request without one.
  unfoldable pub for_session :
      Result VisitorSession
      → (VisitorSession → Action Database (Reply A))
      → Action Database (Reply A)
  for_session (ok session) next = next session
  for_session (err session_required) next =
      pure (refused 401 (text "SESSION_REQUIRED") (text "A valid visitor session is required"))
  for_session (err _) next =
      pure (refused 500 (text "SESSION_LOOKUP_FAILED") (text "Could not read session"))

  unfoldable pub for_id :
      Result Uuid → (Uuid → Action Database (Reply A)) → Action Database (Reply A)
  for_id (ok id) next = next id
  for_id (err _) next =
      pure
        (refused 400 (text "INVALID_RESERVATION_ID") (text "reservation_id must be a valid UUID"))

-- A transition that was refused after its commit is an error to the handler.
unfoldable pub reply_outcome :
    (Error → Reply ReservationResponse) → Result Outcome → Reply ReservationResponse
reply_outcome on_failure (ok (response, none)) = answered 200 response
reply_outcome on_failure (ok (response, some refusal)) = on_failure refusal
reply_outcome on_failure (err e) = on_failure e

module _ (env : Env) (s : Service) (hash : Text → Text) (seen : ℕ) (cookie : Option Text) where
  abbrev current : Action Database VisitorSession
  current = get_current_session env hash seen cookie

  unfoldable pub handle_reserve_quantity :
      (now : ℕ)
      → Option QuantityReservationRequest
      → Action Database (Reply QuantityReservationResponse)
  unfolding for_session for_payload reply quantity_error
  handle_reserve_quantity now body = do
    found ← attempt current
    for_session found λ session. for_payload body λ payload. do
      result ← attempt (reserve_quantity env session s now payload)
      pure (reply 201 quantity_error result)

  unfoldable pub handle_reserve_seats :
      (now later : ℕ)
      → Option SeatReservationRequest
      → Action Database (Reply SeatReservationResponse)
  unfolding for_session for_payload reply seats_error
  handle_reserve_seats now later body = do
    found ← attempt current
    for_session found λ session. for_payload body λ payload. do
      result ← attempt (reserve_seats env session s now later payload)
      pure (reply 201 seats_error result)

  -- `currentSessionAndReservationID`.
  unfoldable pub with_session_and_id :
      Text
      → (VisitorSession → Uuid → Action Database (Reply ReservationResponse))
      → Action Database (Reply ReservationResponse)
  unfolding for_session for_id
  with_session_and_id raw next = do
    found ← attempt current
    for_session found λ session. for_id (parse_uuid s.scan raw) λ id. next session id

  unfoldable pub handle_get_reservation : Text → Action Database (Reply ReservationResponse)
  unfolding with_session_and_id reply get_error
  handle_get_reservation raw = with_session_and_id raw λ session id. do
    result ← attempt (get_reservation env session id)
    pure (reply 200 get_error result)

  unfoldable pub handle_cancel_reservation :
      (now : ℕ) → Text → Action Database (Reply ReservationResponse)
  unfolding with_session_and_id reply_outcome cancel_error
  handle_cancel_reservation now raw = with_session_and_id raw λ session id. do
    result ← attempt (cancel_reservation env session now id)
    pure (reply_outcome cancel_error result)

  unfoldable pub handle_confirm_reservation :
      (now : ℕ) → Text → Action Database (Reply ReservationResponse)
  unfolding with_session_and_id reply_outcome confirm_error
  handle_confirm_reservation now raw = with_session_and_id raw λ session id. do
    result ← attempt (confirm_reservation env session now id)
    pure (reply_outcome confirm_error result)
