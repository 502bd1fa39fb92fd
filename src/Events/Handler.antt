-- ===== src/Events/Handler.antt =====
-- The HTTP handlers of events (internal/modules/events/handler.go). The id in the path and the decoded
-- body are arguments; `scan` is `pgtype.UUID.Scan`.
use study_ticket_reservation.Base.{Bool, Option, List}
use study_ticket_reservation.Base.Text.{Text, text}
use study_ticket_reservation.Db.Types.{Uuid}
use study_ticket_reservation.Db.Parse.{parse_uuid}
use study_ticket_reservation.Db.Tx.{
  Error, invalid_event_input, invalid_ticket_type_input, invalid_seat_input, event_not_found,
  Result, ok, err, Env, Action, pure, attempt, ◌>>=◌,
}
use study_ticket_reservation.Sqlc.Database.{Database}
use study_ticket_reservation.Http.{Reply, refused, reply, for_payload}
use study_ticket_reservation.Events.Dto.{
  CreateEventRequest, EventResponse, CreateTicketTypeRequest, TicketTypeResponse,
  CreateSeatsRequest, SeatResponse, InventoryResponse,
}
use study_ticket_reservation.Events.Service.{
  create_event, get_event, create_ticket_type, create_seats, get_inventory,
}

module _ {A : Type 0} where
  event_not_found_reply : Reply A
  event_not_found_reply = refused 404 (text "EVENT_NOT_FOUND") (text "Event not found")

  -- What the handlers reply to an error of the service.
  unfoldable pub create_event_error : Error → Reply A
  create_event_error invalid_event_input =
      refused 400 (text "INVALID_EVENT") (text "Invalid event payload")
  create_event_error _ = refused 500 (text "EVENT_CREATE_FAILED") (text "Could not create event")

  unfoldable pub get_event_error : Error → Reply A
  unfolding event_not_found_reply
  get_event_error event_not_found = event_not_found_reply
  get_event_error _ = refused 500 (text "EVENT_LOOKUP_FAILED") (text "Could not read event")

  unfoldable pub create_ticket_type_error : Error → Reply A
  unfolding event_not_found_reply
  create_ticket_type_error event_not_found = event_not_found_reply
  create_ticket_type_error invalid_ticket_type_input =
      refused 400 (text "INVALID_TICKET_TYPE") (text "Invalid ticket type payload")
  create_ticket_type_error _ =
      refused 500 (text "TICKET_TYPE_CREATE_FAILED") (text "Could not create ticket type")

  unfoldable pub create_seats_error : Error → Reply A
  unfolding event_not_found_reply
  create_seats_error event_not_found = event_not_found_reply
  create_seats_error invalid_seat_input =
      refused 400 (text "INVALID_SEATS") (text "Invalid seats payload")
  create_seats_error _ = refused 500 (text "SEATS_CREATE_FAILED") (text "Could not create seats")

  unfoldable pub get_inventory_error : Error → Reply A
  unfolding event_not_found_reply
  get_inventory_error event_not_found = event_not_found_reply
  get_inventory_error _ =
      refused 500 (text "INVENTORY_LOOKUP_FAILED") (text "Could not read inventory")

  -- `eventIDFromRequest`.
  unfoldable pub for_event_id :
      Result Uuid → (Uuid → Action Database (Reply A)) → Action Database (Reply A)
  for_event_id (ok id) next = next id
  for_event_id (err _) next =
      pure (refused 400 (text "INVALID_EVENT_ID") (text "event_id must be a valid UUID"))

module _ (env : Env) where
  unfoldable pub handle_create_event :
      Option CreateEventRequest → Action Database (Reply EventResponse)
  unfolding for_payload reply create_event_error
  handle_create_event body = for_payload body λ payload. do
    result ← attempt (create_event env payload)
    pure (reply 201 create_event_error result)

module _ (env : Env) (scan : Text → Option Uuid) where
  unfoldable pub handle_get_event : Text → Action Database (Reply EventResponse)
  unfolding for_event_id reply get_event_error
  handle_get_event raw = for_event_id (parse_uuid scan raw) λ event_id. do
    result ← attempt (get_event env event_id)
    pure (reply 200 get_event_error result)

  unfoldable pub handle_create_ticket_type :
      Text → Option CreateTicketTypeRequest → Action Database (Reply TicketTypeResponse)
  unfolding for_event_id for_payload reply create_ticket_type_error
  handle_create_ticket_type raw body = for_event_id (parse_uuid scan raw) λ event_id.
      for_payload body λ payload. do
        result ← attempt (create_ticket_type env event_id payload)
        pure (reply 201 create_ticket_type_error result)

  unfoldable pub handle_create_seats :
      Text → Option CreateSeatsRequest → Action Database (Reply (List SeatResponse))
  unfolding for_event_id for_payload reply create_seats_error
  handle_create_seats raw body = for_event_id (parse_uuid scan raw) λ event_id.
      for_payload body λ payload. do
        result ← attempt (create_seats env event_id payload)
        pure (reply 201 create_seats_error result)

  unfoldable pub handle_get_inventory :
      (collate : Text → Text → Bool) → Text → Action Database (Reply InventoryResponse)
  unfolding for_event_id reply get_inventory_error
  handle_get_inventory collate raw = for_event_id (parse_uuid scan raw) λ event_id. do
    result ← attempt (get_inventory env collate event_id)
    pure (reply 200 get_inventory_error result)
