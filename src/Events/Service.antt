-- ===== src/Events/Service.antt =====
-- The operations on events (internal/modules/events/service.go), each with the call of the repository
-- that it makes (repository.go). A request's times have whole microseconds.
use study_ticket_reservation.Base.{
  Bool, not, ◌||◌, List, [], ◌∷◌, map, length, ltb, ◌==◌, if◌then◌else◌,
}
use study_ticket_reservation.Base.Int.{pos, leb_ℤ}
use study_ticket_reservation.Base.Text.{Text, text_eq, trim_space}
use study_ticket_reservation.Db.Types.{Uuid, uuid_to_string, timestamptz_to_time}
use study_ticket_reservation.Db.Tx.{
  is_no_rows, invalid_event_input, invalid_ticket_type_input, invalid_seat_input, event_not_found,
  Env, Action, pure, raise, ◌>>=◌, ◌>>◌,
}
use study_ticket_reservation.Sqlc.Models.{Event, TicketType, Seat}
use study_ticket_reservation.Sqlc.Database.{Database}
use study_ticket_reservation.Sqlc.Events
use study_ticket_reservation.Sqlc.Events.{
  TicketTypeInventoryRow, SeatInventoryRow, get_event_by_id, list_ticket_type_inventory_by_event,
  list_seat_inventory_by_event,
}
use study_ticket_reservation.Reservations.Service.{timestamp, instead}
use study_ticket_reservation.Events.Dto.{
  CreateEventRequest, EventResponse, CreateTicketTypeRequest, TicketTypeResponse, CreateSeatRequest,
  CreateSeatsRequest, SeatResponse, TicketTypeInventoryResponse, SeatInventoryResponse,
  InventoryResponse,
}

unfoldable pub to_event_response : Event → EventResponse
to_event_response event = record {
  id = uuid_to_string event.id;
  name = event.name;
  starts_at = timestamptz_to_time event.starts_at;
  ends_at = timestamptz_to_time event.ends_at;
  created_at = timestamptz_to_time event.created_at;
  updated_at = timestamptz_to_time event.updated_at;
}

unfoldable pub to_ticket_type_response : TicketType → TicketTypeResponse
to_ticket_type_response ticket_type = record {
  id = uuid_to_string ticket_type.id;
  event_id = uuid_to_string ticket_type.event_id;
  name = ticket_type.name;
  total_quantity = ticket_type.total_quantity;
  sold_quantity = ticket_type.sold_quantity;
  reserved_quantity = ticket_type.reserved_quantity;
  created_at = timestamptz_to_time ticket_type.created_at;
  updated_at = timestamptz_to_time ticket_type.updated_at;
}

unfoldable pub to_seat_response : Seat → SeatResponse
to_seat_response seat = record {
  id = uuid_to_string seat.id;
  event_id = uuid_to_string seat.event_id;
  section = seat.section;
  row_name = seat.row_name;
  seat_number = seat.seat_number;
  created_at = timestamptz_to_time seat.created_at;
  updated_at = timestamptz_to_time seat.updated_at;
}

abbrev pub ticket_type_inventory : TicketTypeInventoryRow → TicketTypeInventoryResponse
ticket_type_inventory row = record {
  id = uuid_to_string row.id;
  event_id = uuid_to_string row.event_id;
  name = row.name;
  total_quantity = row.total_quantity;
  sold_quantity = row.sold_quantity;
  reserved_quantity = row.reserved_quantity;
  available_quantity = row.available_quantity;
}

unfoldable pub to_ticket_type_inventory_responses :
    List TicketTypeInventoryRow → List TicketTypeInventoryResponse
to_ticket_type_inventory_responses rows = map ticket_type_inventory rows

abbrev pub seat_inventory_response : SeatInventoryRow → SeatInventoryResponse
seat_inventory_response row = record {
  id = uuid_to_string row.id;
  event_id = uuid_to_string row.event_id;
  section = row.section;
  row_name = row.row_name;
  seat_number = row.seat_number;
  status = row.status;
}

unfoldable pub to_seat_inventory_responses : List SeatInventoryRow → List SeatInventoryResponse
to_seat_inventory_responses rows = map seat_inventory_response rows

-- `strings.TrimSpace(s) == ""`.
unfoldable pub is_blank : Text → Bool
unfolding trim_space
is_blank s = text_eq (trim_space s) []

-- The request of one seat without a section, a row or a number.
unfoldable pub is_blank_seat : CreateSeatRequest → Bool
unfolding is_blank
is_blank_seat seat = is_blank seat.section || is_blank seat.row_name || is_blank seat.seat_number

abbrev pub seat_params : Uuid → CreateSeatRequest → Events.CreateSeatParams
seat_params event_id seat = record {
  event_id = event_id;
  section = trim_space seat.section;
  row_name = trim_space seat.row_name;
  seat_number = trim_space seat.seat_number;
}

abbrev pub event_params : CreateEventRequest → Events.CreateEventParams
event_params input = record {
  name = trim_space input.name;
  starts_at = timestamp input.starts_at;
  ends_at = timestamp input.ends_at;
}

abbrev pub ticket_type_params : Uuid → CreateTicketTypeRequest → Events.CreateTicketTypeParams
ticket_type_params event_id input = record {
  event_id = event_id;
  name = trim_space input.name;
  total_quantity = input.total_quantity;
}

module _ (env : Env) where
  unfoldable pub create_event : CreateEventRequest → Action Database EventResponse
  unfolding is_blank to_event_response Events.create_event
  create_event input =
      if is_blank input.name || input.starts_at == 0 || input.ends_at == 0
      then raise invalid_event_input
      else if not (ltb input.starts_at input.ends_at)
      then raise invalid_event_input
      else do event ← Events.create_event env (event_params input); pure (to_event_response event)

  -- The look-up of the event that each operation on one starts with.
  unfoldable pub find_event : Uuid → Action Database Event
  unfolding get_event_by_id
  find_event event_id = instead is_no_rows event_not_found (get_event_by_id env event_id)

  unfoldable pub get_event : Uuid → Action Database EventResponse
  unfolding find_event to_event_response
  get_event event_id = do event ← find_event event_id; pure (to_event_response event)

  unfoldable pub create_ticket_type :
      Uuid → CreateTicketTypeRequest → Action Database TicketTypeResponse
  unfolding is_blank find_event to_ticket_type_response Events.create_ticket_type
  create_ticket_type event_id input =
      if is_blank input.name || not (leb_ℤ (pos 0) input.total_quantity)
      then raise invalid_ticket_type_input
      else do
        find_event event_id
        ticket_type ← Events.create_ticket_type env (ticket_type_params event_id input)
        pure (to_ticket_type_response ticket_type)

  -- The loop over the seats, each one inserted by a statement of its own.
  unfoldable pub create_each : Uuid → List CreateSeatRequest → Action Database (List SeatResponse)
  unfolding is_blank_seat to_seat_response Events.create_seat
  create_each event_id [] = pure []
  create_each event_id (seat ∷ seats) =
      let rest = create_each event_id seats in
      if is_blank_seat seat then raise invalid_seat_input else do
        created ← Events.create_seat env (seat_params event_id seat)
        responses ← rest
        pure (to_seat_response created ∷ responses)

  unfoldable pub create_seats : Uuid → CreateSeatsRequest → Action Database (List SeatResponse)
  unfolding find_event create_each
  create_seats event_id input =
      if length input.seats == 0
      then raise invalid_seat_input
      else do find_event event_id; create_each event_id input.seats

  unfoldable pub get_inventory : (Text → Text → Bool) → Uuid → Action Database InventoryResponse
  unfolding find_event list_ticket_type_inventory_by_event list_seat_inventory_by_event
      to_ticket_type_inventory_responses to_seat_inventory_responses
  get_inventory collate event_id = do
    find_event event_id
    ticket_types ← list_ticket_type_inventory_by_event env collate event_id
    seats ← list_seat_inventory_by_event env collate event_id
    pure (record {
      ticket_types = to_ticket_type_inventory_responses ticket_types;
      seats = to_seat_inventory_responses seats;
    })
