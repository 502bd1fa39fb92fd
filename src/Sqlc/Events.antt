-- ===== src/Sqlc/Events.antt =====
-- The queries on events, and the catalogue of an event: its ticket types and seats
-- (internal/sqlc/events.sql.go). `collate` is the order of texts that the database sorts by.
use mathlib.Core.List.{flat_map}
use study_ticket_reservation.Base.{
  Bool, not, ◌&&◌, ◌||◌, List, [], ◌∷◌, map, any, select, sort_by, if◌then◌else◌,
}
use study_ticket_reservation.Base.Int.{ℤ, pos, ◌-ℤ◌}
use study_ticket_reservation.Base.Text.{Text, text, text_eq}
use study_ticket_reservation.Db.Types.{Uuid, Timestamptz, same_uuid, uuid_le}
use study_ticket_reservation.Db.Tx.{
  unique_violation, constraint_violation, Result, ok, err, Env, Action, reading, statement,
}
use study_ticket_reservation.Sqlc.Models.{
  Event, Seat, TicketType, ReservationSeat, Status, reserved, confirmed,
}
use study_ticket_reservation.Sqlc.Database.{Database, one, ticket_check, holds_seat}

pub record CreateEventParams : Type 0 where
  pub name : Text
  pub starts_at : Timestamptz
  pub ends_at : Timestamptz

pub record CreateTicketTypeParams : Type 0 where
  pub event_id : Uuid
  pub name : Text
  pub total_quantity : ℤ

pub record CreateSeatParams : Type 0 where
  pub event_id : Uuid
  pub section : Text
  pub row_name : Text
  pub seat_number : Text

-- The rows that the INSERTs make, with the column defaults.
abbrev pub new_event : Timestamptz → Uuid → CreateEventParams → Event
new_event now id arg = record {
  id = id;
  name = arg.name;
  starts_at = arg.starts_at;
  ends_at = arg.ends_at;
  created_at = now;
  updated_at = now;
}

abbrev pub new_ticket_type : Timestamptz → Uuid → CreateTicketTypeParams → TicketType
new_ticket_type now id arg = record {
  id = id;
  event_id = arg.event_id;
  name = arg.name;
  total_quantity = arg.total_quantity;
  sold_quantity = pos 0;
  reserved_quantity = pos 0;
  created_at = now;
  updated_at = now;
}

abbrev pub new_seat : Timestamptz → Uuid → CreateSeatParams → Seat
new_seat now id arg = record {
  id = id;
  event_id = arg.event_id;
  section = arg.section;
  row_name = arg.row_name;
  seat_number = arg.seat_number;
  created_at = now;
  updated_at = now;
}

-- FOREIGN KEY (event_id).
abbrev pub event_exists : Uuid → Database → Bool
event_exists id d = any (λ e. same_uuid e.id id) d.events

-- uq_seats_event_section_row_seat.
unfoldable pub same_place : CreateSeatParams → Seat → Bool
same_place arg s =
    same_uuid s.event_id arg.event_id
    && text_eq s.section arg.section
    && text_eq s.row_name arg.row_name
    && text_eq s.seat_number arg.seat_number

unfoldable pub insert_event :
    Timestamptz → CreateEventParams → Uuid → Database → Result (Event × Database)
insert_event now arg id d =
    if not (id.valid && arg.starts_at.valid && arg.ends_at.valid)
    then err constraint_violation
    else if any (λ e. same_uuid e.id id) d.events
    then err unique_violation
    else (let row = new_event now id arg in ok (row, record d { events = row ∷ d.events }))

unfoldable pub insert_ticket_type :
    Timestamptz → CreateTicketTypeParams → Uuid → Database → Result (TicketType × Database)
insert_ticket_type now arg id d =
    let row = new_ticket_type now id arg in
    if not (id.valid && ticket_check row)
    then err constraint_violation
    else if any (λ t. same_uuid t.id id) d.ticket_types
    then err unique_violation
    else if not (event_exists arg.event_id d)
    then err constraint_violation
    else ok (row, record d { ticket_types = row ∷ d.ticket_types })

unfoldable pub insert_seat :
    Timestamptz → CreateSeatParams → Uuid → Database → Result (Seat × Database)
unfolding same_place
insert_seat now arg id d =
    if not id.valid
    then err constraint_violation
    else if any (λ s. same_uuid s.id id || same_place arg s) d.seats
    then err unique_violation
    else if not (event_exists arg.event_id d)
    then err constraint_violation
    else (let row = new_seat now id arg in ok (row, record d { seats = row ∷ d.seats }))

abbrev pub one_event : Uuid → Database → Result (Event × Database)
one_event id d = elim (one (select (λ e. same_uuid e.id id) d.events)) [
  | ok e ↦ ok (e, d)
  | err e ↦ err e
]

pub record TicketTypeInventoryRow : Type 0 where
  pub id : Uuid
  pub event_id : Uuid
  pub name : Text
  pub total_quantity : ℤ
  pub sold_quantity : ℤ
  pub reserved_quantity : ℤ
  pub available_quantity : ℤ

abbrev pub ticket_type_row : TicketType → TicketTypeInventoryRow
ticket_type_row t = record {
  id = t.id;
  event_id = t.event_id;
  name = t.name;
  total_quantity = t.total_quantity;
  sold_quantity = t.sold_quantity;
  reserved_quantity = t.reserved_quantity;
  available_quantity = t.total_quantity -ℤ t.sold_quantity -ℤ t.reserved_quantity;
}

pub record SeatInventoryRow : Type 0 where
  pub id : Uuid
  pub event_id : Uuid
  pub section : Text
  pub row_name : Text
  pub seat_number : Text
  pub status : Text

-- `CASE WHEN rs.status = ... ELSE 'available' END`.
unfoldable pub case_status : Status → Text
case_status confirmed = text "confirmed"
case_status reserved = text "reserved"
case_status _ = text "available"

abbrev pub seat_row : Seat → Text → SeatInventoryRow
seat_row s status = record {
  id = s.id;
  event_id = s.event_id;
  section = s.section;
  row_name = s.row_name;
  seat_number = s.seat_number;
  status = status;
}

-- A LEFT JOIN keeps a row that nothing matches, with NULL for the other table's columns.
unfoldable pub left_joined : Seat → List ReservationSeat → List SeatInventoryRow
unfolding case_status
left_joined s [] = seat_row s (text "available") ∷ []
left_joined s (row ∷ rows) = map (λ r. seat_row s (case_status r.status)) (row ∷ rows)

module _ (collate : Text → Text → Bool) where
  -- ORDER BY name, id.
  abbrev name_le : (a b : TicketType) → Bool
  name_le a b = not (collate b.name a.name) || (collate a.name b.name && uuid_le a.id b.id)

  -- ORDER BY section, row_name, seat_number, id.
  abbrev place_le : (a b : Seat) → Bool
  place_le a b =
      not (collate b.section a.section)
      || (collate a.section b.section
          && (not (collate b.row_name a.row_name)
              || (collate a.row_name b.row_name
                  && (not (collate b.seat_number a.seat_number)
                      || (collate a.seat_number b.seat_number && uuid_le a.id b.id)))))

  unfoldable pub ticket_types_of : Uuid → Database → List TicketType
  ticket_types_of event_id d =
      sort_by name_le (select (λ t. same_uuid t.event_id event_id) d.ticket_types)

  unfoldable pub seats_of_event : Uuid → Database → List Seat
  seats_of_event event_id d = sort_by place_le (select (λ s. same_uuid s.event_id event_id) d.seats)

  unfoldable pub ticket_inventory : Uuid → Database → List TicketTypeInventoryRow
  unfolding ticket_types_of
  ticket_inventory event_id d = map ticket_type_row (ticket_types_of event_id d)

  -- The join is made on the seats in their order; the rows of one seat share its place and id.
  unfoldable pub seat_inventory : Uuid → Database → List SeatInventoryRow
  unfolding seats_of_event left_joined
  seat_inventory event_id d =
      flat_map (λ s. left_joined s (select (holds_seat s.id) d.reservation_seats))
        (seats_of_event event_id d)

module _ (env : Env) where
  unfoldable pub create_event : CreateEventParams → Action Database Event
  unfolding statement insert_event
  create_event arg = statement env (insert_event env.now arg)

  unfoldable pub create_seat : CreateSeatParams → Action Database Seat
  unfolding statement insert_seat
  create_seat arg = statement env (insert_seat env.now arg)

  unfoldable pub create_ticket_type : CreateTicketTypeParams → Action Database TicketType
  unfolding statement insert_ticket_type
  create_ticket_type arg = statement env (insert_ticket_type env.now arg)

  unfoldable pub get_event_by_id : Uuid → Action Database Event
  unfolding statement
  get_event_by_id id = statement env λ _. one_event id

module _ (env : Env) (collate : Text → Text → Bool) where
  unfoldable pub list_seat_inventory_by_event : Uuid → Action Database (List SeatInventoryRow)
  unfolding statement seat_inventory
  list_seat_inventory_by_event event_id = statement env (reading (seat_inventory collate event_id))

  unfoldable pub list_seats_by_event : Uuid → Action Database (List Seat)
  unfolding statement seats_of_event
  list_seats_by_event event_id = statement env (reading (seats_of_event collate event_id))

  unfoldable pub list_ticket_type_inventory_by_event :
      Uuid → Action Database (List TicketTypeInventoryRow)
  unfolding statement ticket_inventory
  list_ticket_type_inventory_by_event event_id =
      statement env (reading (ticket_inventory collate event_id))

  unfoldable pub list_ticket_types_by_event : Uuid → Action Database (List TicketType)
  unfolding statement ticket_types_of
  list_ticket_types_by_event event_id = statement env (reading (ticket_types_of collate event_id))
