-- ===== src/Tests/Samples.antt =====
-- One event with ten tickets and two seats, and one visitor session.
use study_ticket_reservation.Base.{
  ℕ, ◌+◌, true, false, Option, none, some, List, [], ◌∷◌, ◌++◌, ◌==◌, length, if◌then◌else◌,
}
use study_ticket_reservation.Base.Int.{pos}
use study_ticket_reservation.Base.Text.{Text, text}
use study_ticket_reservation.Db.Types.{Uuid, Timestamptz, null_uuid}
use study_ticket_reservation.Db.Tx.{Env, Tx}
use study_ticket_reservation.Sqlc.Models.{Event, Seat, TicketType, VisitorSession}
use study_ticket_reservation.Sqlc.Database.{Database}
use study_ticket_reservation.Reservations.Dto.{QuantityReservationRequest, SeatReservationRequest}
use study_ticket_reservation.Reservations.Service.{Service}

abbrev pub bytes15 : List ℕ
bytes15 = 0 ∷ 0 ∷ 0 ∷ 0 ∷ 0 ∷ 0 ∷ 0 ∷ 0 ∷ 0 ∷ 0 ∷ 0 ∷ 0 ∷ 0 ∷ 0 ∷ 0 ∷ []

abbrev pub uuid : ℕ → Uuid
uuid n = record { bytes = bytes15 ++ n ∷ []; valid = true }

abbrev pub at : ℕ → Timestamptz
at t = record { time = t; valid = true }

-- A scanner that reads a text of one code point.
abbrev pub scan_one : Text → Option Uuid
scan_one [] = none
scan_one (c ∷ cs) = if length cs == 0 then some (uuid c) else none

abbrev pub service : Service
service = record { scan = scan_one; reservation_ttl = 50 }

-- Nothing fails, and call k draws the uuid 100 + k.
abbrev pub calm : ℕ → Env
calm base = record {
  uuid = λ k. uuid (base + k);
  now = at 1000;
  fails = λ k. false;
  locked = λ id. false;
}

abbrev pub event : Event
event = record {
  id = uuid b'E';
  name = text "Concert";
  starts_at = at 5000;
  ends_at = at 6000;
  created_at = at 0;
  updated_at = at 0;
}

abbrev pub tickets : TicketType
tickets = record {
  id = uuid b'T';
  event_id = uuid b'E';
  name = text "General";
  total_quantity = pos 10;
  sold_quantity = pos 0;
  reserved_quantity = pos 0;
  created_at = at 0;
  updated_at = at 0;
}

abbrev pub seat : ℕ → Seat
seat n = record {
  id = uuid n;
  event_id = uuid b'E';
  section = text "A";
  row_name = text "1";
  seat_number = text "1";
  created_at = at 0;
  updated_at = at 0;
}

abbrev pub session : VisitorSession
session = record {
  id = uuid b'V';
  user_id = null_uuid;
  anonymous_token_hash = text "h";
  created_at = at 0;
  updated_at = at 0;
  last_seen_at = at 0;
  expires_at = at 100000;
}

abbrev pub fresh : Database
fresh = record {
  users = [];
  visitor_sessions = session ∷ [];
  events = event ∷ [];
  ticket_types = tickets ∷ [];
  seats = seat 1 ∷ seat 2 ∷ [];
  reservations = [];
  reservation_items = [];
  reservation_seats = [];
}

abbrev pub start : Tx Database
start = record { db = fresh; calls = 0 }

abbrev pub ask_quantity : ℕ → QuantityReservationRequest
ask_quantity n = record {
  event_id = text "E";
  ticket_type_id = text "T";
  quantity = pos n;
  idempotency_key = text " key-1 ";
}

abbrev pub ask_seats : SeatReservationRequest
ask_seats = record {
  event_id = text "E";
  seat_ids = (2 ∷ []) ∷ (1 ∷ []) ∷ [];
  idempotency_key = text "key-2";
}
