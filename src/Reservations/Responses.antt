-- ===== src/Reservations/Responses.antt =====
-- What the rows become in a response, and who may see a reservation
-- (internal/modules/reservations/service.go).
use study_ticket_reservation.Base.{ℕ, Bool, true, ◌&&◌, List, [], ◌∷◌, map, leb, if◌then◌else◌}
use study_ticket_reservation.Db.Types.{uuid_to_string, timestamptz_to_time, same_uuid}
use study_ticket_reservation.Db.Tx.{reservation_invariant_broken, Env, Action, pure, raise, ◌>>=◌}
use study_ticket_reservation.Sqlc.Models.{
  Reservation, ReservationItem, ReservationSeat, ReservationType, by_quantity, by_seats, other_type,
  VisitorSession,
}
use study_ticket_reservation.Sqlc.Database.{Database}
use study_ticket_reservation.Sqlc.Reservations.Items.{
  QuantityReservationRow, list_reservation_items,
}
use study_ticket_reservation.Sqlc.Reservations.Holds.{SeatReservationRow, list_reservation_seats}
use study_ticket_reservation.Reservations.Dto.{
  QuantityReservationResponse, SeatReservationResponse, ReservationItemDetailResponse,
  ReservationSeatDetailResponse, ReservationResponse,
}

unfoldable pub quantity_reservation_to_response :
    Reservation → ReservationItem → QuantityReservationResponse
unfolding uuid_to_string timestamptz_to_time
quantity_reservation_to_response reservation item = record {
  reservation_id = uuid_to_string reservation.id;
  status = reservation.status;
  reservation_type = reservation.reservation_type;
  expires_at = timestamptz_to_time reservation.expires_at;
  items =
      record { ticket_type_id = uuid_to_string item.ticket_type_id; quantity = item.quantity } ∷ [];
}

unfoldable pub quantity_row_to_response : QuantityReservationRow → QuantityReservationResponse
unfolding uuid_to_string timestamptz_to_time
quantity_row_to_response row = record {
  reservation_id = uuid_to_string row.reservation_id;
  status = row.status;
  reservation_type = row.reservation_type;
  expires_at = timestamptz_to_time row.expires_at;
  items =
      record { ticket_type_id = uuid_to_string row.ticket_type_id; quantity = row.quantity } ∷ [];
}

unfoldable pub seat_reservation_to_response :
    Reservation → List ReservationSeat → SeatReservationResponse
unfolding uuid_to_string timestamptz_to_time
seat_reservation_to_response reservation seats = record {
  reservation_id = uuid_to_string reservation.id;
  status = reservation.status;
  reservation_type = reservation.reservation_type;
  expires_at = timestamptz_to_time reservation.expires_at;
  seats = map (λ row. record { seat_id = uuid_to_string row.seat_id }) seats;
}

-- The header comes from the first row. The callers pass a list that is not empty; on an empty one
-- the source panics, and the first row is an argument of its own here.
unfoldable pub seat_rows_to_response :
    SeatReservationRow → List SeatReservationRow → SeatReservationResponse
unfolding uuid_to_string timestamptz_to_time
seat_rows_to_response row rows = record {
  reservation_id = uuid_to_string row.reservation_id;
  status = row.status;
  reservation_type = row.reservation_type;
  expires_at = timestamptz_to_time row.expires_at;
  seats = map (λ r. record { seat_id = uuid_to_string r.seat_id }) (row ∷ rows);
}

abbrev pub item_detail : ReservationItem → ReservationItemDetailResponse
item_detail item = record {
  ticket_type_id = uuid_to_string item.ticket_type_id;
  quantity = item.quantity;
  status = item.status;
}

abbrev pub seat_detail : ReservationSeat → ReservationSeatDetailResponse
seat_detail seat = record { seat_id = uuid_to_string seat.seat_id; status = seat.status }

unfoldable pub details_response :
    Reservation → List ReservationItem → List ReservationSeat → ReservationResponse
unfolding uuid_to_string timestamptz_to_time
details_response reservation items seats = record {
  reservation_id = uuid_to_string reservation.id;
  status = reservation.status;
  reservation_type = reservation.reservation_type;
  expires_at = timestamptz_to_time reservation.expires_at;
  items = map item_detail items;
  seats = map seat_detail seats;
}

-- The switch on the reservation's type.
unfoldable pub details_by_type :
    Env → ReservationType → Reservation → Action Database ReservationResponse
unfolding details_response
details_by_type env by_quantity reservation = do
  items ← list_reservation_items env reservation.id
  pure (details_response reservation items [])
details_by_type env by_seats reservation = do
  seats ← list_reservation_seats env reservation.id
  pure (details_response reservation [] seats)
details_by_type env (other_type _) reservation = raise reservation_invariant_broken

unfoldable pub build_reservation_response : Env → Reservation → Action Database ReservationResponse
unfolding details_by_type
build_reservation_response env reservation =
    details_by_type env reservation.reservation_type reservation

-- The owner is the visitor session, or the user of both.
unfoldable pub can_access_reservation : Reservation → VisitorSession → Bool
can_access_reservation reservation session =
    if same_uuid reservation.visitor_session_id session.id
    then true
    else reservation.user_id.valid
      && session.user_id.valid
      && same_uuid reservation.user_id session.user_id

-- `now` is the service's clock.
unfoldable pub reservation_expired : Reservation → ℕ → Bool
reservation_expired reservation now =
    reservation.expires_at.valid && leb reservation.expires_at.time now
