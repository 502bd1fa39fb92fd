-- ===== src/Tests/CatalogueExamples.antt =====
-- The theorems on the catalogue, at the event of the examples.
use study_ticket_reservation.Base.{◌≡◌, refl, Bool, not, [], ◌∷◌, All, ◌⊎◌}
use study_ticket_reservation.Base.Int.{pos}
use study_ticket_reservation.Base.Text.{Text, text, text_eq, text_lt, trim_space}
use study_ticket_reservation.Db.Types.{same_uuid}
use study_ticket_reservation.Db.Tx.{
  err, invalid_event_input, invalid_ticket_type_input, invalid_seat_input,
}
use study_ticket_reservation.Db.Triples.{Post}
use study_ticket_reservation.Db.Transactions.{Settled}
use study_ticket_reservation.Sqlc.Models.{Seat}
use study_ticket_reservation.Sqlc.Database.{Database}
use study_ticket_reservation.Sqlc.Events.{same_place, insert_seat}
use study_ticket_reservation.Events.Dto.{
  CreateEventRequest, CreateTicketTypeRequest, CreateSeatRequest, CreateSeatsRequest,
}
use study_ticket_reservation.Events.Service.{
  is_blank, is_blank_seat, create_event, create_ticket_type, create_seats, get_inventory,
}
use study_ticket_reservation.Catalogue.Inserts.{IsUnfound, IsServerError}
use study_ticket_reservation.Catalogue.Creation.{
  IsEventInput, IsTicketTypeInput, Rejects, CreatesEvent, CreatesTicketType,
}
use study_ticket_reservation.Catalogue.SeatRequests.{create_seats-keeps_first}
use study_ticket_reservation.Catalogue.Shown.{IsWithin, get_inventory-IsWithin}
use study_ticket_reservation.Catalogue.Guarantees.{create_event_lem, create_ticket_type_lem}
use study_ticket_reservation.Tests.Samples.{uuid, at, calm, event, seat, fresh}
use study_ticket_reservation.Tests.Start.{three-Inv, from_fresh, from_three}

abbrev collate : Text → Text → Bool
collate a b = not (text_lt b a)

get_inventory-IsWithin_example :
    Post
      (λ response _. All IsWithin response.ticket_types)
      (λ _. Unit {0})
      (get_inventory (calm 200) collate (uuid b'E') from_three)
get_inventory-IsWithin_example =
    get_inventory-IsWithin (calm 200) collate (uuid b'E') from_three three-Inv

abbrev festival : CreateEventRequest
festival = record { name = text " Festival "; starts_at = 100; ends_at = 200 }

create_event_lem_example :
    Settled
      (CreatesEvent (calm 300) festival fresh)
      (Rejects (IsEventInput festival) invalid_event_input IsServerError)
      fresh
      (create_event (calm 300) festival from_fresh)
create_event_lem_example = create_event_lem (calm 300) festival from_fresh

abbrev balcony : CreateTicketTypeRequest
balcony = record { name = text "Balcony"; total_quantity = pos 30 }

create_ticket_type_lem_example :
    Settled
      (CreatesTicketType (calm 300) (uuid b'E') balcony fresh)
      (Rejects
        (IsTicketTypeInput balcony)
        invalid_ticket_type_input
        (λ e. IsUnfound (uuid b'E') fresh e ⊎ IsServerError e))
      fresh
      (create_ticket_type (calm 300) (uuid b'E') balcony from_fresh)
create_ticket_type_lem_example = create_ticket_type_lem (calm 300) (uuid b'E') balcony from_fresh

abbrev front : CreateSeatRequest
front = record { section = text "B"; row_name = text "1"; seat_number = text "2" }

abbrev unnamed : CreateSeatRequest
unnamed = record { section = text " "; row_name = text "1"; seat_number = text "3" }

abbrev both : CreateSeatsRequest
both = record { seats = front ∷ unnamed ∷ [] }

abbrev front_row : Seat
front_row = record {
  id = uuid 301;
  event_id = uuid b'E';
  section = text "B";
  row_name = text "1";
  seat_number = text "2";
  created_at = at 1000;
  updated_at = at 1000;
}

abbrev with_front : Database
with_front = record fresh { seats = front_row ∷ seat 1 ∷ seat 2 ∷ [] }

-- The first seat stays, though the request is refused.
create_seats-keeps_first_example :
    create_seats (calm 300) (uuid b'E') both from_fresh
    ≡ (err invalid_seat_input, record { db = with_front; calls = 2 })
unfolding same_uuid same_place text_eq trim_space insert_seat is_blank is_blank_seat
create_seats-keeps_first_example =
    create_seats-keeps_first (calm 300) (uuid b'E') from_fresh event front_row with_front front
      unnamed [] (λ n. refl) refl refl refl refl
