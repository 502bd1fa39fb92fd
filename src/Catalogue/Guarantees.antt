-- ===== src/Catalogue/Guarantees.antt =====
-- What CreateEvent and CreateTicketType do (internal/modules/events/service.go), on any database.
use study_ticket_reservation.Base.{refl, ◌⊎◌}
use study_ticket_reservation.Db.Types.{Uuid}
use study_ticket_reservation.Db.Tx.{invalid_event_input, invalid_ticket_type_input, Env, Tx}
use study_ticket_reservation.Db.Transactions.{Settled}
use study_ticket_reservation.Sqlc.Database.{Database}
use study_ticket_reservation.Events.Dto.{CreateEventRequest, CreateTicketTypeRequest}
use study_ticket_reservation.Events.Service.{create_event, create_ticket_type}
use study_ticket_reservation.Catalogue.Inserts.{IsServerError, IsUnfound}
use study_ticket_reservation.Catalogue.Creation.{
  IsEventInput, IsTicketTypeInput, Rejects, CreatesEvent, CreatesTicketType, create_event-Transacts,
  create_ticket_type-Transacts,
}

-- A request to create an event either succeeds or fails. If it succeeds, the trimmed name is not empty,
-- the end is after the start, and exactly one row is added, with a new id, the trimmed name and the two
-- times, and the response shows it. If it fails, the database is as it was, and either the error is
-- `invalid_event_input` and the input is bad, or the input is good and the server refused the row.
pub create_event_lem :
    (env : Env) (input : CreateEventRequest) (w : Tx Database)
    → Settled
        (CreatesEvent env input w.db)
        (Rejects (IsEventInput input) invalid_event_input IsServerError)
        w.db
        (create_event env input w)
create_event_lem env input w = (create_event-Transacts env w.db input).at w refl

-- A request to create a ticket type either succeeds or fails. If it succeeds, the event exists, the
-- trimmed name is not empty, the total is not negative, and exactly one row is added, with a new id, the
-- trimmed name, the total, and nothing sold or reserved, and the response shows it. If it fails, the
-- database is as it was, and either the error is `invalid_ticket_type_input` and the input is bad, or
-- the input is good, and there is no such event or the server refused the row.
pub create_ticket_type_lem :
    (env : Env) (event_id : Uuid) (input : CreateTicketTypeRequest) (w : Tx Database)
    → Settled
        (CreatesTicketType env event_id input w.db)
        (Rejects
          (IsTicketTypeInput input)
          invalid_ticket_type_input
          (λ e. IsUnfound event_id w.db e ⊎ IsServerError e))
        w.db
        (create_ticket_type env event_id input w)
create_ticket_type_lem env event_id input w =
    (create_ticket_type-Transacts env w.db event_id input).at w refl
