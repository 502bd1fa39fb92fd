-- ===== src/Catalogue/SeatRequests.antt =====
-- A request to create seats, from its first check to its last row
-- (internal/modules/events/service.go).
use mathlib.Core.Path.{subst}
use study_ticket_reservation.Base.{
  ℕ, suc, ◌≡◌, ◌≢◌, refl, true, false, List, [], ◌∷◌, select, any, ◌⊎◌, inl, inr, Bool-cases,
  length, ◌==◌, arith,
}
use study_ticket_reservation.Db.Types.{Uuid, same_uuid}
use study_ticket_reservation.Db.Tx.{
  Error, invalid_seat_input, Result, ok, err, Env, Tx, raise, statement, settle, continue, on_error,
  answer, ◌>>=◌,
}
use study_ticket_reservation.Db.Triples.{BodyPost}
use study_ticket_reservation.Db.Transactions.{Settled}
use study_ticket_reservation.Sqlc.Models.{Event, Seat}
use study_ticket_reservation.Sqlc.Database.{Database, one}
use study_ticket_reservation.Sqlc.Events
use study_ticket_reservation.Sqlc.Events.{event_exists, insert_seat, one_event, get_event_by_id}
use study_ticket_reservation.Events.Dto.{CreateSeatRequest, CreateSeatsRequest, SeatResponse}
use study_ticket_reservation.Events.Service.{
  is_blank_seat, seat_params, find_event, create_each, create_seats,
}
use study_ticket_reservation.Catalogue.Inserts.{
  IsEvent, IsUnfound, IsServerError, AddsSeat, insert_seat-Post, find_event-Transacts,
}
use study_ticket_reservation.Catalogue.Seats.{Progress, create_each-Progress}

-- Refused before the first seat: the request names none, or there is no event.
pub record Refuses (event_id : Uuid) (input : CreateSeatsRequest) (w : Tx Database)
    (r : Result (List SeatResponse) × Tx Database) : Type 0 where
  pub error : Error
  pub answers : r.0 ≡ err error
  pub unchanged : r.1.db ≡ w.db
  pub reason : ((error ≡ invalid_seat_input) × (input.seats ≡ [])) ⊎ IsUnfound event_id w.db error

exists_of_IsEvent :
    (id : Uuid) (d : Database) (e : Event) → IsEvent id d e → event_exists id d ≡ true
exists_of_IsEvent id d e h = among d.events h
  where
    among :
        (es : List Event)
        → one (select (λ e. same_uuid e.id id) es) ≡ ok e
        → any (λ e. same_uuid e.id id) es ≡ true
    among [] h = cc
    among (x ∷ es) h = elim (Bool-cases (same_uuid x.id id)) [
      | inl hit ↦ rw hit refl
      | inr miss ↦ rw miss (among es (rw miss at h))
    ]

empty_of_length : (seats : List CreateSeatRequest) → length seats == 0 ≡ true → seats ≡ []
empty_of_length [] h = refl
empty_of_length (seat ∷ seats) h = absurd (ground arith)

module _ (env : Env) (event_id : Uuid) (input : CreateSeatsRequest) (w : Tx Database) where
  pub create_seats_lem :
      Refuses event_id input w (create_seats env event_id input w)
      ⊎ ((event_exists event_id w.db ≡ true)
          × (input.seats ≢ [])
          × Progress env.now event_id w.db input.seats (create_seats env event_id input w))
  unfolding create_seats raise ◌>>=◌
  create_seats_lem = elim (Bool-cases (length input.seats == 0)) [
    | inl none_named ↦ rw none_named (
        inl (record {
          error = invalid_seat_input;
          answers = refl;
          unchanged = refl;
          reason = inl (refl, empty_of_length input.seats none_named);
        }))
    | inr some_named ↦ rw some_named (
        continued (λ e. cc) (find_event env event_id w)
          ((find_event-Transacts env event_id w.db).at w refl))
  ]
    where
      continued :
          input.seats ≢ []
          → (r : Result Event × Tx Database)
          → Settled (λ e d. IsEvent event_id w.db e × (d ≡ w.db)) (IsUnfound event_id w.db) w.db r
          → Refuses event_id input w
              (let (x, w') = r in continue x (λ _. create_each env event_id input.seats) w')
            ⊎ ((event_exists event_id w.db ≡ true)
                × (input.seats ≢ [])
                × Progress env.now event_id w.db input.seats
                    (let (x, w') = r in continue x (λ _. create_each env event_id input.seats) w'))
      continued named (ok e, w') h = inr (
        exists_of_IsEvent event_id w.db e h.0,
        named,
        subst
            (λ (d : Database).
              Progress env.now event_id d input.seats (create_each env event_id input.seats w'))
            h.1 (create_each-Progress env event_id input.seats w'),
      )
      continued named (err e, w') h =
          inl (record { error = e; answers = refl; unchanged = h.1; reason = inr h.0 })

-- Where the event exists, no call fails and the first seat can be inserted, a blank seat after it makes
-- the request fail as a whole with `invalid_seat_input`, and yet the first seat stays in the database.
pub create_seats-keeps_first :
    (env : Env) (event_id : Uuid) (w : Tx Database) (event : Event) (row : Seat) (d1 : Database)
    (seat blank : CreateSeatRequest) (rest : List CreateSeatRequest)
    → ((n : ℕ) → env.fails n ≡ false)
    → IsEvent event_id w.db event
    → is_blank_seat seat ≡ false
    → is_blank_seat blank ≡ true
    → insert_seat env.now (seat_params event_id seat) (env.uuid (suc w.calls)) w.db ≡ ok (row, d1)
    → create_seats env event_id (record { seats = seat ∷ blank ∷ rest }) w ≡ (
      err invalid_seat_input,
      record { db = record w.db { seats = row ∷ w.db.seats }; calls = suc (suc w.calls) },
    )
unfolding create_seats create_each find_event get_event_by_id statement settle on_error answer ◌>>=◌
    continue raise Events.create_seat
create_seats-keeps_first env event_id w event row d1 seat blank rest runs found named bad inserted =
    let named_some : length (seat ∷ blank ∷ rest) == 0 ≡ false = ground arith in
    let read : one_event event_id w.db ≡ ok (event, w.db) = rw (found, one_event) refl in
    let added : d1 ≡ record w.db { seats = row ∷ w.db.seats } =
      (adds (insert_seat env.now (seat_params event_id seat) (env.uuid (suc w.calls)) w.db) inserted
        (insert_seat-Post env.now w.db (seat_params event_id seat)
          (env.uuid (suc w.calls)))).added in
    rw (named_some, runs w.calls, read, named, runs (suc w.calls), inserted, bad, added) refl
  where
    adds :
        (r : Result (Seat × Database))
        → r ≡ ok (row, d1)
        → BodyPost (AddsSeat env.now w.db (seat_params event_id seat)) IsServerError r
        → AddsSeat env.now w.db (seat_params event_id seat) row d1
    adds (ok (row', d')) e h =
        let same : (row' ≡ row) × (d' ≡ d1) = (cc, cc) in rw (← same.0, ← same.1) h
    adds (err x) e h = cc
