-- ===== src/Fixtures/SeedRequests.antt =====
-- Seed adds a whole fixture or nothing, and keeps the invariant (internal/modules/stressadmin).
use study_ticket_reservation.Base.{
  ℕ, ◌≡◌, refl, true, false, Option, none, some, List, ◌∷◌, map, ◌⊎◌, inl, inr, Bool-cases,
}
use study_ticket_reservation.Base.Text.{Text}
use study_ticket_reservation.Db.Types.{Timestamptz, hex, uuid_to_string}
use study_ticket_reservation.Db.Tx.{
  Error, failure, stress_admin_disabled, ok, err, Env, Tx, pure, lift, ◌>>=◌,
}
use study_ticket_reservation.Db.Triples.{Triple-statement, Triple-bind, Triple-pure, Triple-each}
use study_ticket_reservation.Db.Transactions.{
  Settled, Transacts, Transacts-with_tx, Transacts-raise, Transacts-lift, Transacts-map,
  Transacts-weaken,
}
use study_ticket_reservation.Sqlc.Models.{Event, TicketType, Seat}
use study_ticket_reservation.Sqlc.Database.{Database}
use study_ticket_reservation.Sqlc.Events.{
  CreateEventParams, insert_event, insert_ticket_type, create_event, create_ticket_type,
}
use study_ticket_reservation.StressAdmin.Dto.{SeedResponse}
use study_ticket_reservation.StressAdmin.Repository
use study_ticket_reservation.StressAdmin.Repository.{
  fixture_seat, fixture_ticket_type, seed_seats, seed_rows,
}
use study_ticket_reservation.StressAdmin.Service.{is_local, random_hex, fixture_event, seed}
use study_ticket_reservation.Inventory.Invariant.{Inv}
use study_ticket_reservation.Catalogue.Inserts.{
  IsServerError, AddsEvent, AddsTicketType, insert_event-Post, insert_ticket_type-Post,
}
use study_ticket_reservation.Catalogue.Seats.{with_seats}
use study_ticket_reservation.Catalogue.Keeps.{catalogue-Inv, adds_ticket_type-Inv}
use study_ticket_reservation.Fixtures.Seeding.{AddsSeats, grid, rows_args-grid, seed_rows-Triple}

-- A new event with these columns, a new ticket type with a thousand tickets, and a hundred new seats.
pub record AddsFixture (now : Timestamptz) (params : CreateEventParams) (d0 : Database)
    (event : Event) (ticket_type : TicketType) (seats : List Seat) (d : Database) : Type 0 where
  pub with_event : Database
  pub adds_event : AddsEvent now d0 params event with_event
  pub with_ticket_type : Database
  pub adds_ticket_type :
      AddsTicketType now with_event (fixture_ticket_type event.id) ticket_type with_ticket_type
  pub adds_seats : AddsSeats now (grid event.id) with_ticket_type seats d

seed-Triple :
    (env : Env) (params : CreateEventParams) (d0 : Database)
    → Transacts
        (λ d. d ≡ d0)
        (Repository.seed env params)
        (λ f d. AddsFixture env.now params d0 f.0 f.1 f.2 d)
        IsServerError
unfolding Repository.seed create_event create_ticket_type
seed-Triple env params d0 =
    Transacts-with_tx env _
      (Triple-bind {R = AddsEvent env.now d0 params} _ _
        (Triple-statement env (insert_event env.now params)
          (λ id d e. rw e (insert_event-Post env.now d0 params id)) tt)
        λ event. Triple-each _ _ _ _ λ d1 a.
          Triple-bind {R = AddsTicketType env.now d1 (fixture_ticket_type event.id)} _ _
            (Triple-statement env (insert_ticket_type env.now (fixture_ticket_type event.id))
              (λ id d e.
                rw e (insert_ticket_type-Post env.now d1 (fixture_ticket_type event.id) id))
              tt)
            λ ticket_type. Triple-each _ _ _ _ λ d2 t.
              Triple-bind {R = AddsSeats env.now (grid event.id) d2} _ _
                (rw (← rows_args-grid env event.id) (seed_rows-Triple env event.id 10 1 d2))
                λ seats.
                  Triple-pure (event, ticket_type, seats)
                    λ d s. record {
                      with_event = d1;
                      adds_event = a;
                      with_ticket_type = d2;
                      adds_ticket_type = t;
                      adds_seats = s;
                    })
      tt

AddsFixture-Inv :
    (now : Timestamptz) (params : CreateEventParams) (d0 : Database) (event : Event)
    (ticket_type : TicketType) (seats : List Seat) (d : Database)
    → AddsFixture now params d0 event ticket_type seats d
    → Inv d0
    → Inv d
AddsFixture-Inv now params d0 event ticket_type seats d f inv =
    let inv1 : Inv f.with_event =
      rw f.adds_event.added
        (catalogue-Inv d0 (record d0 { events = event ∷ d0.events }) inv refl) in
    let inv2 : Inv f.with_ticket_type =
      adds_ticket_type-Inv now f.with_event _ ticket_type f.with_ticket_type f.adds_ticket_type
        inv1 in
    rw f.adds_seats.1
      (catalogue-Inv f.with_ticket_type (with_seats f.with_ticket_type seats) inv2 refl)

-- The fixture of a request, and the ids that the response gives.
pub record Seeds (env : Env) (random : Option (List ℕ)) (now : ℕ) (d0 : Database)
    (response : SeedResponse) (d : Database) : Type 0 where
  pub bytes : List ℕ
  pub drawn : random ≡ some bytes
  pub event : Event
  pub ticket_type : TicketType
  pub seats : List Seat
  pub adds : AddsFixture env.now (fixture_event (hex bytes) now) d0 event ticket_type seats d
  pub shown : response ≡ record {
    event_id = uuid_to_string event.id;
    ticket_type_id = uuid_to_string ticket_type.id;
    seat_ids = map (λ (seat : Seat). uuid_to_string seat.id) seats;
  }
  pub keeps : Inv d

-- The endpoint is off, or there are no random bytes or the server refused a row.
abbrev pub SeedFails : (app_env : Text) → Option (List ℕ) → Error → Type 0
SeedFails app_env random e =
    ((e ≡ stress_admin_disabled) × (is_local app_env ≡ false))
    ⊎ ((is_local app_env ≡ true) × (((e ≡ failure) × (random ≡ none)) ⊎ IsServerError e))

module _ (env : Env) (app_env : Text) (now : ℕ) (d0 : Database) (inv : Inv d0) where
  seeds :
      (random : Option (List ℕ))
      → Transacts
          (λ d. d ≡ d0)
          (do
            suffix ← lift (random_hex random)
            fixture ← Repository.seed env (fixture_event suffix now)
            pure (record {
              event_id = uuid_to_string fixture.0.id;
              ticket_type_id = uuid_to_string fixture.1.id;
              seat_ids = map (λ (seat : Seat). uuid_to_string seat.id) fixture.2;
            }))
          (Seeds env random now d0)
          (λ e. ((e ≡ failure) × (random ≡ none)) ⊎ IsServerError e)
  unfolding random_hex
  seeds none = Transacts-lift (err failure) _ (λ a e. cc) (λ e h. inl (cc, refl))
  seeds (some bytes) =
      Transacts-lift (ok (hex bytes)) _
        (λ suffix h.
          let drawn : hex bytes ≡ suffix = cc in
          Transacts-weaken _ _ _ _ _
            (Transacts-map (Repository.seed env (fixture_event suffix now)) _
              (seed-Triple env (fixture_event suffix now) d0))
            (λ response d f. record {
              bytes = bytes;
              drawn = refl;
              event = f.0.0;
              ticket_type = f.0.1;
              seats = f.0.2;
              adds = rw drawn f.1;
              shown = f.2;
              keeps = AddsFixture-Inv env.now _ d0 f.0.0 f.0.1 f.0.2 d f.1 inv;
            })
            (λ e h. inr h))
        (λ e h. cc)

-- From a database that keeps the invariant, a request to seed either succeeds or fails. If it succeeds,
-- the random bytes were drawn, the invariant holds again, and a whole fixture is added: a new event with
-- the reserved prefix and the hexadecimal bytes for its name, from a day to 27 hours from now, a new
-- ticket type of it with a thousand tickets, and one new seat for each place in a grid of ten rows of
-- ten; the response gives their ids. If it fails, the database is as it was, and either the environment
-- is not a local one, or there were no bytes, or the server refused a row or a call.
pub seed_lem :
    (env : Env) (app_env : Text) (random : Option (List ℕ)) (now : ℕ) (w : Tx Database)
    → Inv w.db
    → Settled
        (Seeds env random now w.db)
        (SeedFails app_env random)
        w.db
        (seed env app_env random now w)
unfolding seed
seed_lem env app_env random now w inv = (transacts (Bool-cases (is_local app_env))).at w refl
  where
    transacts :
        (is_local app_env ≡ true) ⊎ (is_local app_env ≡ false)
        → Transacts
            (λ d. d ≡ w.db)
            (seed env app_env random now)
            (Seeds env random now w.db)
            (SeedFails app_env random)
    transacts (inr off) = rw off (Transacts-raise _ (inl (refl, off)))
    transacts (inl on) = rw on (
        Transacts-weaken _ _ _ _ _ (seeds env app_env now w.db inv random) (λ r d h. h)
          (λ e h. inr (on, h)))
