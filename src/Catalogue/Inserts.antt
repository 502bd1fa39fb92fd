-- ===== src/Catalogue/Inserts.antt =====
-- What the INSERTs of the catalogue add (internal/sqlc/events.sql.go), and the look-up of an event
-- before them.
use study_ticket_reservation.Base.{
  ◌≡◌, refl, true, false, not, ◌&&◌, ◌||◌, ◌∷◌, any, select, List, [], ◌⊎◌, inl, inr, Bool-cases,
  arith, if◌then◌else◌,
}
use study_ticket_reservation.Db.Types.{Uuid, Timestamptz, same_uuid}
use study_ticket_reservation.Db.Tx.{
  Error, no_rows, is_no_rows, statement, unique_violation, constraint_violation, failure,
  event_not_found, Env, err, ok,
}
use study_ticket_reservation.Db.Triples.{BodyPost, BodyPost-mono}
use study_ticket_reservation.Db.Transactions.{Transacts, Transacts-reported, Transacts-statement}
use study_ticket_reservation.Sqlc.Models.{Event, TicketType, Seat}
use study_ticket_reservation.Sqlc.Database.{Database, one, ticket_check}
use study_ticket_reservation.Sqlc.Events.{
  CreateEventParams, CreateTicketTypeParams, CreateSeatParams, new_event, new_ticket_type, new_seat,
  event_exists, same_place, insert_event, insert_ticket_type, insert_seat, one_event,
  get_event_by_id,
}
use study_ticket_reservation.Events.Service.{find_event}

-- The errors of an INSERT: a refusal by a constraint, or a call that failed.
abbrev pub IsServerError : Error → Type 0
IsServerError unique_violation = Unit
IsServerError constraint_violation = Unit
IsServerError failure = Unit
IsServerError _ = ⊥

module _ (now : Timestamptz) (d : Database) where
  -- The row is new, and with the columns that the request gave.
  pub record AddsEvent (arg : CreateEventParams) (e : Event) (d' : Database) : Type 0 where
    pub row : e ≡ new_event now e.id arg
    pub valid : e.id.valid ≡ true
    pub unused : any (λ o. same_uuid o.id e.id) d.events ≡ false
    pub added : d' ≡ record d { events = e ∷ d.events }

  pub record AddsTicketType (arg : CreateTicketTypeParams) (t : TicketType) (d' : Database)
      : Type 0 where
    pub row : t ≡ new_ticket_type now t.id arg
    pub valid : t.id.valid ≡ true
    pub checked : ticket_check t ≡ true
    pub unused : any (λ o. same_uuid o.id t.id) d.ticket_types ≡ false
    pub added : d' ≡ record d { ticket_types = t ∷ d.ticket_types }

  pub record AddsSeat (arg : CreateSeatParams) (s : Seat) (d' : Database) : Type 0 where
    pub row : s ≡ new_seat now s.id arg
    pub valid : s.id.valid ≡ true
    pub unused : any (λ o. same_uuid o.id s.id) d.seats ≡ false
    pub unused_place : any (same_place arg) d.seats ≡ false
    pub added : d' ≡ record d { seats = s ∷ d.seats }

  pub insert_event-Post :
      (arg : CreateEventParams) (id : Uuid)
      → BodyPost (AddsEvent arg) IsServerError (insert_event now arg id d)
  unfolding insert_event
  insert_event-Post arg id =
      elim (Bool-cases (not (id.valid && arg.starts_at.valid && arg.ends_at.valid))) [
        | inl bad ↦ rw bad tt
        | inr checked ↦ elim (Bool-cases (any (λ o. same_uuid o.id id) d.events)) [
          | inl taken ↦ rw (checked, taken) tt
          | inr free ↦
              rw (checked, free)
                (record { row = refl; valid = ground arith; unused = free; added = refl })
        ]
      ]

  pub insert_ticket_type-Post :
      (arg : CreateTicketTypeParams) (id : Uuid)
      → BodyPost (AddsTicketType arg) IsServerError (insert_ticket_type now arg id d)
  unfolding insert_ticket_type
  insert_ticket_type-Post arg id =
      elim (Bool-cases (not (id.valid && ticket_check (new_ticket_type now id arg)))) [
        | inl bad ↦ rw bad tt
        | inr checked ↦ elim (Bool-cases (any (λ o. same_uuid o.id id) d.ticket_types)) [
          | inl taken ↦ rw (checked, taken) tt
          | inr free ↦ elim (Bool-cases (not (event_exists arg.event_id d))) [
            | inl missing ↦ rw (checked, free, missing) tt
            | inr refers ↦
                rw (checked, free, refers)
                  (record {
                    row = refl;
                    valid = ground arith;
                    checked = ground arith;
                    unused = free;
                    added = refl;
                  })
          ]
        ]
      ]

  not_taken :
      (arg : CreateSeatParams) (id : Uuid) (ss : List Seat)
      → any (λ s. same_uuid s.id id || same_place arg s) ss ≡ false
      → (any (λ s. same_uuid s.id id) ss ≡ false) × (any (same_place arg) ss ≡ false)
  not_taken arg id [] h = (refl, refl)
  not_taken arg id (s ∷ ss) h = ground (arith, not_taken arg id ss)

  pub insert_seat-Post :
      (arg : CreateSeatParams) (id : Uuid)
      → BodyPost (AddsSeat arg) IsServerError (insert_seat now arg id d)
  unfolding insert_seat
  insert_seat-Post arg id = elim (Bool-cases (not id.valid)) [
    | inl bad ↦ rw bad tt
    | inr checked ↦ elim (Bool-cases (any (λ s. same_uuid s.id id || same_place arg s) d.seats)) [
      | inl taken ↦ rw (checked, taken) tt
      | inr free ↦ elim (Bool-cases (not (event_exists arg.event_id d))) [
        | inl missing ↦ rw (checked, free, missing) tt
        | inr refers ↦
            rw (checked, free, refers)
              (record {
                row = refl;
                valid = ground arith;
                unused = (not_taken arg id d.seats free).0;
                unused_place = (not_taken arg id d.seats free).1;
                added = refl;
              })
      ]
    ]
  ]

-- No such event, or a call that failed.
abbrev pub IsUnfound : Uuid → Database → Error → Type 0
IsUnfound id d e = ((e ≡ event_not_found) × (event_exists id d ≡ false)) ⊎ (e ≡ failure)

abbrev pub IsEvent : Uuid → Database → Event → Type 0
IsEvent id d e = one (select (λ e. same_uuid e.id id) d.events) ≡ ok e

one_event-Post :
    (id : Uuid) (d : Database)
    → BodyPost
        (λ e d'. IsEvent id d e × (d' ≡ d))
        (λ e. (e ≡ no_rows) × (event_exists id d ≡ false))
        (one_event id d)
one_event-Post id d = found d.events
  where
    found :
        (es : List Event)
        → BodyPost
            (λ e d'. (one (select (λ e. same_uuid e.id id) es) ≡ ok e) × (d' ≡ d))
            (λ e. (e ≡ no_rows) × (any (λ e. same_uuid e.id id) es ≡ false))
            (elim (one (select (λ e. same_uuid e.id id) es)) [ ok e ↦ ok (e, d) | err e ↦ err e ])
    found [] = (refl, refl)
    found (e ∷ es) = elim (Bool-cases (same_uuid e.id id)) [
      | inl hit ↦ rw hit (refl, refl)
      | inr miss ↦ rw miss (found es)
    ]

-- The look-up answers with the event, or that there is none.
pub find_event-Transacts :
    (env : Env) (id : Uuid) (d0 : Database)
    → Transacts
        (λ d. d ≡ d0)
        (find_event env id)
        (λ e d. IsEvent id d0 e × (d ≡ d0))
        (IsUnfound id d0)
unfolding find_event get_event_by_id
find_event-Transacts env id d0 =
    Transacts-reported {F = λ e. ((e ≡ no_rows) × (event_exists id d0 ≡ false)) ⊎ (e ≡ failure)}
      (statement env (λ _. one_event id)) _
      (Transacts-statement env (λ _. one_event id)
        (λ _.
          BodyPost-mono _ _ _ _ (one_event id d0) (λ e d h. h) (λ e h. inl h)
            (one_event-Post id d0))
        (inr refl))
      by_error
  where
    by_error :
        (e : Error)
        → ((e ≡ no_rows) × (event_exists id d0 ≡ false)) ⊎ (e ≡ failure)
        → IsUnfound id d0 (if is_no_rows e then event_not_found else e)
    by_error e (inl h) = rw h.0 (inl (refl, h.1))
    by_error e (inr h) = rw h (inr refl)
