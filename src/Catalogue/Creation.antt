-- ===== src/Catalogue/Creation.antt =====
-- CreateEvent and CreateTicketType (internal/modules/events/service.go): which inputs they accept, and
-- the one row that they add.
use study_ticket_reservation.Base.{
  ◌<◌, ◌≡◌, ◌≢◌, refl, ap, ◌∙◌, true, false, not, ◌||◌, [], ◌⊎◌, inl, inr, Bool-cases, ltb, ◌==◌,
  arith,
}
use study_ticket_reservation.Base.Int.{pos, leb_ℤ, ◌≤ℤ◌}
use study_ticket_reservation.Base.Text.{Text, text_eq, eq_of_text_eq, trim_space}
use study_ticket_reservation.Db.Types.{Uuid, uuid_to_string, timestamptz_to_time}
use study_ticket_reservation.Db.Tx.{
  Error, invalid_event_input, invalid_ticket_type_input, Env, pure, statement, ◌>>=◌,
}
use study_ticket_reservation.Db.Transactions.{
  Transacts, Transacts-raise, Transacts-statement, Transacts-bind, Transacts-map, Transacts-weaken,
}
use study_ticket_reservation.Sqlc.Models.{Event, TicketType}
use study_ticket_reservation.Sqlc.Database.{Database}
use study_ticket_reservation.Sqlc.Events
use study_ticket_reservation.Sqlc.Events.{event_exists, insert_event, insert_ticket_type}
use study_ticket_reservation.Events.Dto.{
  CreateEventRequest, EventResponse, CreateTicketTypeRequest, TicketTypeResponse,
}
use study_ticket_reservation.Events.Service.{
  is_blank, event_params, ticket_type_params, to_event_response, to_ticket_type_response,
  create_event, create_ticket_type, find_event,
}
use study_ticket_reservation.Catalogue.Inserts.{
  IsServerError, AddsEvent, AddsTicketType, IsEvent, IsUnfound, insert_event-Post,
  insert_ticket_type-Post, find_event-Transacts,
}

-- A name that is not blank, and an end after the start.
abbrev pub IsEventInput : CreateEventRequest → Type 0
IsEventInput input =
    (trim_space input.name ≢ []) × (0 < input.starts_at) × (input.starts_at < input.ends_at)

abbrev pub IsTicketTypeInput : CreateTicketTypeRequest → Type 0
IsTicketTypeInput input = (trim_space input.name ≢ []) × (pos 0 ≤ℤ input.total_quantity)

-- The input is refused by `invalid` if it is bad, and otherwise nothing but `E` fails.
abbrev pub Rejects : Type 0 → Error → (Error → Type 0) → Error → Type 0
Rejects Good invalid E e = ((e ≡ invalid) × ¬ Good) ⊎ (Good × E e)

-- The row, which is new, and the response: every column and every field of them is written out.
pub record CreatesEvent (env : Env) (input : CreateEventRequest) (d0 : Database)
    (response : EventResponse) (d : Database) : Type 0 where
  pub event : Event
  pub accepted : IsEventInput input
  pub row : event ≡ record {
    id = event.id;
    name = trim_space input.name;
    starts_at = record { time = input.starts_at; valid = true };
    ends_at = record { time = input.ends_at; valid = true };
    created_at = env.now;
    updated_at = env.now;
  }
  pub adds : AddsEvent env.now d0 (event_params input) event d
  pub shown : response ≡ record {
    id = uuid_to_string event.id;
    name = trim_space input.name;
    starts_at = input.starts_at;
    ends_at = input.ends_at;
    created_at = timestamptz_to_time env.now;
    updated_at = timestamptz_to_time env.now;
  }

pub record CreatesTicketType (env : Env) (id : Uuid) (input : CreateTicketTypeRequest)
    (d0 : Database) (response : TicketTypeResponse) (d : Database) : Type 0 where
  pub event : Event
  pub found : IsEvent id d0 event
  pub ticket_type : TicketType
  pub accepted : IsTicketTypeInput input
  pub row : ticket_type ≡ record {
    id = ticket_type.id;
    event_id = id;
    name = trim_space input.name;
    total_quantity = input.total_quantity;
    sold_quantity = pos 0;
    reserved_quantity = pos 0;
    created_at = env.now;
    updated_at = env.now;
  }
  pub adds : AddsTicketType env.now d0 (ticket_type_params id input) ticket_type d
  pub shown : response ≡ record {
    id = uuid_to_string ticket_type.id;
    event_id = uuid_to_string id;
    name = trim_space input.name;
    total_quantity = input.total_quantity;
    sold_quantity = pos 0;
    reserved_quantity = pos 0;
    created_at = timestamptz_to_time env.now;
    updated_at = timestamptz_to_time env.now;
  }

is_blank_lem : (s : Text) → is_blank s ≡ true → trim_space s ≡ []
unfolding is_blank
is_blank_lem s h = eq_of_text_eq (trim_space s) [] h

not_blank : (s : Text) → is_blank s ≡ false → trim_space s ≢ []
unfolding is_blank text_eq
not_blank s h e = let shown : text_eq (trim_space s) [] ≡ true = rw e refl in cc

module _ (env : Env) (d0 : Database) where
  created_event :
      (input : CreateEventRequest) (event : Event) (response : EventResponse) (d : Database)
      → IsEventInput input
      → AddsEvent env.now d0 (event_params input) event d
      → response ≡ to_event_response event
      → CreatesEvent env input d0 response d
  unfolding to_event_response timestamptz_to_time
  created_event input event response d good adds shown = record {
    event = event;
    accepted = good;
    row = adds.row;
    adds = adds;
    shown = shown ∙ ap to_event_response adds.row;
  }

  created_ticket_type :
      (id : Uuid) (input : CreateTicketTypeRequest) (event : Event) (ticket_type : TicketType)
      (response : TicketTypeResponse) (d : Database)
      → IsTicketTypeInput input
      → IsEvent id d0 event
      → AddsTicketType env.now d0 (ticket_type_params id input) ticket_type d
      → response ≡ to_ticket_type_response ticket_type
      → CreatesTicketType env id input d0 response d
  unfolding to_ticket_type_response
  created_ticket_type id input event ticket_type response d good found adds shown = record {
    event = event;
    found = found;
    ticket_type = ticket_type;
    accepted = good;
    row = adds.row;
    adds = adds;
    shown = shown ∙ ap to_ticket_type_response adds.row;
  }

module _ (env : Env) (d0 : Database) where
  pub create_event-Transacts :
      (input : CreateEventRequest)
      → Transacts
          (λ d. d ≡ d0)
          (create_event env input)
          (CreatesEvent env input d0)
          (Rejects (IsEventInput input) invalid_event_input IsServerError)
  unfolding create_event Events.create_event
  create_event-Transacts input =
      elim (Bool-cases (is_blank input.name || input.starts_at == 0 || input.ends_at == 0)) [
        | inl bad ↦
            rw bad (Transacts-raise _ (inl (refl, λ good. ground (arith, is_blank_lem input.name))))
        | inr named ↦ rw named (elim (Bool-cases (not (ltb input.starts_at input.ends_at))) [
          | inl bad ↦ rw bad (Transacts-raise _ (inl (refl, λ good. ground arith)))
          | inr ordered ↦ rw ordered (
              let good : IsEventInput input =
                (not_blank input.name (ground arith), ground arith, ground arith) in
              Transacts-weaken _ _ _ _ _
                (Transacts-map (statement env (insert_event env.now (event_params input))) _ (
                  Transacts-statement env (insert_event env.now (event_params input))
                    (λ id. insert_event-Post env.now d0 (event_params input) id) tt))
                (λ response d h. created_event env d0 input h.0 response d good h.1 h.2)
                (λ e h. inr (good, h)))
        ])
      ]

  -- What is left after the checks of the input.
  inserts_ticket_type :
      (id : Uuid) (input : CreateTicketTypeRequest) (event : Event)
      → IsTicketTypeInput input
      → IsEvent id d0 event
      → Transacts
          (λ d. d ≡ d0)
          (do
            ticket_type ← Events.create_ticket_type env (ticket_type_params id input)
            pure (to_ticket_type_response ticket_type))
          (CreatesTicketType env id input d0)
          IsServerError
  unfolding Events.create_ticket_type
  inserts_ticket_type id input event good found =
      Transacts-weaken _ _ _ _ _
        (Transacts-map (statement env (insert_ticket_type env.now (ticket_type_params id input))) _
          (Transacts-statement env (insert_ticket_type env.now (ticket_type_params id input))
            (λ new. insert_ticket_type-Post env.now d0 (ticket_type_params id input) new) tt))
        (λ response d h.
          created_ticket_type env d0 id input event h.0 response d good found h.1 h.2)
        (λ e h. h)

  pub create_ticket_type-Transacts :
      (id : Uuid) (input : CreateTicketTypeRequest)
      → Transacts
          (λ d. d ≡ d0)
          (create_ticket_type env id input)
          (CreatesTicketType env id input d0)
          (Rejects
            (IsTicketTypeInput input)
            invalid_ticket_type_input
            (λ e. IsUnfound id d0 e ⊎ IsServerError e))
  unfolding create_ticket_type
  create_ticket_type-Transacts id input =
      elim (Bool-cases (is_blank input.name || not (leb_ℤ (pos 0) input.total_quantity))) [
        | inl bad ↦
            rw bad (Transacts-raise _ (inl (refl, λ good. ground (arith, is_blank_lem input.name))))
        | inr named ↦ rw named (
            let good : IsTicketTypeInput input =
              (not_blank input.name (ground arith), ground arith) in
            Transacts-weaken _ _ _ _ _
              (Transacts-bind {R = IsEvent id d0} (find_event env id) _
                (Transacts-weaken _ _ _ _ _ (find_event-Transacts env id d0) (λ e d h. h)
                  (λ e h. inl h))
                (λ event found.
                  Transacts-weaken _ _ _ _ _ (inserts_ticket_type id input event good found)
                    (λ r d h. h) (λ e h. inr h)))
              (λ response d h. h) (λ e h. inr (good, h)))
      ]
