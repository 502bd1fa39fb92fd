-- ===== src/Accounts/SessionCalls.antt =====
-- The calls of internal/modules/sessions/service.go that a login makes: what they leave, failed or not.
use study_ticket_reservation.Base.{
  ℕ, ◌≡◌, ◌≢◌, refl, ap, ◌∙◌, Bool, true, Option, none, some, List, length, ltb, ◌==◌, ◌⊎◌, inl,
  inr, if◌then◌else◌,
}
use study_ticket_reservation.Base.Text.{Text, text_eq}
use study_ticket_reservation.Db.Types.{timestamptz_to_time}
use study_ticket_reservation.Db.Tx.{
  Error, no_rows, unique_violation, constraint_violation, failure, session_required,
  invalid_credentials, is_no_rows, Env, raise, lift, on_error,
}
use study_ticket_reservation.Db.Triples.{BodyPost-mono}
use study_ticket_reservation.Db.Transactions.{Transacts, Transacts-statement, Transacts-reported}
use study_ticket_reservation.Db.Outcomes.{
  Yields, Yields-pure, Yields-lift, Yields-raise, Yields-if, Yields-each, Yields-bind,
  Yields-Transacts,
}
use study_ticket_reservation.Sqlc.Models.{User, VisitorSession}
use study_ticket_reservation.Sqlc.Database.{Database}
use study_ticket_reservation.Sqlc.Sessions.{
  one_session, touch_session, insert_session, attach_session, get_visitor_session_by_token_hash,
  touch_visitor_session, create_visitor_session, attach_user_to_visitor_session,
}
use study_ticket_reservation.Sessions.{get_current_session}
use study_ticket_reservation.Sessions.Tokens.{generate_token}
use study_ticket_reservation.Sessions.Creation.{
  SessionService, session_params, create_anonymous_session, attach_user,
}
use study_ticket_reservation.Accounts.Holders.{
  Some, IsHolder, SameButSessions, Some-selected, one_session-Post, touch_session-Post,
  attach_session-Post, insert_session-Post,
}

-- The session row of a request, after the look-up.
abbrev pub IsCurrent :
    (hash : Text → Text) → Option Text → Database → VisitorSession → Database → Type 0
IsCurrent hash cookie d0 t d =
    SameButSessions d0 d
    × (c : Text) × (cookie ≡ some c)
    × Some (IsHolder (hash c) t.id) d.visitor_sessions

abbrev pub NotCredentials : Database → Error → Database → Type 0
NotCredentials d0 e d = (e ≢ invalid_credentials) × SameButSessions d0 d

module _ (env : Env) (hash : Text → Text) (now : ℕ) (d0 : Database) where
  found_session :
      (c : Text)
      → Transacts
          (λ d. d ≡ d0)
          (on_error
            (get_visitor_session_by_token_hash env (hash c))
            (λ e. raise (if is_no_rows e then session_required else e)))
          (λ s d.
            Some
              (λ x. (x ≡ s) × (text_eq x.anonymous_token_hash (hash c) ≡ true))
              d0.visitor_sessions
            × (d ≡ d0))
          (λ e. e ≢ invalid_credentials)
  unfolding get_visitor_session_by_token_hash
  found_session c =
      Transacts-reported {F = λ e. (e ≡ no_rows) ⊎ (e ≡ failure)} _ _
        (Transacts-statement env (λ _. one_session test)
          (λ _.
            BodyPost-mono _ _ _ _ (one_session test d0)
              (λ s d h. (Some-selected test d0.visitor_sessions s h.0, h.1)) (λ e h. inl h)
              (one_session-Post test d0))
          (inr refl))
        by_error
    where
      test : VisitorSession → Bool
      test s = text_eq s.anonymous_token_hash (hash c)

      by_error :
          (e : Error)
          → (e ≡ no_rows) ⊎ (e ≡ failure)
          → (if is_no_rows e then session_required else e) ≢ invalid_credentials
      by_error e (inl h) = rw h (λ x. cc)
      by_error e (inr h) = rw h (λ x. cc)

  server_error : (e : Error) → (e ≡ no_rows) ⊎ (e ≡ failure) → NotCredentials d0 e d0
  server_error e (inl h) = rw h ((λ x. cc), refl)
  server_error e (inr h) = rw h ((λ x. cc), refl)

  pub get_current_session-Yields :
      (cookie : Option Text)
      → Yields
          (λ d. d ≡ d0)
          (get_current_session env hash now cookie)
          (IsCurrent hash cookie d0)
          (NotCredentials d0)
  unfolding get_current_session touch_visitor_session
  get_current_session-Yields none = Yields-raise session_required (λ d e. ((λ x. cc), rw e refl))
  get_current_session-Yields (some c) =
      Yields-if (length c == 0) _ _
        (λ _. Yields-raise session_required (λ d e. ((λ x. cc), rw e refl)))
        (λ _.
          Yields-bind
            {R = λ s d.
              Some (λ x. (x ≡ s) × (text_eq x.anonymous_token_hash (hash c) ≡ true))
                d0.visitor_sessions
              × (d ≡ d0)}
            _ _ (Yields-Transacts _ (found_session c) (λ s d h. h) (λ e h. (h, refl)))
            λ s. Yields-each _ λ d1 h.
              Yields-if (ltb (timestamptz_to_time s.expires_at) now) _ _
                (λ _. Yields-raise session_required (λ d e. ((λ x. cc), rw (e, h.1) refl)))
                (λ _. rw h.1 (
                  Yields-Transacts {E = λ e. (e ≡ no_rows) ⊎ (e ≡ failure)} _
                    (Transacts-statement env (λ _. touch_session env.now s.id)
                      (λ _.
                        BodyPost-mono _ _ _ _ (touch_session env.now s.id d0) (λ t d p. p)
                          (λ e p. inl p) (touch_session-Post env.now (hash c) s d0 h.0))
                      (inr refl))
                    (λ t d p. (p.0, c, refl, p.1)) server_error)))

SameButSessions-trans :
    (d0 d1 d2 : Database) → SameButSessions d0 d1 → SameButSessions d1 d2 → SameButSessions d0 d2
SameButSessions-trans d0 d1 d2 h k =
    let with_sessions : Database → Database =
      λ d. record d { visitor_sessions = d2.visitor_sessions } in
    k ∙ ap with_sessions h

-- A session with this hash is the user's.
abbrev pub IsAttached : (hash : Text) → User → Database → Type 0
IsAttached hash user d =
    Some (λ s. (s.anonymous_token_hash ≡ hash) × (s.user_id ≡ user.id)) d.visitor_sessions

module _ (env : Env) (s : SessionService) (d0 : Database) (user : User) where
  pub attach_user-Yields :
      (hash : Text) (session : VisitorSession) (d1 : Database)
      → SameButSessions d0 d1
      → Some (IsHolder hash session.id) d1.visitor_sessions
      → Yields
          (λ d. d ≡ d1)
          (attach_user env s session user.id)
          (λ _ d. SameButSessions d0 d × IsAttached hash user d)
          (NotCredentials d0)
  unfolding attach_user attach_user_to_visitor_session
  attach_user-Yields hash session d1 same holder =
      Yields-Transacts {E = λ e. (e ≡ no_rows) ⊎ (e ≡ constraint_violation) ⊎ (e ≡ failure)} _
        (Transacts-statement env
          (λ _. attach_session env.now (record { id = session.id; user_id = user.id }))
          (λ _.
            BodyPost-mono _ _ _ _
              (attach_session env.now (record { id = session.id; user_id = user.id }) d1)
              (λ _ d p. p) by_body
              (attach_session-Post env.now hash (record { id = session.id; user_id = user.id }) d1
                holder))
          (inr (inr refl)))
        (λ _ d p. (SameButSessions-trans d0 d1 d same p.0, p.1)) by_error
    where
      by_body :
          (e : Error)
          → (e ≡ no_rows) ⊎ (e ≡ constraint_violation)
          → (e ≡ no_rows) ⊎ (e ≡ constraint_violation) ⊎ (e ≡ failure)
      by_body e (inl h) = inl h
      by_body e (inr h) = inr (inl h)

      by_error :
          (e : Error)
          → (e ≡ no_rows) ⊎ (e ≡ constraint_violation) ⊎ (e ≡ failure)
          → NotCredentials d0 e d1
      by_error e (inl h) = rw h ((λ x. cc), same)
      by_error e (inr (inl h)) = rw h ((λ x. cc), same)
      by_error e (inr (inr h)) = rw h ((λ x. cc), same)

  pub create_anonymous_session-Yields :
      (random : Option (List ℕ)) (now : ℕ) (d1 : Database)
      → SameButSessions d0 d1
      → Yields
          (λ d. d ≡ d1)
          (create_anonymous_session env s random now)
          (λ created d.
            SameButSessions d0 d
            × Some (IsHolder (s.hash created.token) created.session.id) d.visitor_sessions)
          (NotCredentials d0)
  unfolding create_anonymous_session create_visitor_session generate_token
  create_anonymous_session-Yields random now d1 same =
      Yields-bind {R = λ _ d. d ≡ d1} (lift (generate_token random)) _ (drawn random) λ token.
        Yields-bind
          {R = λ session d.
            SameButSessions d0 d × Some (IsHolder (s.hash token) session.id) d.visitor_sessions}
          _ _
          (Yields-Transacts
            {E = λ e. (e ≡ unique_violation) ⊎ (e ≡ constraint_violation) ⊎ (e ≡ failure)} _
            (Transacts-statement env (insert_session env.now (session_params s token now))
              (λ id.
                BodyPost-mono _ _ _ _ (insert_session env.now (session_params s token now) id d1)
                  (λ _ d p. p) by_body
                  (insert_session-Post env.now (session_params s token now) id d1))
              (inr (inr refl)))
            (λ _ d p. (SameButSessions-trans d0 d1 d same p.0, p.1)) by_error)
          λ session. Yields-pure _ (λ d p. p)
    where
      drawn :
          (random : Option (List ℕ))
          → Yields (λ d. d ≡ d1) (lift (generate_token random)) (λ _ d. d ≡ d1) (NotCredentials d0)
      drawn none = Yields-lift (generate_token none) (λ d e. ((λ x. cc), rw e same))
      drawn (some bytes) = Yields-lift (generate_token (some bytes)) (λ d e. e)

      by_body :
          (e : Error)
          → (e ≡ unique_violation) ⊎ (e ≡ constraint_violation)
          → (e ≡ unique_violation) ⊎ (e ≡ constraint_violation) ⊎ (e ≡ failure)
      by_body e (inl h) = inl h
      by_body e (inr h) = inr (inl h)

      by_error :
          (e : Error)
          → (e ≡ unique_violation) ⊎ (e ≡ constraint_violation) ⊎ (e ≡ failure)
          → NotCredentials d0 e d1
      by_error e (inl h) = rw h ((λ x. cc), same)
      by_error e (inr (inl h)) = rw h ((λ x. cc), same)
      by_error e (inr (inr h)) = rw h ((λ x. cc), same)
