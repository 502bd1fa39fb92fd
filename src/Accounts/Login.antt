-- ===== src/Accounts/Login.antt =====
-- Login (internal/modules/auth/service.go) attaches the user to the session of the token that it returns.
use study_ticket_reservation.Base.{
  ℕ, ◌≡◌, refl, Bool, true, false, not, Option, List, [], ◌∷◌, any, select, ◌⊎◌, inl, inr,
  Bool-cases, arith, if◌then◌else◌,
}
use study_ticket_reservation.Base.Text.{Text, text_eq}
use study_ticket_reservation.Db.Tx.{
  Error, no_rows, failure, session_required, invalid_credentials, is_no_rows, Result, ok, err, Env,
  Tx, raise, attempt, on_error,
}
use study_ticket_reservation.Db.Triples.{BodyPost, BodyPost-mono}
use study_ticket_reservation.Db.Transactions.{Transacts, Transacts-statement, Transacts-reported}
use study_ticket_reservation.Db.Outcomes.{
  Outcome, Yields, Either, Yields-pure, Yields-raise, Yields-if, Yields-each, Yields-attempt,
  Yields-bind, Yields-Transacts, Yields-weaken,
}
use study_ticket_reservation.Sqlc.Models.{User, VisitorSession}
use study_ticket_reservation.Sqlc.Database.{Database, one}
use study_ticket_reservation.Sqlc.Users.{one_user, get_user_by_email}
use study_ticket_reservation.Sessions.{get_current_session}
use study_ticket_reservation.Auth.Service.{Auth, LoginResult, normalized, login_session, login}
use study_ticket_reservation.Accounts.Holders.{SameButSessions}
use study_ticket_reservation.Accounts.SessionCalls.{
  IsCurrent, NotCredentials, IsAttached, get_current_session-Yields, attach_user-Yields,
  create_anonymous_session-Yields,
}

-- The user of an email.
abbrev pub IsUser : (email : Text) → Database → User → Type 0
IsUser email d user = one (select (λ u. text_eq u.email email) d.users) ≡ ok user

-- The credentials name a user, the database differs in sessions only, and a session with the hash of the
-- returned token is the user's.
pub record LogsIn (a : Auth) (email password : Text) (d0 : Database) (result : LoginResult)
    (d : Database) : Type 0 where
  pub found : IsUser (normalized a.lower email) d0 result.user
  pub verified : a.compares result.user.password_hash password ≡ true
  pub others : SameButSessions d0 d
  pub attached : IsAttached (a.sessions.hash result.session_token) result.user d

-- No user has the email, or the password does not fit.
abbrev pub Unverified : Auth → (email password : Text) → Database → Type 0
Unverified a email password d =
    (any (λ u. text_eq u.email (normalized a.lower email)) d.users ≡ false)
    ⊎ ((user : User) × IsUser (normalized a.lower email) d user
        × (a.compares user.password_hash password ≡ false))

abbrev pub LoginFails : Auth → (email password : Text) → Database → Error → Database → Type 0
LoginFails a email password d0 e d =
    ((e ≡ invalid_credentials) × (d ≡ d0) × Unverified a email password d0) ⊎ NotCredentials d0 e d

module _ (env : Env) (a : Auth) (email password : Text) (d0 : Database) where
  found_user :
      Transacts
        (λ d. d ≡ d0)
        (on_error
          (get_user_by_email env (normalized a.lower email))
          (λ e. raise (if is_no_rows e then invalid_credentials else e)))
        (λ user d. IsUser (normalized a.lower email) d0 user × (d ≡ d0))
        (λ e. LoginFails a email password d0 e d0)
  unfolding get_user_by_email
  found_user =
      Transacts-reported
        {F = λ e.
          ((e ≡ no_rows) × (any (λ u. text_eq u.email (normalized a.lower email)) d0.users ≡ false))
          ⊎ (e ≡ failure)}
        _ _
        (Transacts-statement env (λ _. one_user test)
          (λ _.
            BodyPost-mono _ _ _ _ (one_user test d0) (λ u d h. h) (λ e h. inl h) (found d0.users))
          (inr refl))
        by_error
    where
      test : User → Bool
      test u = text_eq u.email (normalized a.lower email)

      found :
          (us : List User)
          → BodyPost
              (λ u d'. (one (select test us) ≡ ok u) × (d' ≡ d0))
              (λ e. (e ≡ no_rows) × (any test us ≡ false))
              (elim (one (select test us)) [ ok u ↦ ok (u, d0) | err e ↦ err e ])
      found [] = (refl, refl)
      found (u ∷ us) = elim (Bool-cases (test u)) [
        | inl hit ↦ rw hit (refl, refl)
        | inr miss ↦ rw miss (found us)
      ]

      by_error :
          (e : Error)
          → ((e ≡ no_rows) × (any test d0.users ≡ false)) ⊎ (e ≡ failure)
          → LoginFails a email password d0 (if is_no_rows e then invalid_credentials else e) d0
      by_error e (inl h) = rw h.0 (inl (refl, refl, inl h.1))
      by_error e (inr h) = rw h (inr ((λ x. cc), refl))

  module _ (random : Option (List ℕ)) (later : ℕ) (cookie : Option Text) (user : User)
      (found : IsUser (normalized a.lower email) d0 user)
      (verified : a.compares user.password_hash password ≡ true) where
    login_session-Yields :
        (current : Result VisitorSession) (d1 : Database)
        → Either (IsCurrent a.sessions.hash cookie d0) (NotCredentials d0) current d1
        → Yields
            (λ d. d ≡ d1)
            (login_session env a random later cookie user current)
            (LogsIn a email password d0)
            (LoginFails a email password d0)
    unfolding login_session
    login_session-Yields (ok current) d1 h =
        Yields-weaken {Q = LogsIn a email password d0} {E = NotCredentials d0} _
          (Yields-bind _ _
            (attach_user-Yields env a.sessions d0 user (a.sessions.hash h.1) current d1 h.0 h.3)
            λ _. Yields-pure _ (λ d p. record {
              found = found;
              verified = verified;
              others = p.0;
              attached = rw h.2 p.1;
            }))
          (λ result d p. p) (λ e d p. inr p)
    login_session-Yields (err session_required) d1 h =
        Yields-weaken {Q = LogsIn a email password d0} {E = NotCredentials d0} _
          (Yields-bind _ _
            (create_anonymous_session-Yields env a.sessions d0 user random later d1 h.1)
            λ created. Yields-each _ λ d2 c.
              Yields-bind _ _
                (attach_user-Yields env a.sessions d0 user (a.sessions.hash created.token)
                  created.session d2 c.0 c.1)
                λ _. Yields-pure _ (λ d p. record {
                  found = found;
                  verified = verified;
                  others = p.0;
                  attached = p.1;
                }))
          (λ result d p. p) (λ e d p. inr p)
    login_session-Yields (err e) d1 h = Yields-raise e (λ d p. inr (rw p h))

-- A login either succeeds or fails. If it succeeds, the normalized email names the user in the result and
-- the password fits its hash, only sessions differ in the database, and a session with the hash of the
-- returned token is attached to this user. If it fails with `invalid_credentials`, no user has the email
-- or the password does not fit, and the database is as it was; if it fails with another error, only
-- sessions may differ.
pub login_lem :
    (env : Env) (a : Auth) (random : Option (List ℕ)) (now later : ℕ) (cookie : Option Text)
    (email password : Text) (w : Tx Database)
    → Outcome
        (LogsIn a email password w.db)
        (LoginFails a email password w.db)
        (login env a random now later cookie email password w)
unfolding login
login_lem env a random now later cookie email password w = yields.at w refl
  where
    yields :
        Yields
          (λ d. d ≡ w.db)
          (login env a random now later cookie email password)
          (LogsIn a email password w.db)
          (LoginFails a email password w.db)
    yields =
        Yields-bind {R = λ user d. IsUser (normalized a.lower email) w.db user × (d ≡ w.db)} _ _
          (Yields-Transacts _ (found_user env a email password w.db) (λ u d h. h) (λ e h. h))
          λ user. Yields-each _ λ d1 h. rw h.1 (
            Yields-if (not (a.compares user.password_hash password)) _ _
              (λ wrong.
                Yields-raise invalid_credentials
                  (λ d e. inl (refl, e, inr (user, h.0, ground arith))))
              (λ right.
                Yields-bind
                  {R = Either (IsCurrent a.sessions.hash cookie w.db) (NotCredentials w.db)}
                  (attempt (get_current_session env a.sessions.hash now cookie)) _
                  (Yields-attempt _
                    (get_current_session-Yields env a.sessions.hash now w.db cookie))
                  λ current. Yields-each _ λ d2 c.
                    login_session-Yields env a email password w.db random later cookie user h.0
                      (ground arith) current d2 c))
