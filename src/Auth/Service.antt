-- ===== src/Auth/Service.antt =====
-- The operations of internal/modules/auth/service.go. A text is a list of code points, and its `len` the
-- number of bytes that UTF-8 takes for them.
use study_ticket_reservation.Base.{
  ℕ, ◌+◌, Bool, not, ◌||◌, Option, none, some, List, [], ◌∷◌, map, ltb, if◌then◌else◌,
}
use study_ticket_reservation.Base.Text.{Text, text_eq, trim_space}
use study_ticket_reservation.Db.Types.{uuid_to_string, timestamptz_to_time}
use study_ticket_reservation.Db.Tx.{
  failure, session_required, invalid_register_request, email_already_registered,
  invalid_credentials, current_user_required, is_no_rows, is_unique_violation, Result, ok, err, Env,
  Action, pure, raise, lift, attempt, ◌>>=◌, ◌>>◌,
}
use study_ticket_reservation.Sqlc.Models.{User, VisitorSession}
use study_ticket_reservation.Sqlc.Database.{Database}
use study_ticket_reservation.Sqlc.Users.{create_user, get_user_by_email, get_user_by_id}
use study_ticket_reservation.Reservations.Service.{instead}
use study_ticket_reservation.Sessions.{get_current_session}
use study_ticket_reservation.Sessions.Creation.{
  SessionService, create_anonymous_session, attach_user,
}
use study_ticket_reservation.Auth.Dto.{UserResponse}

-- `unicode.ToLower`, and bcrypt, which are not part of the program: `generate` is
-- `GenerateFromPassword`, which may fail, and `compares` tells that `CompareHashAndPassword` finds no
-- error for a hash and a password.
pub record Auth : Type 0 where
  pub lower : ℕ → ℕ
  pub generate : (password : Text) → Option Text
  pub compares : (password_hash password : Text) → Bool
  pub sessions : SessionService

pub record LoginResult : Type 0 where
  pub user : User
  pub session_token : Text

-- The bytes of a code point in UTF-8.
abbrev utf8_width : ℕ → ℕ
utf8_width c = if ltb c 0x80 then 1 else if ltb c 0x800 then 2 else if ltb c 0x10000 then 3 else 4

unfoldable pub byte_length : Text → ℕ
byte_length [] = 0
byte_length (c ∷ cs) = utf8_width c + byte_length cs

-- `strings.ToLower(strings.TrimSpace(email))`.
unfoldable pub normalized : (lower : ℕ → ℕ) → (email : Text) → Text
unfolding trim_space
normalized lower email = map lower (trim_space email)

unfoldable pub hashed : Option Text → Result Text
hashed (some password_hash) = ok password_hash
hashed none = err failure

-- The token that the browser has already.
abbrev pub cookie_value : Option Text → Text
cookie_value (some cookie) = cookie
cookie_value none = []

module _ (env : Env) (a : Auth) where
  unfoldable pub register : (email password : Text) → Action Database User
  unfolding normalized byte_length hashed create_user
  register email password =
      if text_eq (normalized a.lower email) [] || ltb (byte_length password) 8
      then raise invalid_register_request
      else do
        password_hash ← lift (hashed (a.generate password))
        instead is_unique_violation email_already_registered (
            create_user env
              (record { email = normalized a.lower email; password_hash = password_hash }))

  -- What a login does once the session of the request is known.
  unfoldable pub login_session :
      (random : Option (List ℕ)) (later : ℕ) (cookie : Option Text)
      → User
      → Result VisitorSession
      → Action Database LoginResult
  unfolding create_anonymous_session attach_user
  login_session random later cookie user (err session_required) = do
    created ← create_anonymous_session env a.sessions random later
    attach_user env a.sessions created.session user.id
    pure (record { user = user; session_token = created.token })
  login_session random later cookie user (err e) = raise e
  login_session random later cookie user (ok current) = do
    attach_user env a.sessions current user.id
    pure (record { user = user; session_token = cookie_value cookie })

  -- `now` and `later` are the readings of the clock for the current and a new session.
  unfoldable pub login :
      (random : Option (List ℕ)) (now later : ℕ) (cookie : Option Text) (email password : Text)
      → Action Database LoginResult
  unfolding normalized get_user_by_email login_session
  login random now later cookie email password = do
    user ← instead is_no_rows invalid_credentials (get_user_by_email env (normalized a.lower email))
    if not (a.compares user.password_hash password) then raise invalid_credentials else do
      current ← attempt (get_current_session env a.sessions.hash now cookie)
      login_session random later cookie user current

-- `GetUserByID` without rows is no error.
unfoldable pub found_user : Result User → Result (Option User)
found_user (ok user) = ok (some user)
found_user (err e) = if is_no_rows e then ok none else err e

unfoldable pub required_user : Option User → Result User
required_user (some user) = ok user
required_user none = err current_user_required

module _ (env : Env) where
  unfoldable pub get_optional_user : VisitorSession → Action Database (Option User)
  unfolding get_user_by_id found_user
  get_optional_user session =
      if not session.user_id.valid
      then pure none
      else do result ← attempt (get_user_by_id env session.user_id); lift (found_user result)

  unfoldable pub get_current_user : VisitorSession → Action Database User
  unfolding get_optional_user required_user
  get_current_user session = do user ← get_optional_user session; lift (required_user user)

unfoldable pub to_user_response : User → UserResponse
to_user_response user = record {
  id = uuid_to_string user.id;
  email = user.email;
  created_at = timestamptz_to_time user.created_at;
  updated_at = timestamptz_to_time user.updated_at;
}
