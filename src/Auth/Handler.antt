-- ===== src/Auth/Handler.antt =====
-- The HTTP handlers of internal/modules/auth/handler.go. A reply comes with the cookie that it sets.
use study_ticket_reservation.Base.{ℕ, Option, none, some, List, length, ◌==◌, if◌then◌else◌}
use study_ticket_reservation.Base.Text.{Text, text}
use study_ticket_reservation.Db.Tx.{
  Error, email_already_registered, invalid_credentials, Result, ok, err, Env, Action, pure, attempt,
  ◌>>=◌,
}
use study_ticket_reservation.Sqlc.Models.{User}
use study_ticket_reservation.Sqlc.Database.{Database}
use study_ticket_reservation.Http.{Reply, answered, refused, for_payload}
use study_ticket_reservation.Sessions.Dto.{Cookie}
use study_ticket_reservation.Sessions.Creation.{SessionService, build_cookie, clear_cookie}
use study_ticket_reservation.Auth.Dto.{RegisterRequest, LoginRequest, UserResponse, LogoutResponse}
use study_ticket_reservation.Auth.Service.{Auth, LoginResult, register, login, to_user_response}

module _ {A : Type 0} where
  unfoldable pub register_error : Error → Reply A
  register_error email_already_registered =
      refused 409 (text "EMAIL_ALREADY_REGISTERED") (text "Email is already registered")
  register_error _ =
      refused 400 (text "INVALID_REGISTER_REQUEST") (text "Email and password are required")

unfoldable pub register_reply : Result User → Reply UserResponse
unfolding register_error to_user_response
register_reply (ok user) = answered 201 (to_user_response user)
register_reply (err e) = register_error e

-- The cookie is set only for a token that is not empty.
unfoldable pub login_reply :
    SessionService → Result LoginResult → Reply UserResponse × Option Cookie
unfolding to_user_response build_cookie
login_reply s (ok result) = (
  answered 200 (to_user_response result.user),
  if length result.session_token == 0 then none else some (build_cookie s result.session_token),
)
login_reply s (err invalid_credentials) =
    (refused 401 (text "INVALID_CREDENTIALS") (text "Invalid email or password"), none)
login_reply s (err _) = (refused 500 (text "LOGIN_FAILED") (text "Could not login"), none)

abbrev with_no_cookie : {A : Type 0} → Reply A → Reply A × Option Cookie
with_no_cookie r = (r, none)

module _ (env : Env) (a : Auth) where
  unfoldable pub handle_register :
      (body : Option RegisterRequest) → Action Database (Reply UserResponse)
  unfolding for_payload register_reply
  handle_register body = for_payload body λ payload. do
    result ← attempt (register env a payload.email payload.password)
    pure (register_reply result)

  unfoldable pub answer_login :
      (random : Option (List ℕ)) (now later : ℕ) (cookie : Option Text)
      → LoginRequest
      → Action Database (Reply UserResponse × Option Cookie)
  unfolding login_reply
  answer_login random now later cookie payload = do
    result ← attempt (login env a random now later cookie payload.email payload.password)
    pure (login_reply a.sessions result)

  unfoldable pub handle_login :
      (random : Option (List ℕ)) (now later : ℕ) (cookie : Option Text) (body : Option LoginRequest)
      → Action Database (Reply UserResponse × Option Cookie)
  unfolding answer_login
  handle_login random now later cookie (some payload) = answer_login random now later cookie payload
  handle_login random now later cookie none =
      pure (
        with_no_cookie (refused 400 (text "INVALID_JSON") (text "Request body must be valid JSON")))

-- No statement runs.
unfoldable pub handle_logout : SessionService → Reply LogoutResponse × Cookie
unfolding clear_cookie
handle_logout s = (answered 200 (record { status = text "logged_out" }), clear_cookie s)
