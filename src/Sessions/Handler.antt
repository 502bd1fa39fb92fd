-- ===== src/Sessions/Handler.antt =====
-- The HTTP handlers of internal/modules/sessions/handler.go. A reply comes with the cookie that it sets.
use study_ticket_reservation.Base.{ℕ, Option, none, some, List}
use study_ticket_reservation.Base.Text.{Text, text}
use study_ticket_reservation.Db.Types.{uuid_to_string}
use study_ticket_reservation.Db.Tx.{
  session_required, Result, ok, err, Env, Action, pure, attempt, ◌>>=◌,
}
use study_ticket_reservation.Sqlc.Models.{VisitorSession}
use study_ticket_reservation.Sqlc.Database.{Database}
use study_ticket_reservation.Http.{Reply, answered, refused}
use study_ticket_reservation.Sessions.{get_current_session}
use study_ticket_reservation.Sessions.Dto.{AnonymousSessionResponse, SessionResponse, Cookie}
use study_ticket_reservation.Sessions.Creation.{
  SessionService, CreatedSession, create_anonymous_session, build_cookie, to_session_response,
}

unfoldable pub created_reply :
    SessionService → Result CreatedSession → Reply AnonymousSessionResponse × Option Cookie
unfolding build_cookie
created_reply s (ok created) = (
  answered 201 (record { visitor_session_id = uuid_to_string created.session.id }),
  some (build_cookie s created.token),
)
created_reply s (err e) =
    (refused 500 (text "SESSION_CREATE_FAILED") (text "Could not create session"), none)

unfoldable pub current_reply : Result VisitorSession → Reply SessionResponse
unfolding to_session_response
current_reply (ok session) = answered 200 (to_session_response session)
current_reply (err session_required) =
    refused 401 (text "SESSION_REQUIRED") (text "A valid visitor session is required")
current_reply (err _) = refused 500 (text "SESSION_LOOKUP_FAILED") (text "Could not read session")

module _ (env : Env) (s : SessionService) where
  unfoldable pub handle_create_anonymous_session :
      (random : Option (List ℕ)) (now : ℕ)
      → Action Database (Reply AnonymousSessionResponse × Option Cookie)
  unfolding created_reply
  handle_create_anonymous_session random now = do
    result ← attempt (create_anonymous_session env s random now)
    pure (created_reply s result)

  unfoldable pub handle_get_current_session :
      (now : ℕ) (cookie : Option Text) → Action Database (Reply SessionResponse)
  unfolding current_reply
  handle_get_current_session now cookie = do
    result ← attempt (get_current_session env s.hash now cookie)
    pure (current_reply result)
