-- ===== src/Sessions.antt =====
-- internal/modules/sessions. GetCurrentSession (service.go) finds the session of a request by the hash of
-- its cookie, refuses it when it has expired, and touches it. Dto, Tokens, Creation and Handler have the
-- rest of the module.
pub mod Dto
pub mod Tokens
pub mod Creation
pub mod Handler
use study_ticket_reservation.Base.{ℕ, Option, none, some, length, ltb, ◌==◌, if◌then◌else◌}
use study_ticket_reservation.Base.Text.{Text}
use study_ticket_reservation.Db.Types.{timestamptz_to_time}
use study_ticket_reservation.Db.Tx.{
  session_required, is_no_rows, Env, Action, raise, on_error, ◌>>=◌,
}
use study_ticket_reservation.Sqlc.Models.{VisitorSession}
use study_ticket_reservation.Sqlc.Database.{Database}
use study_ticket_reservation.Sqlc.Sessions.{
  get_visitor_session_by_token_hash, touch_visitor_session,
}

-- `hash` stands for `HashToken`, whose SHA-256 is not part of the program.
module _ (env : Env) (hash : Text → Text) (now : ℕ) where
  -- The cookie of the request, if it has one.
  unfoldable pub get_current_session : Option Text → Action Database VisitorSession
  unfolding timestamptz_to_time
  get_current_session none = raise session_required
  get_current_session (some cookie) = if length cookie == 0 then raise session_required else do
    session ←
        on_error (get_visitor_session_by_token_hash env (hash cookie))
          (λ e. raise (if is_no_rows e then session_required else e))
    if ltb (timestamptz_to_time session.expires_at) now
        then raise session_required
        else touch_visitor_session env session.id
