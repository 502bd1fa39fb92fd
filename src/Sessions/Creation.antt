-- ===== src/Sessions/Creation.antt =====
-- CreateAnonymousSession, AttachUser, the cookies and the response of a session
-- (internal/modules/sessions/service.go). `hash` stands for `HashToken`, as in the look-up.
use study_ticket_reservation.Base.{ℕ, ◌+◌, ◌/◌, Bool, true, false, Option, List, []}
use study_ticket_reservation.Base.Int.{pos, negsuc}
use study_ticket_reservation.Base.Text.{Text, text}
use study_ticket_reservation.Db.Types.{
  Uuid, uuid_to_string, optional_uuid_to_string, timestamptz_to_time,
}
use study_ticket_reservation.Db.Tx.{Env, Action, pure, lift, ◌>>=◌}
use study_ticket_reservation.Sqlc.Models.{VisitorSession}
use study_ticket_reservation.Sqlc.Database.{Database}
use study_ticket_reservation.Sqlc.Sessions.{
  CreateVisitorSessionParams, create_visitor_session, attach_user_to_visitor_session,
}
use study_ticket_reservation.Reservations.Service.{timestamp}
use study_ticket_reservation.Sessions.Dto.{SessionResponse, Cookie}
use study_ticket_reservation.Sessions.Tokens.{generate_token}

-- `NewService`: the time to live, in microseconds and not negative, and whether cookies are secure.
pub record SessionService : Type 0 where
  pub hash : Text → Text
  pub ttl : ℕ
  pub cookie_secure : Bool

pub record CreatedSession : Type 0 where
  pub session : VisitorSession
  pub token : Text

abbrev pub cookie_name : Text
cookie_name = text "visitor_session"

abbrev pub session_params : SessionService → (token : Text) (now : ℕ) → CreateVisitorSessionParams
session_params s token now = record {
  anonymous_token_hash = s.hash token;
  last_seen_at = timestamp now;
  expires_at = timestamp (now + s.ttl);
}

module _ (env : Env) (s : SessionService) where
  unfoldable pub create_anonymous_session :
      (random : Option (List ℕ)) (now : ℕ) → Action Database CreatedSession
  unfolding generate_token create_visitor_session
  create_anonymous_session random now = do
    token ← lift (generate_token random)
    session ← create_visitor_session env (session_params s token now)
    pure (record { session = session; token = token })

  unfoldable pub attach_user : VisitorSession → (user_id : Uuid) → Action Database VisitorSession
  unfolding attach_user_to_visitor_session
  attach_user session user_id =
      attach_user_to_visitor_session env (record { id = session.id; user_id = user_id })

-- The seconds of the time to live, rounded down.
unfoldable pub build_cookie : SessionService → (token : Text) → Cookie
build_cookie s token = record {
  name = cookie_name;
  value = token;
  path = text "/";
  max_age = pos (s.ttl / 1_000_000);
  expires_at_epoch = false;
  http_only = true;
  same_site_lax = true;
  secure = s.cookie_secure;
}

unfoldable pub clear_cookie : SessionService → Cookie
clear_cookie s = record {
  name = cookie_name;
  value = [];
  path = text "/";
  max_age = negsuc 0;
  expires_at_epoch = true;
  http_only = true;
  same_site_lax = true;
  secure = s.cookie_secure;
}

unfoldable pub to_session_response : VisitorSession → SessionResponse
to_session_response session = record {
  id = uuid_to_string session.id;
  user_id = optional_uuid_to_string session.user_id;
  created_at = timestamptz_to_time session.created_at;
  updated_at = timestamptz_to_time session.updated_at;
  last_seen_at = timestamptz_to_time session.last_seen_at;
  expires_at = timestamptz_to_time session.expires_at;
}
