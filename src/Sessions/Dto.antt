-- ===== src/Sessions/Dto.antt =====
-- internal/modules/sessions/dto.go, and the cookie that a response sets.
use study_ticket_reservation.Base.{ℕ, Bool, Option}
use study_ticket_reservation.Base.Int.{ℤ}
use study_ticket_reservation.Base.Text.{Text}

pub record AnonymousSessionResponse : Type 0 where
  pub visitor_session_id : Text

pub record SessionResponse : Type 0 where
  pub id : Text
  pub user_id : Option Text
  pub created_at : ℕ
  pub updated_at : ℕ
  pub last_seen_at : ℕ
  pub expires_at : ℕ

-- The fields of `http.Cookie` that the program sets; `Expires` is the Unix epoch where it is set.
pub record Cookie : Type 0 where
  pub name : Text
  pub value : Text
  pub path : Text
  pub max_age : ℤ
  pub expires_at_epoch : Bool
  pub http_only : Bool
  pub same_site_lax : Bool
  pub secure : Bool
