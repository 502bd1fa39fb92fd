-- ===== src/Auth/Dto.antt =====
-- internal/modules/auth/dto.go.
use study_ticket_reservation.Base.{ℕ}
use study_ticket_reservation.Base.Text.{Text}

pub record RegisterRequest : Type 0 where
  pub email : Text
  pub password : Text

pub record LoginRequest : Type 0 where
  pub email : Text
  pub password : Text

pub record UserResponse : Type 0 where
  pub id : Text
  pub email : Text
  pub created_at : ℕ
  pub updated_at : ℕ

pub record LogoutResponse : Type 0 where
  pub status : Text
