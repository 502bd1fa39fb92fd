-- ===== src/Sqlc/Models.antt =====
-- internal/sqlc/models.go: a row of each table. The text columns `status` and `reservation_type`
-- hold the values that the code names, or any other text.
use study_ticket_reservation.Base.{Bool, true, false}
use study_ticket_reservation.Base.Int.{ℤ}
use study_ticket_reservation.Base.Text.{Text, text_eq}
use study_ticket_reservation.Db.Types.{Uuid, Timestamptz}

pub data Status : Type 0 where
  reserved confirmed cancelled expired : Status
  other_status : Text → Status

pub data ReservationType : Type 0 where
  by_quantity by_seats : ReservationType
  other_type : Text → ReservationType

unfoldable pub status_eq : Status → Status → Bool
status_eq reserved reserved = true
status_eq confirmed confirmed = true
status_eq cancelled cancelled = true
status_eq expired expired = true
status_eq (other_status s) (other_status t) = text_eq s t
status_eq _ _ = false

unfoldable pub is_quantity : ReservationType → Bool
is_quantity by_quantity = true
is_quantity _ = false

unfoldable pub is_seats : ReservationType → Bool
is_seats by_seats = true
is_seats _ = false

pub record Event : Type 0 where
  pub id : Uuid
  pub name : Text
  pub starts_at : Timestamptz
  pub ends_at : Timestamptz
  pub created_at : Timestamptz
  pub updated_at : Timestamptz

pub record Reservation : Type 0 where
  pub id : Uuid
  pub event_id : Uuid
  pub visitor_session_id : Uuid
  pub user_id : Uuid
  pub status : Status
  pub reservation_type : ReservationType
  pub idempotency_key : Text
  pub expires_at : Timestamptz
  pub created_at : Timestamptz
  pub updated_at : Timestamptz

pub record ReservationItem : Type 0 where
  pub id : Uuid
  pub reservation_id : Uuid
  pub ticket_type_id : Uuid
  pub quantity : ℤ
  pub status : Status
  pub created_at : Timestamptz
  pub updated_at : Timestamptz

pub record ReservationSeat : Type 0 where
  pub id : Uuid
  pub reservation_id : Uuid
  pub seat_id : Uuid
  pub status : Status
  pub expires_at : Timestamptz
  pub created_at : Timestamptz
  pub updated_at : Timestamptz

pub record Seat : Type 0 where
  pub id : Uuid
  pub event_id : Uuid
  pub section : Text
  pub row_name : Text
  pub seat_number : Text
  pub created_at : Timestamptz
  pub updated_at : Timestamptz

pub record TicketType : Type 0 where
  pub id : Uuid
  pub event_id : Uuid
  pub name : Text
  pub total_quantity : ℤ
  pub sold_quantity : ℤ
  pub reserved_quantity : ℤ
  pub created_at : Timestamptz
  pub updated_at : Timestamptz

pub record User : Type 0 where
  pub id : Uuid
  pub email : Text
  pub password_hash : Text
  pub created_at : Timestamptz
  pub updated_at : Timestamptz

pub record VisitorSession : Type 0 where
  pub id : Uuid
  pub user_id : Uuid
  pub anonymous_token_hash : Text
  pub created_at : Timestamptz
  pub updated_at : Timestamptz
  pub last_seen_at : Timestamptz
  pub expires_at : Timestamptz
