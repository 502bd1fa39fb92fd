-- ===== src/Reservations/Dto.antt =====
-- internal/modules/reservations/dto.go. A time is the number that `timestamptz_to_time` returns.
use study_ticket_reservation.Base.{ℕ, List}
use study_ticket_reservation.Base.Int.{ℤ}
use study_ticket_reservation.Base.Text.{Text}
use study_ticket_reservation.Sqlc.Models.{Status, ReservationType}

pub record QuantityReservationRequest : Type 0 where
  pub event_id : Text
  pub ticket_type_id : Text
  pub quantity : ℤ
  pub idempotency_key : Text

pub record QuantityReservationItemResponse : Type 0 where
  pub ticket_type_id : Text
  pub quantity : ℤ

pub record QuantityReservationResponse : Type 0 where
  pub reservation_id : Text
  pub status : Status
  pub reservation_type : ReservationType
  pub expires_at : ℕ
  pub items : List QuantityReservationItemResponse

pub record SeatReservationRequest : Type 0 where
  pub event_id : Text
  pub seat_ids : List Text
  pub idempotency_key : Text

pub record SeatReservationItemResponse : Type 0 where
  pub seat_id : Text

pub record SeatReservationResponse : Type 0 where
  pub reservation_id : Text
  pub status : Status
  pub reservation_type : ReservationType
  pub expires_at : ℕ
  pub seats : List SeatReservationItemResponse

pub record ReservationItemDetailResponse : Type 0 where
  pub ticket_type_id : Text
  pub quantity : ℤ
  pub status : Status

pub record ReservationSeatDetailResponse : Type 0 where
  pub seat_id : Text
  pub status : Status

pub record ReservationResponse : Type 0 where
  pub reservation_id : Text
  pub status : Status
  pub reservation_type : ReservationType
  pub expires_at : ℕ
  pub items : List ReservationItemDetailResponse
  pub seats : List ReservationSeatDetailResponse
