-- ===== src/Events/Dto.antt =====
-- internal/modules/events/dto.go. A time is the number that `timestamptz_to_time` returns.
use study_ticket_reservation.Base.{ℕ, List}
use study_ticket_reservation.Base.Int.{ℤ}
use study_ticket_reservation.Base.Text.{Text}

pub record CreateEventRequest : Type 0 where
  pub name : Text
  pub starts_at : ℕ
  pub ends_at : ℕ

pub record EventResponse : Type 0 where
  pub id : Text
  pub name : Text
  pub starts_at : ℕ
  pub ends_at : ℕ
  pub created_at : ℕ
  pub updated_at : ℕ

pub record CreateTicketTypeRequest : Type 0 where
  pub name : Text
  pub total_quantity : ℤ

pub record TicketTypeResponse : Type 0 where
  pub id : Text
  pub event_id : Text
  pub name : Text
  pub total_quantity : ℤ
  pub sold_quantity : ℤ
  pub reserved_quantity : ℤ
  pub created_at : ℕ
  pub updated_at : ℕ

pub record CreateSeatRequest : Type 0 where
  pub section : Text
  pub row_name : Text
  pub seat_number : Text

pub record CreateSeatsRequest : Type 0 where
  pub seats : List CreateSeatRequest

pub record SeatResponse : Type 0 where
  pub id : Text
  pub event_id : Text
  pub section : Text
  pub row_name : Text
  pub seat_number : Text
  pub created_at : ℕ
  pub updated_at : ℕ

pub record TicketTypeInventoryResponse : Type 0 where
  pub id : Text
  pub event_id : Text
  pub name : Text
  pub total_quantity : ℤ
  pub sold_quantity : ℤ
  pub reserved_quantity : ℤ
  pub available_quantity : ℤ

pub record SeatInventoryResponse : Type 0 where
  pub id : Text
  pub event_id : Text
  pub section : Text
  pub row_name : Text
  pub seat_number : Text
  pub status : Text

pub record InventoryResponse : Type 0 where
  pub ticket_types : List TicketTypeInventoryResponse
  pub seats : List SeatInventoryResponse
