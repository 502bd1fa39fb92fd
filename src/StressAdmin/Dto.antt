-- ===== src/StressAdmin/Dto.antt =====
-- internal/modules/stressadmin/dto.go. The map in a detail has one form for each check.
use study_ticket_reservation.Base.{ℕ, Bool, List}
use study_ticket_reservation.Base.Int.{ℤ}
use study_ticket_reservation.Base.Text.{Text}
use study_ticket_reservation.Sqlc.Models.{Status}

pub record SeedResponse : Type 0 where
  pub event_id : Text
  pub ticket_type_id : Text
  pub seat_ids : List Text

pub record ResetResponse : Type 0 where
  pub events_deleted : ℕ

pub data DetailData : Type 0 where
  ticket_quantities :
      (ticket_type_id : Text) (total_quantity sold_quantity reserved_quantity : ℤ) → DetailData
  seat_count : (seat_id : Text) (active_count : ℕ) → DetailData
  orphan_item : (reservation_item_id reservation_id : Text) → DetailData
  orphan_seat : (reservation_seat_id reservation_id : Text) → DetailData
  stale_reservation : (reservation_id : Text) (status : Status) (expires_at : ℕ) → DetailData

pub record ConsistencyDetail : Type 0 where
  pub check : Text
  pub message : Text
  pub values : DetailData

pub record ConsistencyChecks : Type 0 where
  pub ticket_quantity_not_oversold : Bool
  pub ticket_quantity_not_negative : Bool
  pub no_duplicate_active_seats : Bool
  pub no_orphan_reservation_items : Bool
  pub no_orphan_reservation_seats : Bool
  pub no_stale_expired_active_reservations : Bool

pub record ConsistencyResponse : Type 0 where
  pub ok : Bool
  pub checks : ConsistencyChecks
  pub details : List ConsistencyDetail
