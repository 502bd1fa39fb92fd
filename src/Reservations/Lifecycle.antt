-- ===== src/Reservations/Lifecycle.antt =====
-- `GetReservation`, `CancelReservation`, `ConfirmReservation` and `ExpireExpiredReservations`
-- (internal/modules/reservations/service.go).
use study_ticket_reservation.Base.{ℕ, suc, not, Option, none, some, List, [], ◌∷◌, if◌then◌else◌}
use study_ticket_reservation.Base.Int.{ℤ, pos, leb_ℤ}
use study_ticket_reservation.Db.Types.{Uuid}
use study_ticket_reservation.Db.Tx.{
  Error, reservation_not_found, reservation_cannot_cancel, reservation_cannot_confirm,
  reservation_invariant_broken, is_no_rows, Env, Action, pure, raise, with_tx, ◌>>=◌,
}
use study_ticket_reservation.Sqlc.Models.{
  Reservation, Status, reserved, confirmed, cancelled, expired, other_status, VisitorSession,
}
use study_ticket_reservation.Sqlc.Database.{Database}
use study_ticket_reservation.Sqlc.Reservations.Headers.{
  get_reservation_by_id, lock_reservation_for_update, list_expired_reservations_for_update,
}
use study_ticket_reservation.Reservations.Dto.{ReservationResponse}
use study_ticket_reservation.Reservations.Responses.{
  build_reservation_response, can_access_reservation, reservation_expired,
}
use study_ticket_reservation.Reservations.Transitions.{
  cancel_locked_reservation, confirm_locked_reservation, expire_locked_reservation,
}
use study_ticket_reservation.Reservations.Service.{timestamp, instead}

-- A transaction returns its response, and the error that a refused transition reports with it
-- after the commit (`transitionErr`).
abbrev pub Outcome : Type 0
Outcome = ReservationResponse × Option Error

module _ (env : Env) (session : VisitorSession) where
  unfoldable pub get_reservation : Uuid → Action Database ReservationResponse
  get_reservation id = do
    reservation ← instead is_no_rows reservation_not_found (get_reservation_by_id env id)
    if not (can_access_reservation reservation session)
        then raise reservation_not_found
        else build_reservation_response env reservation

  -- The row of a reservation that the session may see, locked.
  unfoldable pub lock_accessible : Uuid → Action Database Reservation
  lock_accessible id = do
    reservation ← instead is_no_rows reservation_not_found (lock_reservation_for_update env id)
    if not (can_access_reservation reservation session)
        then raise reservation_not_found
        else pure reservation

  unfoldable pub respond : Option Error → Reservation → Action Database Outcome
  respond refused reservation = do
    response ← build_reservation_response env reservation
    pure (response, refused)

  -- A reserved reservation: past its deadline it expires, and the transition is refused.
  unfoldable pub or_expire :
      Error → (now : ℕ) → Reservation → Action Database Reservation → Action Database Outcome
  unfolding respond
  or_expire refusal now reservation transition =
      if reservation_expired reservation now
      then (do updated ← expire_locked_reservation env reservation; respond (some refusal) updated)
      else (do updated ← transition; respond none updated)

  unfoldable pub cancel_by_status : Status → (now : ℕ) → Reservation → Action Database Outcome
  unfolding or_expire
  cancel_by_status cancelled now reservation = respond none reservation
  cancel_by_status confirmed now reservation = respond (some reservation_cannot_cancel) reservation
  cancel_by_status expired now reservation = respond (some reservation_cannot_cancel) reservation
  cancel_by_status reserved now reservation =
      or_expire reservation_cannot_cancel now reservation
        (cancel_locked_reservation env reservation)
  cancel_by_status (other_status _) now reservation = raise reservation_invariant_broken

  unfoldable pub confirm_by_status : Status → (now : ℕ) → Reservation → Action Database Outcome
  unfolding or_expire
  confirm_by_status confirmed now reservation = respond none reservation
  confirm_by_status cancelled now reservation =
      respond (some reservation_cannot_confirm) reservation
  confirm_by_status expired now reservation = respond (some reservation_cannot_confirm) reservation
  confirm_by_status reserved now reservation =
      or_expire reservation_cannot_confirm now reservation
        (confirm_locked_reservation env reservation)
  confirm_by_status (other_status _) now reservation = raise reservation_invariant_broken

  -- The transaction of CancelReservation; `now` is read in it.
  unfoldable pub cancel_reservation : (now : ℕ) → Uuid → Action Database Outcome
  unfolding lock_accessible cancel_by_status
  cancel_reservation now id =
      with_tx env
        do reservation ← lock_accessible id; cancel_by_status reservation.status now reservation

  unfoldable pub confirm_reservation : (now : ℕ) → Uuid → Action Database Outcome
  unfolding lock_accessible confirm_by_status
  confirm_reservation now id =
      with_tx env
        do reservation ← lock_accessible id; confirm_by_status reservation.status now reservation

module _ (env : Env) where
  -- The loop over the batch, which counts the reservations that it expired.
  unfoldable pub expire_all : List Reservation → Action Database ℕ
  expire_all [] = pure 0
  expire_all (reservation ∷ rest) =
      let others = expire_all rest in
      do _ ← expire_locked_reservation env reservation; processed ← others; pure (suc processed)

  unfoldable pub expire_expired_reservations : (now : ℕ) (batch_size : ℤ) → Action Database ℕ
  unfolding expire_all
  expire_expired_reservations now batch_size =
      if leb_ℤ batch_size (pos 0)
      then raise reservation_invariant_broken
      else (with_tx env do
        overdue ← list_expired_reservations_for_update env (timestamp now) batch_size
        expire_all overdue)
