-- ===== src/Inventory/Guarantees.antt =====
-- What each operation of internal/modules/reservations does, from a database that keeps the invariant
-- `Inv` to the database that it leaves.
use study_ticket_reservation.Base.{ℕ, ◌<◌, ◌≡◌, refl, true, false, Option}
use study_ticket_reservation.Base.Int.{pos}
use study_ticket_reservation.Base.Text.{Text}
use study_ticket_reservation.Db.Types.{Uuid}
use study_ticket_reservation.Db.Tx.{failure, Env, Tx}
use study_ticket_reservation.Db.Triples.{Post}
use study_ticket_reservation.Db.Transactions.{Settled}
use study_ticket_reservation.Sqlc.Models.{
  Status, reserved, confirmed, cancelled, status_eq, VisitorSession,
}
use study_ticket_reservation.Sqlc.Database.{Database, known_status}
use study_ticket_reservation.Reservations.Dto.{QuantityReservationRequest}
use study_ticket_reservation.Reservations.Service.{Service, timestamp}
use study_ticket_reservation.Reservations.Transitions.{
  release_reserved_quantity_items, confirm_reserved_quantity_items,
}
use study_ticket_reservation.Reservations.Quantity.{reserve_quantity}
use study_ticket_reservation.Reservations.Lifecycle.{
  cancel_reservation, confirm_reservation, expire_expired_reservations,
}
use study_ticket_reservation.Reservations.Handler.{
  handle_cancel_reservation, handle_confirm_reservation,
}
use study_ticket_reservation.Inventory.Invariant.{Inv, has_item}
use study_ticket_reservation.Inventory.Requests.{IsRefusal}
use study_ticket_reservation.Inventory.Release.{
  Marked, left, sold, sold_after, release-Marked, confirm-Marked,
}
use study_ticket_reservation.Inventory.Lifecycle.{
  after_cancel, after_confirm, AnswersFound, cancel_reservation-Transacts,
  confirm_reservation-Transacts,
}
use study_ticket_reservation.Inventory.Batch.{Expired, batch, expire_expired_reservations-Transacts}
use study_ticket_reservation.Inventory.QuantityRequest.{
  ReservesQuantity, reserve_quantity-Transacts,
}
use study_ticket_reservation.Inventory.Replies.{
  IsConsistent, handle_cancel_reservation-IsConsistent, handle_confirm_reservation-IsConsistent,
}

module _ (env : Env) (session : VisitorSession) (now : ℕ) (id : Uuid) (w : Tx Database)
    (inv : Inv w.db) where
  -- From a database that keeps the invariant, a request to cancel either succeeds or fails. If it
  -- succeeds, it has found a reservation that the session may access, it answers with the status and
  -- the refusal of the machine `after_cancel`, the invariant holds again, a reserved header has taken
  -- the new status, and a header in any other status means that nothing has changed. If it fails, then
  -- with a server failure or "reservation not found" only, and the database is as it was.
  pub cancel_reservation_lem :
      Settled
        (AnswersFound env session w.db inv now id after_cancel)
        IsRefusal
        w.db
        (cancel_reservation env session now id w)
  cancel_reservation_lem = (cancel_reservation-Transacts env session w.db inv now id).at w refl

  -- From a database that keeps the invariant, a request to confirm either succeeds or fails. If it
  -- succeeds, it has found a reservation that the session may access, it answers with the status and
  -- the refusal of the machine `after_confirm`, the invariant holds again, a reserved header has taken
  -- the new status, and a header in any other status means that nothing has changed. If it fails, then
  -- with a server failure or "reservation not found" only, and the database is as it was.
  pub confirm_reservation_lem :
      Settled
        (AnswersFound env session w.db inv now id after_confirm)
        IsRefusal
        w.db
        (confirm_reservation env session now id w)
  confirm_reservation_lem = (confirm_reservation-Transacts env session w.db inv now id).at w refl

module _ (env : Env) (session : VisitorSession) (s : Service) (now : ℕ) (w : Tx Database) where
  -- From a database that keeps the invariant, a request to reserve tickets that succeeds has read its
  -- ids, keeps the invariant, and either returns the first row of its key and changes nothing, or has
  -- added exactly one new header with its key and one item with its ticket type and quantity. One that
  -- fails leaves the database as it was.
  pub reserve_quantity_lem :
      (input : QuantityReservationRequest)
      → Inv w.db
      → Settled
          (ReservesQuantity env session s now input w.db)
          (λ _. Unit {0})
          w.db
          (reserve_quantity env session s now input w)
  reserve_quantity_lem input inv =
      (reserve_quantity-Transacts env session s now input w.db inv).at w refl

-- From a database that keeps the invariant, and with a positive batch size, the worker's transaction
-- either expires every reservation of its batch, answers with the length of the batch and keeps the
-- invariant, or it fails with a server failure and leaves the database as it was.
pub expire_expired_reservations_lem :
    (env : Env) (now limit : ℕ) (w : Tx Database)
    → 0 < limit
    → Inv w.db
    → Settled
        (Expired env (batch env (timestamp now) limit w.db) w.db)
        (λ e. e ≡ failure)
        w.db
        (expire_expired_reservations env now (pos limit) w)
expire_expired_reservations_lem env now limit w positive inv =
    (expire_expired_reservations-Transacts env now limit w.db positive inv).at w refl

module _ (env : Env) (s : Service) (hash : Text → Text) (seen now : ℕ) (cookie : Option Text)
    (raw : Text) (w : Tx Database) where
  -- From a database that keeps the invariant, the cancel handler always replies and keeps the
  -- invariant: a payload comes with 200 and the status `cancelled`, and no refusal has the code
  -- RESERVATION_INCONSISTENT.
  pub handle_cancel_reservation_lem :
      Inv w.db
      → Post
          (λ reply d. Inv d × IsConsistent cancelled reply)
          (λ _. ⊥)
          (handle_cancel_reservation env s hash seen cookie now raw w)
  handle_cancel_reservation_lem inv =
      (handle_cancel_reservation-IsConsistent env s hash seen now cookie raw).at w inv

  -- From a database that keeps the invariant, the confirm handler always replies and keeps the
  -- invariant: a payload comes with 200 and the status `confirmed`, and no refusal has the code
  -- RESERVATION_INCONSISTENT.
  pub handle_confirm_reservation_lem :
      Inv w.db
      → Post
          (λ reply d. Inv d × IsConsistent confirmed reply)
          (λ _. ⊥)
          (handle_confirm_reservation env s hash seen cookie now raw w)
  handle_confirm_reservation_lem inv =
      (handle_confirm_reservation-IsConsistent env s hash seen now cookie raw).at w inv

module _ (env : Env) (id : Uuid) (w : Tx Database) (inv : Inv w.db)
    (covered : has_item id w.db.reservation_items ≡ true) where
  -- If the invariant holds and the reservation has a reserved item, releasing its items to a status
  -- that is known and is not `reserved` fails only with the server. If it succeeds, exactly its
  -- reserved items take the status, the ids of the ticket types stay, and every counter fits what the
  -- items now hold, with nothing more sold.
  pub release_reserved_quantity_items_lem :
      (target : Status)
      → known_status target ≡ true
      → status_eq target reserved ≡ false
      → Post
          (λ _ d.
            Marked env id w.db inv target (left env id w.db inv target) (sold env id w.db inv) d)
          (λ e. e ≡ failure)
          (release_reserved_quantity_items env id target w)
  release_reserved_quantity_items_lem target k h =
      (release-Marked env id w.db inv target k h covered).at w refl

  -- If the invariant holds and the reservation has a reserved item, confirming its items fails only
  -- with the server. If it succeeds, exactly its reserved items become confirmed, the ids of the ticket
  -- types stay, and every counter fits what the items now hold and have sold.
  pub confirm_reserved_quantity_items_lem :
      Post
        (λ _ d.
          Marked env id w.db inv confirmed
            (left env id w.db inv confirmed)
            (sold_after env id w.db inv)
            d)
        (λ e. e ≡ failure)
        (confirm_reserved_quantity_items env id w)
  confirm_reserved_quantity_items_lem = (confirm-Marked env id w.db inv covered).at w refl
