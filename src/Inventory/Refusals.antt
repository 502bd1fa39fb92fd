-- ===== src/Inventory/Refusals.antt =====
-- The refusal of ReserveQuantity for want of stock (internal/modules/reservations/service.go).
use mathlib.Core.List.{flat_map}
use study_ticket_reservation.Base.{
  ℕ, suc, ◌+◌, ◌≡◌, refl, ◌↔◌, false, ◌&&◌, List, [], ◌∷◌, All, select, arith,
}
use study_ticket_reservation.Base.Text.{Text, text_eq, trim_space}
use study_ticket_reservation.Db.Types.{Uuid, same_uuid}
use study_ticket_reservation.Db.Tx.{
  no_rows, insufficient_stock, Result, ok, err, Env, Tx, with_tx, statement, attempt, on_error,
  lift, raise, ◌>>=◌,
}
use study_ticket_reservation.Db.Transactions.{Settled, Transacts, Transacts-lift}
use study_ticket_reservation.Sqlc.Models.{Reservation, is_quantity, VisitorSession}
use study_ticket_reservation.Sqlc.Database.{Database}
use study_ticket_reservation.Sqlc.Reservations.Stock.{add_reserved, reserve_ticket_quantity}
use study_ticket_reservation.Sqlc.Reservations.Items.{
  quantity_rows, first_quantity_row, get_quantity_reservation_by_idempotency_key,
}
use study_ticket_reservation.Reservations.Dto.{
  QuantityReservationRequest, QuantityReservationResponse,
}
use study_ticket_reservation.Reservations.Input.{parse_quantity_input}
use study_ticket_reservation.Reservations.Service.{Service, timestamp}
use study_ticket_reservation.Reservations.Quantity.{reserve_quantity}
use study_ticket_reservation.Inventory.Counters.{change_tickets-none}
use study_ticket_reservation.Inventory.Shortage.{Lacks, is_offer, Lacks-no_offer, request-Transacts}

-- No reservation of tickets of the session has the key.
abbrev pub IsNewKey : (session : Uuid) (key : Text) → List Reservation → Type 0
IsNewKey session key = All λ r.
    (same_uuid r.visitor_session_id session
      && text_eq r.idempotency_key key
      && is_quantity r.reservation_type)
    ≡ false

no_rows_of_new :
    (session : Uuid) (key : Text) (d : Database)
    → IsNewKey session key d.reservations
    → first_quantity_row session key d ≡ err no_rows
unfolding first_quantity_row quantity_rows flat_map
no_rows_of_new session key d new =
    rw (first_quantity_row, quantity_rows, none d.reservations new) refl
  where
    none :
        (rs : List Reservation)
        → IsNewKey session key rs
        → select
            (λ r.
              (same_uuid r.visitor_session_id session && text_eq r.idempotency_key key)
              && is_quantity r.reservation_type)
            rs
          ≡ []
    none [] h = refl
    none (r ∷ rs) h = let rest = none rs h.1 in ground (arith, h.0)

module _ (env : Env) (session : VisitorSession) (s : Service) (now : ℕ)
    (input : QuantityReservationRequest) (ids : Uuid × Uuid) (w : Tx Database)
    (parsed : parse_quantity_input s.scan input ≡ ok ids) where
  -- Whatever fails, the error says that the stock is short only if it is.
  blames :
      Settled
        (λ _ _. Unit {0})
        (λ e. e ≡ insufficient_stock → Lacks ids.0 ids.1 input.quantity w.db.ticket_types)
        w.db
        (reserve_quantity env session s now input w)
  unfolding reserve_quantity
  blames = request.at w refl
    where
      request :
          Transacts
            (λ d. d ≡ w.db)
            (reserve_quantity env session s now input)
            (λ _ _. Unit {0})
            (λ e. e ≡ insufficient_stock → Lacks ids.0 ids.1 input.quantity w.db.ticket_types)
      request =
          Transacts-lift (parse_quantity_input s.scan input) _
            (λ found e.
              let same : found ≡ ids = cc in
              rw same (
                request-Transacts env session ids.0 ids.1 input.quantity
                  (trim_space input.idempotency_key) (timestamp (now + s.reservation_ttl)) w.db))
            (λ e refused. absurd cc)

  refuses :
      ((k : ℕ) → env.fails k ≡ false)
      → IsNewKey session.id (trim_space input.idempotency_key) w.db.reservations
      → Lacks ids.0 ids.1 input.quantity w.db.ticket_types
      → (reserve_quantity env session s now input w).0 ≡ err insufficient_stock
  unfolding reserve_quantity with_tx statement get_quantity_reservation_by_idempotency_key
      reserve_ticket_quantity ◌>>=◌ lift attempt on_error raise
  refuses calm new short =
      rw
        (
          parsed,
          calm w.calls,
          calm (suc w.calls),
          no_rows_of_new session.id (trim_space input.idempotency_key) w.db new,
          calm (suc (suc w.calls)),
          change_tickets-none (is_offer ids.0 ids.1 input.quantity) (add_reserved input.quantity)
              w.db (Lacks-no_offer ids.0 ids.1 input.quantity w.db.ticket_types short),
        )
        refl

-- On a server that does not fail, a request to reserve tickets that is read and whose key no reservation
-- of tickets of the session has, is refused as insufficient stock exactly if every row of its ticket type
-- and event has less left than it asks: sold, reserved and the quantity together are more than the total.
-- A request so refused leaves the database as it was.
pub reserve_quantity-insufficient_stock :
    (env : Env) (session : VisitorSession) (s : Service) (now : ℕ)
    (input : QuantityReservationRequest) (ids : Uuid × Uuid) (w : Tx Database)
    → ((k : ℕ) → env.fails k ≡ false)
    → parse_quantity_input s.scan input ≡ ok ids
    → IsNewKey session.id (trim_space input.idempotency_key) w.db.reservations
    → (((reserve_quantity env session s now input w).0 ≡ err insufficient_stock)
        ↔ Lacks ids.0 ids.1 input.quantity w.db.ticket_types)
      × ((reserve_quantity env session s now input w).0 ≡ err insufficient_stock
          → (reserve_quantity env session s now input w).1.db ≡ w.db)
reserve_quantity-insufficient_stock env session s now input ids w calm parsed new =
    let h = blames env session s now input ids w parsed in
    (
      (
        short (reserve_quantity env session s now input w) h,
        refuses env session s now input ids w parsed calm new,
      ),
      kept (reserve_quantity env session s now input w) h,
    )
  where
    IsShort : Type 0
    IsShort = Lacks ids.0 ids.1 input.quantity w.db.ticket_types

    short :
        (r : Result QuantityReservationResponse × Tx Database)
        → Settled (λ _ _. Unit {0}) (λ e. e ≡ insufficient_stock → IsShort) w.db r
        → r.0 ≡ err insufficient_stock
        → IsShort
    short (ok a, w') h e = cc
    short (err x, w') h e = let same : x ≡ insufficient_stock = cc in h.0 same

    kept :
        (r : Result QuantityReservationResponse × Tx Database)
        → Settled (λ _ _. Unit {0}) (λ e. e ≡ insufficient_stock → IsShort) w.db r
        → r.0 ≡ err insufficient_stock
        → r.1.db ≡ w.db
    kept (ok a, w') h e = cc
    kept (err x, w') h e = h.1
