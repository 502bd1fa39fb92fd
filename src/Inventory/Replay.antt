-- ===== src/Inventory/Replay.antt =====
-- The idempotency key of ReserveQuantity: the reservation that a request returned is what the next
-- request with the key returns.
use mathlib.Core.List.{flat_map}
use study_ticket_reservation.Base.{
  ℕ, suc, ◌+◌, ◌≡◌, refl, ◌∙◌, Bool, true, false, ◌&&◌, List, [], ◌∷◌, any, select, All, arith, inl,
  inr, Bool-cases,
}
use study_ticket_reservation.Base.Text.{Text, text_eq_refl, trim_space}
use study_ticket_reservation.Db.Types.{Uuid, same_uuid}
use study_ticket_reservation.Db.Equality.{same_uuid_refl, eq_of_same_uuid}
use study_ticket_reservation.Db.Tx.{
  ok, Env, Tx, with_tx, statement, attempt, on_error, lift, raise, ◌>>=◌,
}
use study_ticket_reservation.Sqlc.Models.{ReservationItem, is_quantity, VisitorSession}
use study_ticket_reservation.Sqlc.Database.{Database, has_key}
use study_ticket_reservation.Sqlc.Reservations.Items.{
  QuantityReservationRow, joined_row, quantity_rows, first_quantity_row,
  get_quantity_reservation_by_idempotency_key,
}
use study_ticket_reservation.Reservations.Dto.{
  QuantityReservationRequest, QuantityReservationResponse,
}
use study_ticket_reservation.Reservations.Input.{parse_quantity_input}
use study_ticket_reservation.Reservations.Responses.{
  quantity_row_to_response, quantity_reservation_to_response,
}
use study_ticket_reservation.Reservations.Service.{Service, timestamp}
use study_ticket_reservation.Reservations.Quantity.{reserve_quantity}
use study_ticket_reservation.Inventory.Invariant.{ids-headers, Inv, IsOwned, reservation_ids}
use study_ticket_reservation.Inventory.QuantityRequest.{HoldsQuantity, Reserves}
use study_ticket_reservation.Inventory.Guarantees.{reserve_quantity_lem}

select-none :
    {A : Type 0} (test : A → Bool) (more : A → Bool) (xs : List A)
    → any test xs ≡ false
    → select (λ x. test x && more x) xs ≡ []
select-none test more [] h = refl
select-none test more (x ∷ xs) h = ground (arith, select-none test more xs)

-- No item belongs to a reservation that is not there.
no_items :
    (id : Uuid) (ids : List Uuid) (items : List ReservationItem)
    → any (λ x. same_uuid x id) ids ≡ false
    → All (IsOwned ids) items
    → select (λ i. same_uuid i.reservation_id id) items ≡ []
no_items id ids [] h o = refl
no_items id ids (i ∷ items) h o = elim (Bool-cases (same_uuid i.reservation_id id)) [
  | inl same ↦
      let equal : i.reservation_id ≡ id = eq_of_same_uuid i.reservation_id id same in
      let there = rw equal at o.0 in cc
  | inr other ↦ rw (other, no_items id ids items h o.1) refl
]

module _ (env : Env) (session : VisitorSession) (s : Service) (now : ℕ) (ids : Uuid × Uuid)
    (input : QuantityReservationRequest) (d0 d : Database) (inv : Inv d0)
    (response : QuantityReservationResponse) (named : session.id.valid ≡ true) where
  abbrev key : Text
  key = trim_space input.idempotency_key

  abbrev Found : Type 0
  Found =
      (row : QuantityReservationRow) × (first_quantity_row session.id key d ≡ ok (row, d))
      × (response ≡ quantity_row_to_response row)

  -- A new reservation is the only row of its key.
  held-Found :
      HoldsQuantity env session ids.0 ids.1 input.quantity key
        (timestamp (now + s.reservation_ttl))
        d0
        response
        d
      → Found
  unfolding first_quantity_row quantity_rows flat_map is_quantity quantity_row_to_response
      quantity_reservation_to_response
  held-Found h =
      let mine : has_key session.id key h.header && is_quantity h.header.reservation_type ≡ true =
        rw h.new.row (rw (same_uuid_refl session.id named, text_eq_refl key) refl) in
      let only : select (λ r. has_key session.id key r && is_quantity r.reservation_type)
            d0.reservations
          ≡ [] =
        select-none (has_key session.id key) (λ r. is_quantity r.reservation_type) d0.reservations
          h.new.unused_key in
      let its : same_uuid h.item.reservation_id h.header.id ≡ true =
        rw h.row (same_uuid_refl h.header.id h.new.valid) in
      let no_more : select (λ i. same_uuid i.reservation_id h.header.id) d0.reservation_items ≡ [] =
        no_items h.header.id (reservation_ids d0) d0.reservation_items
          (ids-headers h.header.id d0.reservations ∙ h.new.unused) inv.owned in
      let rows : quantity_rows session.id key d ≡ (h.header, h.item) ∷ [] =
        rw (quantity_rows, h.headers, h.items, mine, only, its, no_more) refl in
      (joined_row (h.header, h.item), rw (first_quantity_row, rows) refl, h.answer)

  reserves-Found :
      Reserves env session ids.0 ids.1 input.quantity key
        (timestamp (now + s.reservation_ttl))
        d0
        response
        d
      → Found
  reserves-Found (kept, inl (row, found, answer, same)) = (row, rw same found, answer)
  reserves-Found (kept, inr h) = held-Found h

-- The query by key answers the whole request.
found_answers :
    (env : Env) (session : VisitorSession) (s : Service) (now : ℕ)
    (input : QuantityReservationRequest) (ids : Uuid × Uuid) (w : Tx Database)
    (row : QuantityReservationRow)
    → ((k : ℕ) → env.fails k ≡ false)
    → parse_quantity_input s.scan input ≡ ok ids
    → first_quantity_row session.id (trim_space input.idempotency_key) w.db ≡ ok (row, w.db)
    → ((reserve_quantity env session s now input w).0 ≡ ok (quantity_row_to_response row))
      × ((reserve_quantity env session s now input w).1.db ≡ w.db)
unfolding reserve_quantity with_tx statement get_quantity_reservation_by_idempotency_key ◌>>=◌ lift
    attempt on_error raise
found_answers env session s now input ids w row calm parsed found =
    rw (parsed, calm w.calls, calm (suc w.calls), found, calm (suc (suc w.calls))) (refl, refl)

-- If, from a database that keeps the invariant, a request for tickets of a session with an id has
-- returned a response, then the next request of the session with the same key, if it is read, returns
-- the same response on a server that does not fail, and leaves the database as it was, whatever else
-- it asks.
pub reserve_quantity-replay :
    (env env' : Env) (session : VisitorSession) (s : Service) (now now' : ℕ)
    (input input' : QuantityReservationRequest) (ids' : Uuid × Uuid) (w w' : Tx Database)
    (response : QuantityReservationResponse)
    → Inv w.db
    → session.id.valid ≡ true
    → reserve_quantity env session s now input w ≡ (ok response, w')
    → ((k : ℕ) → env'.fails k ≡ false)
    → parse_quantity_input s.scan input' ≡ ok ids'
    → trim_space input'.idempotency_key ≡ trim_space input.idempotency_key
    → ((reserve_quantity env' session s now' input' w').0 ≡ ok response)
      × ((reserve_quantity env' session s now' input' w').1.db ≡ w'.db)
reserve_quantity-replay env env' session s now now' input input' ids' w w' response inv named before
      calm parsed same =
    let (ids, read, reserves) = rw before at (reserve_quantity_lem env session s now w input inv) in
    let (row, found, answer) =
      reserves-Found env session s now ids input w.db w'.db inv response named reserves in
    rw answer (found_answers env' session s now' input' ids' w' row calm parsed (rw same found))
