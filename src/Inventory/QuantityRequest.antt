-- ===== src/Inventory/QuantityRequest.antt =====
-- ReserveQuantity as a whole: it replays the reservation of its key, makes a new one, or changes
-- nothing.
use mathlib.Core.Path.{subst}
use study_ticket_reservation.Base.{
  ℕ, ◌+◌, ◌≡◌, ◌⊎◌, refl, sym, ap, ◌∙◌, Option, ◌∷◌, arith, inl, inr, Bool-cases, if◌then◌else◌,
}
use study_ticket_reservation.Base.Int.{ℤ, pos, ◌≤ℤ◌, leb_ℤ}
use study_ticket_reservation.Base.Text.{Text, trim_space}
use study_ticket_reservation.Db.Types.{Uuid, Timestamptz}
use study_ticket_reservation.Db.Tx.{Result, ok, err, Env, is_no_rows, raise, on_error, with_tx}
use study_ticket_reservation.Db.Triples.{
  BodyPost, Triple, Triple-statement, Triple-bind, Triple-pure, Triple-raise, Triple-if,
  Triple-weaken, Triple-each, Triple-assume, Triple-on_error,
}
use study_ticket_reservation.Db.Transactions.{
  Transacts, Transacts-with_tx, Transacts-on_error, Transacts-statement, Transacts-bind,
  Transacts-lift, Transacts-pure, Transacts-if, Transacts-raise, Transacts-weaken, Triple-attempt,
  IfOk,
}
use study_ticket_reservation.Sqlc.Models.{
  Reservation, ReservationItem, by_quantity, reserved, VisitorSession,
}
use study_ticket_reservation.Sqlc.Database.{Database, one}
use study_ticket_reservation.Sqlc.Reservations.Headers.{
  CreateReservationParams, insert_reservation, create_reservation,
}
use study_ticket_reservation.Sqlc.Reservations.Items.{
  QuantityReservationRow, new_item, insert_item, create_reservation_item, quantity_rows,
  first_quantity_row, get_quantity_reservation_by_idempotency_key,
}
use study_ticket_reservation.Reservations.Dto.{
  QuantityReservationRequest, QuantityReservationResponse,
}
use study_ticket_reservation.Reservations.Input.{parse_quantity_input}
use study_ticket_reservation.Reservations.Responses.{
  quantity_reservation_to_response, quantity_row_to_response,
}
use study_ticket_reservation.Reservations.Service.{Service, timestamp, is_replay_required}
use study_ticket_reservation.Reservations.Quantity.{
  replay_quantity, hold_quantity, quantity_unless_found, reserve_quantity_tx, reserve_quantity,
}
use study_ticket_reservation.Inventory.Invariant.{Inv}
use study_ticket_reservation.Inventory.Inserts.{
  IsNewHeader, AddsHeader, AddsItem, insert_reservation-Post, insert_item-Post,
}
use study_ticket_reservation.Inventory.Reserving.{Taken, take-Triple}
use study_ticket_reservation.Inventory.Quantity.{reserved-Inv, item_arg}

-- The query by key returns the first row and changes nothing.
first_quantity_row-Post :
    (session : Uuid) (key : Text) (d : Database)
    → BodyPost
        (λ row d'. (first_quantity_row session key d ≡ ok (row, d)) × (d' ≡ d))
        (λ _. Unit {0})
        (first_quantity_row session key d)
unfolding first_quantity_row
first_quantity_row-Post session key d = by_result (one (quantity_rows session key d)) refl
  where
    by_result :
        (r : Result (Reservation × ReservationItem))
        → one (quantity_rows session key d) ≡ r
        → BodyPost
            (λ row d'. (first_quantity_row session key d ≡ ok (row, d)) × (d' ≡ d))
            (λ _. Unit {0})
            (first_quantity_row session key d)
    by_result (ok row) e = rw (e, first_quantity_row) (refl, refl)
    by_result (err x) e = rw (e, first_quantity_row) tt

module _ (env : Env) (session : VisitorSession) (event_id ticket : Uuid) (quantity : ℤ) (key : Text)
    (expires_at : Timestamptz) (d0 : Database) where
  abbrev header_arg : CreateReservationParams
  header_arg = record {
    event_id = event_id;
    visitor_session_id = session.id;
    user_id = session.user_id;
    status = reserved;
    reservation_type = by_quantity;
    idempotency_key = key;
    expires_at = expires_at;
  }

  -- The request made a reservation: a header with the key, and one item with the quantity.
  pub record HoldsQuantity (response : QuantityReservationResponse) (d : Database) : Type 0 where
    pub header : Reservation
    pub item : ReservationItem
    pub headers : d.reservations ≡ header ∷ d0.reservations
    pub items : d.reservation_items ≡ item ∷ d0.reservation_items
    pub new : IsNewHeader env.now header_arg d0 header
    pub row : item ≡ new_item env.now item.id (item_arg ticket quantity header)
    pub answer : response ≡ quantity_reservation_to_response header item

  -- ... or the first row of the key was there.
  abbrev pub Replays : QuantityReservationResponse → Database → Type 0
  Replays response d =
      (row : QuantityReservationRow) × (first_quantity_row session.id key d0 ≡ ok (row, d0))
      × (response ≡ quantity_row_to_response row)
      × (d ≡ d0)

  abbrev pub Reserves : QuantityReservationResponse → Database → Type 0
  Reserves response d = Inv d × (Replays response d ⊎ HoldsQuantity response d)

  abbrev IsFound : QuantityReservationRow → Type 0
  IsFound row = first_quantity_row session.id key d0 ≡ ok (row, d0)

  find-Transacts :
      Transacts
        (λ d. d ≡ d0)
        (get_quantity_reservation_by_idempotency_key env session.id key)
        (λ row d. IsFound row × (d ≡ d0))
        (λ _. Unit {0})
  unfolding get_quantity_reservation_by_idempotency_key
  find-Transacts =
      Transacts-statement env (λ _. first_quantity_row session.id key)
        (λ _. first_quantity_row-Post session.id key d0) tt

  module _ (inv : Inv d0) (positive : pos 1 ≤ℤ quantity) where
    abbrev Stocked : Database → Type 0
    Stocked = Taken env ticket event_id quantity d0 inv positive

    header-Triple :
        (d1 : Database)
        → Triple
            (λ d. d ≡ d1)
            (create_reservation env header_arg)
            (AddsHeader env.now header_arg d1)
            (λ _. Unit {0})
    unfolding create_reservation
    header-Triple d1 =
        Triple-statement env (insert_reservation env.now header_arg)
          (λ id d e. rw e (insert_reservation-Post env.now header_arg id d1)) tt

    item-Triple :
        (r : Reservation) (d2 : Database)
        → Triple
            (λ d. d ≡ d2)
            (create_reservation_item env (item_arg ticket quantity r))
            (AddsItem env.now (item_arg ticket quantity r) d2)
            (λ _. Unit {0})
    unfolding create_reservation_item
    item-Triple r d2 =
        Triple-statement env (insert_item env.now (item_arg ticket quantity r))
          (λ id d e. rw e (insert_item-Post env.now (item_arg ticket quantity r) id d2)) tt

    -- The three rows together.
    holds :
        (d1 d2 d3 : Database) (r : Reservation) (i : ReservationItem)
        → Stocked d1
        → AddsHeader env.now header_arg d1 r d2
        → AddsItem env.now (item_arg ticket quantity r) d2 i d3
        → Reserves (quantity_reservation_to_response r i) d3
    holds d1 d2 d3 r i taken (made, new) (added, row, _) =
        let whole =
          added
          ∙ ap {A = Database} {B = Database}
              (λ d. record d { reservation_items = i ∷ d.reservation_items }) made in
        let before : d1.reservations ≡ d0.reservations = ap (λ d. d.reservations) taken.0.0 in
        (
          rw whole (
              subst
                (λ j. Inv (record d1 {
                  reservations = r ∷ d1.reservations;
                  reservation_items = j ∷ d1.reservation_items;
                }))
                (sym row)
                (reserved-Inv env event_id ticket quantity d0 inv positive header_arg d1 r i.id
                  taken new)),
          inr (record {
            header = r;
            item = i;
            headers = ap (λ d. d.reservations) whole ∙ ap (λ rs. r ∷ rs) before;
            items =
                ap (λ d. d.reservation_items) whole
                ∙ ap (λ is. i ∷ is) (ap (λ d. d.reservation_items) taken.0.0);
            new = record {
              row = new.row;
              valid = new.valid;
              unused = rw (sym before) new.unused;
              unused_key = rw (sym before) new.unused_key;
              typed = new.typed;
            };
            row = row;
            answer = refl;
          }),
        )

    hold-Triple :
        Triple
          (λ d. d ≡ d0)
          (hold_quantity env session event_id ticket quantity key expires_at)
          Reserves
          (λ _. Unit {0})
    unfolding hold_quantity
    hold-Triple =
        Triple-bind _ _
          (Triple-on_error {F = λ _. Unit {0}} _ _
            (Triple-weaken _ _ (λ _ d. Stocked d) _ _ _ _
              (take-Triple env ticket event_id quantity d0 inv positive) (λ d e. e) (λ _ d p. p)
              (λ e p. tt))
            (λ e p. tt))
          λ _. Triple-each _ _ _ _ λ d1 taken.
            Triple-bind _ _ (Triple-on_error {F = λ _. Unit {0}} _ _ (header-Triple d1) (λ e p. tt))
              λ r. Triple-each _ _ _ _ λ d2 made.
                Triple-bind _ _ (item-Triple r d2)
                  λ i. Triple-pure _ (λ d3 added. holds d1 d2 d3 r i taken made added)

    by_finding :
        (found : Result QuantityReservationRow)
        → IfOk IsFound found
        → Triple
            (λ d. d ≡ d0)
            (quantity_unless_found env session found
              (hold_quantity env session event_id ticket quantity key expires_at))
            Reserves
            (λ _. Unit {0})
    unfolding quantity_unless_found
    by_finding (ok row) f = Triple-pure _ (λ d e. (rw e inv, inl (row, f, refl, e)))
    by_finding (err x) f = Triple-if (is_no_rows x) _ _ (λ _. hold-Triple) (λ _. Triple-raise x tt)

    tx-Triple :
        Triple
          (λ d. d ≡ d0)
          (reserve_quantity_tx env session event_id ticket quantity key expires_at)
          Reserves
          (λ _. Unit {0})
    unfolding reserve_quantity_tx
    tx-Triple =
        Triple-bind _ _ (Triple-attempt _ find-Transacts)
          λ found. Triple-assume (IfOk IsFound found) (λ d. d ≡ d0) _ _ _ (by_finding found)

    replay-Transacts :
        Transacts (λ d. d ≡ d0) (replay_quantity env session.id key) Reserves (λ _. Unit {0})
    unfolding replay_quantity
    replay-Transacts =
        Transacts-bind _ _ (Transacts-on_error _ _ find-Transacts (λ e. Transacts-raise _ tt))
          λ row found. Transacts-pure _ (inv, inl (row, found, refl, refl))

    pub request-Transacts :
        Transacts
          (λ d. d ≡ d0)
          (on_error
            (with_tx env (reserve_quantity_tx env session event_id ticket quantity key expires_at))
            (λ e. if is_replay_required e then replay_quantity env session.id key else raise e))
          Reserves
          (λ _. Unit {0})
    request-Transacts =
        Transacts-on_error _ _ (Transacts-with_tx env _ tx-Triple tt)
          λ e. Transacts-if (is_replay_required e) _ _ replay-Transacts (Transacts-raise e tt)

-- A request that is read has a positive quantity.
parsed_quantity :
    (scan : Text → Option Uuid) (input : QuantityReservationRequest) (ids : Uuid × Uuid)
    → parse_quantity_input scan input ≡ ok ids
    → pos 1 ≤ℤ input.quantity
unfolding parse_quantity_input
parsed_quantity scan input ids e = elim (Bool-cases (leb_ℤ input.quantity (pos 0))) [
  | inl small ↦ let refused = rw small at e in cc
  | inr large ↦ ground arith
]

module _ (env : Env) (session : VisitorSession) (s : Service) (now : ℕ)
    (input : QuantityReservationRequest) (d0 : Database) where
  -- What a request to reserve tickets does when it succeeds, on the ids that it names.
  abbrev pub ReservesQuantity : QuantityReservationResponse → Database → Type 0
  ReservesQuantity response d =
      (ids : Uuid × Uuid) × (parse_quantity_input s.scan input ≡ ok ids)
      × Reserves env session ids.0 ids.1 input.quantity (trim_space input.idempotency_key)
          (timestamp (now + s.reservation_ttl)) d0 response d

  pub reserve_quantity-Transacts :
      Inv d0
      → Transacts
          (λ d. d ≡ d0)
          (reserve_quantity env session s now input)
          ReservesQuantity
          (λ _. Unit {0})
  unfolding reserve_quantity
  reserve_quantity-Transacts inv =
      Transacts-lift (parse_quantity_input s.scan input) _
        (λ ids e.
          Transacts-weaken _ _ _ _ _
            (request-Transacts env session ids.0 ids.1 input.quantity
              (trim_space input.idempotency_key) (timestamp (now + s.reservation_ttl)) d0 inv
              (parsed_quantity s.scan input ids e))
            (λ response d h. (ids, e, h)) (λ e h. h))
        (λ e h. tt)
