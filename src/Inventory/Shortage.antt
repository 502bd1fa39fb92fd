-- ===== src/Inventory/Shortage.antt =====
-- When ReserveQuantity answers "insufficient stock" (internal/modules/reservations/service.go).
use study_ticket_reservation.Base.{
  ◌≡◌, ◌≢◌, refl, Bool, true, false, not, ◌&&◌, List, [], ◌∷◌, any, All, ◌⊎◌, inl, inr, Bool-cases,
  arith, if◌then◌else◌,
}
use study_ticket_reservation.Base.Int.{ℤ, pos, ◌≤ℤ◌, ◌+ℤ◌, ◌-ℤ◌, +ℤ_parts, -ℤ_parts}
use study_ticket_reservation.Base.Text.{Text}
use study_ticket_reservation.Db.Types.{Uuid, Timestamptz, same_uuid}
use study_ticket_reservation.Db.Tx.{
  Error, no_rows, failure, insufficient_stock, constraint_violation, idempotency_replay_required,
  idempotency_key_conflict, is_no_rows, is_unique_violation, Result, ok, err, Env, raise, on_error,
  with_tx,
}
use study_ticket_reservation.Db.Triples.{
  BodyPost, BodyPost-mono, Triple, Triple-weaken, Triple-assume, Triple-statement, Triple-bind,
  Triple-pure, Triple-raise, Triple-if, Triple-on_error,
}
use study_ticket_reservation.Db.Transactions.{
  Transacts, Transacts-with_tx, Transacts-handled, Transacts-statement, Transacts-reported,
  Transacts-if, Transacts-raise, Transacts-map, Transacts-weaken,
}
use study_ticket_reservation.Db.Attempts.{Tried, Triple-attempt_tx}
use study_ticket_reservation.Sqlc.Models.{TicketType, VisitorSession}
use study_ticket_reservation.Sqlc.Database.{Database, one}
use study_ticket_reservation.Sqlc.Reservations.Stock.{
  has_stock, add_reserved, change_tickets, reserve_ticket_quantity,
}
use study_ticket_reservation.Sqlc.Reservations.Headers.{
  CreateReservationParams, insert_reservation, reservation_check, reservation_taken,
  reservation_refers, create_reservation,
}
use study_ticket_reservation.Sqlc.Reservations.Items.{
  CreateReservationItemParams, QuantityReservationRow, insert_item, item_check, item_refers,
  create_reservation_item, quantity_rows, first_quantity_row, joined_row,
  get_quantity_reservation_by_idempotency_key,
}
use study_ticket_reservation.Reservations.Service.{is_replay_required}
use study_ticket_reservation.Reservations.Quantity.{
  hold_quantity, quantity_unless_found, reserve_quantity_tx, replay_quantity,
}
use study_ticket_reservation.Inventory.Counters.{change_tickets-errors}

-- Every row of the ticket type and the event has less left than is asked: sold, reserved and the
-- quantity together are more than the total.
abbrev pub Lacks : (event_id ticket_type_id : Uuid) → ℤ → List TicketType → Type 0
Lacks event_id id quantity = All λ t.
    same_uuid t.id id ≡ true
    → same_uuid t.event_id event_id ≡ true
    → t.total_quantity +ℤ pos 1 ≤ℤ t.sold_quantity +ℤ t.reserved_quantity +ℤ quantity

no_stock-IsLess :
    (quantity : ℤ) (t : TicketType)
    → has_stock quantity t ≡ false
    → t.total_quantity +ℤ pos 1 ≤ℤ t.sold_quantity +ℤ t.reserved_quantity +ℤ quantity
no_stock-IsLess quantity t h = ground (
  arith,
  -ℤ_parts t.total_quantity t.sold_quantity,
  -ℤ_parts (t.total_quantity -ℤ t.sold_quantity) t.reserved_quantity,
  +ℤ_parts t.total_quantity (pos 1),
  +ℤ_parts t.sold_quantity t.reserved_quantity,
  +ℤ_parts (t.sold_quantity +ℤ t.reserved_quantity) quantity,
)

less-no_stock :
    (quantity : ℤ) (t : TicketType)
    → t.total_quantity +ℤ pos 1 ≤ℤ t.sold_quantity +ℤ t.reserved_quantity +ℤ quantity
    → has_stock quantity t ≡ false
less-no_stock quantity t h = ground (
  arith,
  -ℤ_parts t.total_quantity t.sold_quantity,
  -ℤ_parts (t.total_quantity -ℤ t.sold_quantity) t.reserved_quantity,
  +ℤ_parts t.total_quantity (pos 1),
  +ℤ_parts t.sold_quantity t.reserved_quantity,
  +ℤ_parts (t.sold_quantity +ℤ t.reserved_quantity) quantity,
)

module _ (event_id id : Uuid) (quantity : ℤ) where
  abbrev pub is_offer : TicketType → Bool
  is_offer t = same_uuid t.id id && same_uuid t.event_id event_id && has_stock quantity t

  no_offer-Lacks : (ts : List TicketType) → any is_offer ts ≡ false → Lacks event_id id quantity ts
  no_offer-Lacks [] h = tt
  no_offer-Lacks (t ∷ ts) h =
      (λ a b. no_stock-IsLess quantity t (ground arith), no_offer-Lacks ts (ground arith))

  pub Lacks-no_offer :
      (ts : List TicketType) → Lacks event_id id quantity ts → any is_offer ts ≡ false
  Lacks-no_offer [] h = refl
  Lacks-no_offer (t ∷ ts) h =
      elim (Bool-cases (same_uuid t.id id && same_uuid t.event_id event_id)) [
        | inl named ↦
            let short = less-no_stock quantity t (h.0 (ground arith) (ground arith)) in
            let rest = Lacks-no_offer ts h.1 in ground arith
        | inr other ↦ let rest = Lacks-no_offer ts h.1 in ground arith
      ]

-- The errors of the two INSERTs, and of the look-up of a key.
insert_reservation-errors :
    (now : Timestamptz) (arg : CreateReservationParams) (id : Uuid) (d : Database)
    → BodyPost (λ _ _. Unit {0}) (λ e. e ≢ insufficient_stock) (insert_reservation now arg id d)
unfolding insert_reservation
insert_reservation-errors now arg id d =
    elim (Bool-cases (not (id.valid && reservation_check arg))) [
      | inl bad ↦ rw bad cc
      | inr checked ↦ elim (Bool-cases (reservation_taken id arg d)) [
        | inl taken ↦ rw (checked, taken) cc
        | inr free ↦ elim (Bool-cases (not (reservation_refers arg d))) [
          | inl missing ↦ rw (checked, free, missing) cc
          | inr refers ↦ rw (checked, free, refers) tt
        ]
      ]
    ]

insert_item-errors :
    (now : Timestamptz) (arg : CreateReservationItemParams) (id : Uuid) (d : Database)
    → BodyPost (λ _ _. Unit {0}) (λ e. e ≢ insufficient_stock) (insert_item now arg id d)
unfolding insert_item
insert_item-errors now arg id d = elim (Bool-cases (not (id.valid && item_check arg))) [
  | inl bad ↦ rw bad cc
  | inr checked ↦ elim (Bool-cases (any (λ i. same_uuid i.id id) d.reservation_items)) [
    | inl taken ↦ rw (checked, taken) cc
    | inr free ↦ elim (Bool-cases (not (item_refers arg d))) [
      | inl missing ↦ rw (checked, free, missing) cc
      | inr refers ↦ rw (checked, free, refers) tt
    ]
  ]
]

create_reservation-errors :
    (env : Env) (arg : CreateReservationParams)
    → Triple
        (λ _. Unit {0})
        (create_reservation env arg)
        (λ _ _. Unit {0})
        (λ e. e ≢ insufficient_stock)
unfolding create_reservation
create_reservation-errors env arg =
    Triple-statement env (insert_reservation env.now arg)
      (λ id d _. insert_reservation-errors env.now arg id d) cc

create_reservation_item-errors :
    (env : Env) (arg : CreateReservationItemParams)
    → Triple
        (λ _. Unit {0})
        (create_reservation_item env arg)
        (λ _ _. Unit {0})
        (λ e. e ≢ insufficient_stock)
unfolding create_reservation_item
create_reservation_item-errors env arg =
    Triple-statement env (insert_item env.now arg) (λ id d _. insert_item-errors env.now arg id d)
      cc

first_quantity_row-errors :
    (session : Uuid) (key : Text) (d : Database)
    → BodyPost (λ _ e. e ≡ d) (λ e. e ≢ insufficient_stock) (first_quantity_row session key d)
unfolding first_quantity_row
first_quantity_row-errors session key d = by_rows (quantity_rows session key d)
  where
    by_rows :
        (rows : List _)
        → BodyPost
            (λ _ e. e ≡ d)
            (λ e. e ≢ insufficient_stock)
            (elim (one rows) [ ok row ↦ ok (joined_row row, d) | err e ↦ err e ])
    by_rows [] = cc
    by_rows (row ∷ rows) = refl

module _ (env : Env) (session : VisitorSession) (event_id id : Uuid) (quantity : ℤ) (key : Text)
    (expires_at : Timestamptz) (d0 : Database) where
  -- The error says that the stock is short, and then it is.
  abbrev pub Blames : Error → Type 0
  Blames e = e ≡ insufficient_stock → Lacks event_id id quantity d0.ticket_types

  -- Why no stock is taken.
  abbrev Untaken : Error → Type 0
  Untaken e =
      ((e ≡ no_rows) × (any (is_offer event_id id quantity) d0.ticket_types ≡ false))
      ⊎ (e ≡ constraint_violation)
      ⊎ (e ≡ failure)

  take-Triple :
      Triple
        (λ d. d ≡ d0)
        (on_error
          (reserve_ticket_quantity env id event_id quantity)
          (λ e. raise (if is_no_rows e then insufficient_stock else e)))
        (λ _ _. Unit {0})
        Blames
  unfolding reserve_ticket_quantity
  take-Triple =
      Triple-on_error {F = Untaken} _ _
        (Triple-statement env
          (λ _. change_tickets (is_offer event_id id quantity) (add_reserved quantity))
          (λ _ d same. rw same (
            BodyPost-mono (λ _ _. Unit {0}) (λ _ _. Unit {0}) _ Untaken
              (change_tickets (is_offer event_id id quantity) (add_reserved quantity) d0)
              (λ _ _ h. h) (λ e h. elim h [ inl none ↦ inl none | inr broken ↦ inr (inl broken) ])
              (change_tickets-errors (is_offer event_id id quantity) (add_reserved quantity) d0)))
          (inr (inr refl)))
        by_error
    where
      by_error : (e : Error) → Untaken e → Blames (if is_no_rows e then insufficient_stock else e)
      by_error e (inl h) = λ _. no_offer-Lacks event_id id quantity d0.ticket_types h.1
      by_error e (inr (inl h)) = rw h (λ same. cc)
      by_error e (inr (inr h)) = rw h (λ same. cc)

  reported :
      (other : Error) (test : Error → Bool)
      → other ≢ insufficient_stock
      → (e : Error) → e ≢ insufficient_stock
      → Blames (if test e then other else e)
  reported other test o e n = elim (Bool-cases (test e)) [
    | inl hit ↦ rw hit (λ same. absurd (o same))
    | inr miss ↦ rw miss (λ same. absurd (n same))
  ]

  hold-Triple :
      Triple
        (λ d. d ≡ d0)
        (hold_quantity env session event_id id quantity key expires_at)
        (λ _ _. Unit {0})
        Blames
  unfolding hold_quantity
  hold-Triple = Triple-bind _ _ take-Triple λ _.
      Triple-bind {R = λ _ _. Unit {0}} _ _
        (Triple-on_error {F = λ e. e ≢ insufficient_stock} _ _ (create_reservation-errors env _)
          (reported idempotency_replay_required is_unique_violation cc))
        λ reservation.
          Triple-bind {R = λ _ _. Unit {0}} _ _
            (Triple-weaken _ _ _ _ _ _ _ (create_reservation_item-errors env _) (λ d h. h)
              (λ i d h. h) (λ e n same. absurd (n same)))
            λ item. Triple-pure _ (λ d h. tt)

  find-Transacts :
      Transacts
        (λ d. d ≡ d0)
        (get_quantity_reservation_by_idempotency_key env session.id key)
        (λ _ d. d ≡ d0)
        (λ e. e ≢ insufficient_stock)
  unfolding get_quantity_reservation_by_idempotency_key
  find-Transacts =
      Transacts-statement env (λ _. first_quantity_row session.id key)
        (λ _. first_quantity_row-errors session.id key d0) cc

  tx-Triple :
      Triple
        (λ d. d ≡ d0)
        (reserve_quantity_tx env session event_id id quantity key expires_at)
        (λ _ _. Unit {0})
        Blames
  unfolding reserve_quantity_tx quantity_unless_found
  tx-Triple = Triple-bind _ _ (Triple-attempt_tx _ find-Transacts) by_finding
    where
      by_finding :
          (found : Result QuantityReservationRow)
          → Triple
              (Tried (λ _ d. d ≡ d0) (λ e. e ≢ insufficient_stock) d0 found)
              (quantity_unless_found env session found
                (hold_quantity env session event_id id quantity key expires_at))
              (λ _ _. Unit {0})
              Blames
      by_finding (ok row) = Triple-pure _ (λ d h. tt)
      by_finding (err x) =
          Triple-assume (x ≢ insufficient_stock) (λ d. d ≡ d0) _ _ _
            λ n.
              Triple-if (is_no_rows x) _ _ (λ _. hold-Triple)
                (λ _. Triple-raise x (λ same. absurd (n same)))

  replay-Transacts :
      Transacts (λ d. d ≡ d0) (replay_quantity env session.id key) (λ _ _. Unit {0}) Blames
  unfolding replay_quantity
  replay-Transacts =
      Transacts-weaken _ _ _ _ _
        (Transacts-map _ _
          (Transacts-reported _ _ find-Transacts (reported idempotency_key_conflict is_no_rows cc)))
        (λ _ _ _. tt) (λ e h. h)

  -- The request blames the stock only if it is short.
  pub request-Transacts :
      Transacts
        (λ d. d ≡ d0)
        (on_error
          (with_tx env (reserve_quantity_tx env session event_id id quantity key expires_at))
          (λ e. if is_replay_required e then replay_quantity env session.id key else raise e))
        (λ _ _. Unit {0})
        Blames
  request-Transacts =
      Transacts-handled _ _ (Transacts-with_tx env _ tx-Triple (λ same. cc)) λ e blames.
        Transacts-if (is_replay_required e) _ _ replay-Transacts (Transacts-raise e blames)
