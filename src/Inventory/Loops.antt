-- ===== src/Inventory/Loops.antt =====
-- The loops of releaseReservedQuantityItems and confirmReservedQuantityItems, on counters that cover
-- the items: every UPDATE finds its row, and the counters end without what the items held.
use study_ticket_reservation.Base.{
  ◌≡◌, refl, sym, ap, ◌∙◌, Bool, true, false, ◌&&◌, List, [], ◌∷◌, map, any, All, arith, inl, inr,
  Bool-cases, if◌then◌else◌,
}
use study_ticket_reservation.Base.Int.{ℤ, pos, ◌≤ℤ◌, leb_ℤ, int_laws}
use study_ticket_reservation.Db.Types.{Uuid, same_uuid}
use study_ticket_reservation.Db.Tx.{failure, Env, Action}
use study_ticket_reservation.Db.Triples.{
  BodyPost, BodyPost-mono, Triple, Triple-statement, Triple-bind, Triple-on_error, Triple-pure,
  Triple-weaken,
}
use study_ticket_reservation.Sqlc.Models.{ReservationItem, TicketType, reserved, status_eq}
use study_ticket_reservation.Sqlc.Database.{Database, ticket_check}
use study_ticket_reservation.Sqlc.Reservations.Stock.{
  TicketQuantityRow, subtract_reserved, move_to_sold, change_tickets, release_ticket_quantity,
  confirm_ticket_quantity,
}
use study_ticket_reservation.Reservations.Transitions.{move_items}
use study_ticket_reservation.Inventory.Tables.{All-mono, any_mono}
use study_ticket_reservation.Inventory.Held.{held, IsPositive}
use study_ticket_reservation.Inventory.Counters.{
  SameButTickets, ticket_ids, ticket_check-true, change_tickets-some,
}
use study_ticket_reservation.Inventory.Moves.{
  Releasing, Releasing-covers, Releasing-step, Confirming, Confirming-covers, Confirming-step,
}

pub SameButTickets-trans :
    (a b c : Database) → SameButTickets a b → SameButTickets b c → SameButTickets a c
SameButTickets-trans a b c (e, i) (f, j) = (
  f ∙ ap {A = Database} {B = Database} (λ d. record d { ticket_types = c.ticket_types }) e,
  j ∙ i,
)

-- The ticket type of an item exists.
abbrev pub IsKnown : List Uuid → ReservationItem → Type 0
IsKnown ids i = any (λ id. same_uuid id i.ticket_type_id) ids ≡ true

any-ids :
    (x : Uuid) (ts : List TicketType)
    → any (λ id. same_uuid id x) (map (λ t. t.id) ts) ≡ any (λ t. same_uuid t.id x) ts
any-ids x [] = refl
any-ids x (t ∷ ts) = rw (any-ids x ts)

-- An UPDATE of the row of one item, whose step on a row is known.
module _ (Before After : TicketType → Type 0) (change : TicketType → TicketType) (x : Uuid) (q : ℤ)
    (covers : (t : TicketType)
      → Before t
      → same_uuid t.id x ≡ true
      → leb_ℤ q t.reserved_quantity ≡ true)
    (step : (t : TicketType)
      → Before t
      → After (if same_uuid t.id x && leb_ℤ q t.reserved_quantity then change t else t))
    (checked : (t : TicketType) → After t → ticket_check t ≡ true)
    (same : (t : TicketType) → (change t).id ≡ t.id) where
  abbrev guard : TicketType → Bool
  guard t = same_uuid t.id x && leb_ℤ q t.reserved_quantity

  row_found :
      (d : Database)
      → any (λ id. same_uuid id x) (ticket_ids d) ≡ true
      → All Before d.ticket_types
      → any guard d.ticket_types ≡ true
  row_found d known all =
      any_mono Before (λ t. same_uuid t.id x) guard d.ticket_types
        (λ t b e. ground (arith, covers t b)) all (sym (any-ids x d.ticket_types) ∙ known)

  passes : (t : TicketType) → Before t → guard t ≡ true → ticket_check (change t) ≡ true
  passes t b g = checked (change t) (rw g at (step t b))

  pub move-Post :
      (d0 d : Database)
      → any (λ id. same_uuid id x) (ticket_ids d0) ≡ true
      → SameButTickets d0 d × All Before d.ticket_types
      → BodyPost
          (λ _ d'. SameButTickets d0 d' × All After d'.ticket_types)
          (λ e. e ≡ failure)
          (change_tickets guard change d)
  move-Post d0 d known (frame, all) =
      BodyPost-mono _ _ _ _ (change_tickets guard change d)
        (λ _ d' h. (SameButTickets-trans d0 d d' frame h.0, h.1)) (λ e h. absurd h)
        (change_tickets-some guard change Before After d passes step same all
          (row_found d (rw frame.1 known) all))

-- The database in a loop over `items`.
abbrev pub Stage : Database → (TicketType → Type 0) → Database → Type 0
Stage d0 P d = SameButTickets d0 d × All P d.ticket_types

abbrev pub any_reserved : List ReservationItem → Bool
any_reserved = any (λ i. status_eq i.status reserved)

-- The loop, for a statement `move` whose step on the counters `At` is known.
module _ (d0 : Database) (At : List ReservationItem → TicketType → Type 0)
    (move : Uuid → ℤ → Action Database TicketQuantityRow)
    (moves : (i : ReservationItem) (items : List ReservationItem)
      → All IsPositive (i ∷ items)
      → status_eq i.status reserved ≡ true
      → IsKnown (ticket_ids d0) i
      → Triple
          (Stage d0 (At (i ∷ items)))
          (move i.ticket_type_id i.quantity)
          (λ _ d. Stage d0 (At items) d)
          (λ e. e ≡ failure))
    (skips : (i : ReservationItem) (items : List ReservationItem) (t : TicketType)
      → status_eq i.status reserved ≡ false
      → At (i ∷ items) t
      → At items t) where
  abbrev Done : List ReservationItem → Bool → Database → Type 0
  Done items moved d = Stage d0 (At []) d × (moved ≡ any_reserved items)

  loop_step :
      (i : ReservationItem) (items : List ReservationItem)
      → All IsPositive (i ∷ items)
      → IsKnown (ticket_ids d0) i
      → Triple (Stage d0 (At items)) (move_items move items) (Done items) (λ e. e ≡ failure)
      → Triple
          (Stage d0 (At (i ∷ items)))
          (move_items move (i ∷ items))
          (Done (i ∷ items))
          (λ e. e ≡ failure)
  unfolding move_items
  loop_step i items positive known rest = elim (Bool-cases (status_eq i.status reserved)) [
    | inl held_item ↦ rw held_item (
        Triple-bind _ _
          (Triple-on_error _ _ (moves i items positive held_item known) (λ e h. ground arith))
          (λ _. Triple-bind _ _ rest (λ b. Triple-pure true (λ d h. (h.0, ground arith)))))
    | inr other ↦ rw other (
        Triple-weaken (Stage d0 (At (i ∷ items))) (Stage d0 (At items)) (Done (i ∷ items))
          (Done items) _ _ _ rest
          (λ d h. (h.0, All-mono _ _ d.ticket_types (λ t. skips i items t other) h.1))
          (λ b d h. (h.0, rw other h.1)) (λ e h. h))
  ]

  pub move_items-Done :
      (items : List ReservationItem)
      → All IsPositive items
      → All (IsKnown (ticket_ids d0)) items
      → Triple (Stage d0 (At items)) (move_items move items) (Done items) (λ e. e ≡ failure)
  unfolding move_items
  move_items-Done [] positive known = Triple-pure false (λ d h. (h, refl))
  move_items-Done (i ∷ items) positive known =
      loop_step i items positive known.0 (move_items-Done items positive.1 known.1)

module _ (env : Env) (r s : Uuid → ℤ) (r_nonneg : (x : Uuid) → pos 0 ≤ℤ r x) (d0 : Database) where
  release-Triple :
      (i : ReservationItem) (items : List ReservationItem)
      → All IsPositive (i ∷ items)
      → status_eq i.status reserved ≡ true
      → IsKnown (ticket_ids d0) i
      → Triple
          (Stage d0 (Releasing r s (i ∷ items)))
          (release_ticket_quantity env i.ticket_type_id i.quantity)
          (λ _ d. Stage d0 (Releasing r s items) d)
          (λ e. e ≡ failure)
  unfolding release_ticket_quantity
  release-Triple i items positive held_item known =
      Triple-statement env _
        (λ _ d h.
          move-Post (Releasing r s (i ∷ items)) (Releasing r s items)
            (subtract_reserved env.now i.quantity) i.ticket_type_id i.quantity
            (Releasing-covers env.now r s r_nonneg i items positive held_item)
            (Releasing-step env.now r s r_nonneg i items positive held_item)
            (λ t c. ticket_check-true t c.2) (λ t. refl) d0 d known h)
        refl

  release-skips :
      (i : ReservationItem) (items : List ReservationItem) (t : TicketType)
      → status_eq i.status reserved ≡ false
      → Releasing r s (i ∷ items) t
      → Releasing r s items t
  unfolding held
  release-skips i items t other c = grind int_laws

  -- After the loop the counters are without what the items had reserved.
  pub release_items-Triple :
      (items : List ReservationItem)
      → All IsPositive items
      → All (IsKnown (ticket_ids d0)) items
      → Triple
          (Stage d0 (Releasing r s items))
          (move_items (release_ticket_quantity env) items)
          (λ moved d. Stage d0 (Releasing r s []) d × (moved ≡ any_reserved items))
          (λ e. e ≡ failure)
  release_items-Triple =
      move_items-Done d0 (Releasing r s) (release_ticket_quantity env) release-Triple release-skips

  confirm-Triple :
      (i : ReservationItem) (items : List ReservationItem)
      → All IsPositive (i ∷ items)
      → status_eq i.status reserved ≡ true
      → IsKnown (ticket_ids d0) i
      → Triple
          (Stage d0 (Confirming r s (i ∷ items)))
          (confirm_ticket_quantity env i.ticket_type_id i.quantity)
          (λ _ d. Stage d0 (Confirming r s items) d)
          (λ e. e ≡ failure)
  unfolding confirm_ticket_quantity
  confirm-Triple i items positive held_item known =
      Triple-statement env _
        (λ _ d h.
          move-Post (Confirming r s (i ∷ items)) (Confirming r s items)
            (move_to_sold env.now i.quantity) i.ticket_type_id i.quantity
            (Confirming-covers env.now r s r_nonneg i items positive held_item)
            (Confirming-step env.now r s r_nonneg i items positive held_item)
            (λ t c. ticket_check-true t c.2) (λ t. refl) d0 d known h)
        refl

  confirm-skips :
      (i : ReservationItem) (items : List ReservationItem) (t : TicketType)
      → status_eq i.status reserved ≡ false
      → Confirming r s (i ∷ items) t
      → Confirming r s items t
  unfolding held
  confirm-skips i items t other c = grind int_laws

  -- After the loop what the items had reserved is sold.
  pub confirm_items-Triple :
      (items : List ReservationItem)
      → All IsPositive items
      → All (IsKnown (ticket_ids d0)) items
      → Triple
          (Stage d0 (Confirming r s items))
          (move_items (confirm_ticket_quantity env) items)
          (λ moved d. Stage d0 (Confirming r s []) d × (moved ≡ any_reserved items))
          (λ e. e ≡ failure)
  confirm_items-Triple =
      move_items-Done d0 (Confirming r s) (confirm_ticket_quantity env) confirm-Triple confirm-skips
