-- ===== src/Inventory/Moves.antt =====
-- One item moves through the counters: RELEASE, CONFIRM and RESERVE on counters that agree with what
-- the items hold.
use study_ticket_reservation.Base.{
  ◌≡◌, Bool, true, ◌&&◌, List, ◌∷◌, All, arith, inl, inr, Bool-cases, if◌then◌else◌,
}
use study_ticket_reservation.Base.Int.{ℤ, pos, ◌+ℤ◌, ◌-ℤ◌, ◌≤ℤ◌, leb_ℤ, int_laws, +ℤ_parts}
use study_ticket_reservation.Db.Types.{Uuid, Timestamptz, same_uuid}
use study_ticket_reservation.Sqlc.Models.{ReservationItem, TicketType, reserved, status_eq}
use study_ticket_reservation.Sqlc.Reservations.Stock.{
  subtract_reserved, move_to_sold, add_reserved, has_stock,
}
use study_ticket_reservation.Inventory.Held.{held, held_nonneg, share, IsPositive}
use study_ticket_reservation.Inventory.Counters.{Counts}

-- The counters while the items of a list are still to be moved out of the reserved ones.
abbrev pub Releasing : (r s : Uuid → ℤ) → List ReservationItem → TicketType → Type 0
Releasing r s items = Counts (λ x. r x +ℤ held reserved x items) s

abbrev pub Confirming : (r s : Uuid → ℤ) → List ReservationItem → TicketType → Type 0
Confirming r s items =
    Counts (λ x. r x +ℤ held reserved x items) (λ x. s x -ℤ held reserved x items)

module _ (now : Timestamptz) (r s : Uuid → ℤ) (r_nonneg : (x : Uuid) → pos 0 ≤ℤ r x)
    (i : ReservationItem) (items : List ReservationItem) (positive : All IsPositive (i ∷ items))
    (is_reserved : status_eq i.status reserved ≡ true) (t : TicketType) where
  -- The guard of the UPDATE.
  abbrev pub covers : Bool
  covers = leb_ℤ i.quantity t.reserved_quantity

  -- The counters cover every item that is to be moved.
  pub Releasing-covers :
      Releasing r s (i ∷ items) t → same_uuid t.id i.ticket_type_id ≡ true → covers ≡ true
  unfolding held
  Releasing-covers c e = ground (
    arith,
    r_nonneg t.id,
    held_nonneg reserved t.id items positive.1,
    +ℤ_parts (r t.id) (share reserved t.id i +ℤ held reserved t.id items),
    +ℤ_parts (share reserved t.id i) (held reserved t.id items),
  )

  pub Releasing-step :
      Releasing r s (i ∷ items) t
      → Releasing r s items (
          if same_uuid t.id i.ticket_type_id && covers
          then subtract_reserved now i.quantity t
          else t)
  unfolding held
  Releasing-step c = elim (Bool-cases (same_uuid t.id i.ticket_type_id)) [
    | inl same ↦
        rw (same, Releasing-covers c same)
          (grind (int_laws, r_nonneg t.id, held_nonneg reserved t.id items positive.1))
    | inr other ↦ rw other (grind int_laws)
  ]

  pub Confirming-covers :
      Confirming r s (i ∷ items) t → same_uuid t.id i.ticket_type_id ≡ true → covers ≡ true
  unfolding held
  Confirming-covers c e = ground (
    arith,
    r_nonneg t.id,
    held_nonneg reserved t.id items positive.1,
    +ℤ_parts (r t.id) (share reserved t.id i +ℤ held reserved t.id items),
    +ℤ_parts (share reserved t.id i) (held reserved t.id items),
  )

  pub Confirming-step :
      Confirming r s (i ∷ items) t
      → Confirming r s items
          (if same_uuid t.id i.ticket_type_id && covers then move_to_sold now i.quantity t else t)
  unfolding held
  Confirming-step c = elim (Bool-cases (same_uuid t.id i.ticket_type_id)) [
    | inl same ↦
        rw (same, Confirming-covers c same)
          (grind (int_laws, r_nonneg t.id, held_nonneg reserved t.id items positive.1))
    | inr other ↦ rw other (grind int_laws)
  ]

-- A reservation of `quantity` tickets of the type `id`.
abbrev pub with_reserved : Uuid → ℤ → (Uuid → ℤ) → Uuid → ℤ
with_reserved id quantity r x = (if same_uuid x id then quantity else pos 0) +ℤ r x

pub Reserving-step :
    (r s : Uuid → ℤ) (id event_id : Uuid) (quantity : ℤ) (t : TicketType)
    → pos 1 ≤ℤ quantity
    → let test = same_uuid t.id id && same_uuid t.event_id event_id && has_stock quantity t in
      Counts r s t
      → (same_uuid t.id id ≡ true → test ≡ true)
      → Counts (with_reserved id quantity r) s (if test then add_reserved quantity t else t)
Reserving-step r s id event_id quantity t q c h = elim (Bool-cases (same_uuid t.id id)) [
  | inl same ↦ let passed = h same in rw passed (grind (int_laws, same))
  | inr other ↦ rw other (grind int_laws)
]
