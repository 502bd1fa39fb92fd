-- ===== src/Inventory/Held.antt =====
-- What the items with a given status take of a ticket type, and how it changes with the items.
use study_ticket_reservation.Base.{
  ◌≡◌, refl, Bool, true, false, ◌&&◌, List, [], ◌∷◌, select, insert_by, sort_by, All, arith,
  if◌then◌else◌,
}
use study_ticket_reservation.Base.Int.{ℤ, pos, ◌+ℤ◌, ◌≤ℤ◌, int_laws, +ℤ_parts}
use study_ticket_reservation.Db.Types.{Uuid, Timestamptz, same_uuid}
use study_ticket_reservation.Sqlc.Models.{ReservationItem, Status, reserved, confirmed, status_eq}
use study_ticket_reservation.Sqlc.Database.{update_where}
use study_ticket_reservation.Sqlc.Reservations.Items.{set_item_status}

-- The share of one item.
abbrev pub share : Status → Uuid → ReservationItem → ℤ
share s ticket i =
    if same_uuid ticket i.ticket_type_id && status_eq i.status s then i.quantity else pos 0

unfoldable pub held : Status → Uuid → List ReservationItem → ℤ
held s ticket [] = pos 0
held s ticket (i ∷ is) = share s ticket i +ℤ held s ticket is

abbrev pub IsPositive : ReservationItem → Type 0
IsPositive i = pos 1 ≤ℤ i.quantity

pub held_nonneg :
    (s : Status) (ticket : Uuid) (is : List ReservationItem)
    → All IsPositive is
    → pos 0 ≤ℤ held s ticket is
unfolding held
held_nonneg s ticket [] h = omega arith
held_nonneg s ticket (i ∷ is) h =
    ground (arith, held_nonneg s ticket is h.1, +ℤ_parts (share s ticket i) (held s ticket is))

held-insert_by :
    (s : Status) (ticket : Uuid) (le : ReservationItem → ReservationItem → Bool)
    (i : ReservationItem) (is : List ReservationItem)
    → held s ticket (insert_by le i is) ≡ share s ticket i +ℤ held s ticket is
unfolding held
held-insert_by s ticket le i [] = refl
held-insert_by s ticket le i (j ∷ js) = grind (int_laws, held-insert_by s ticket le i js)

-- The order of the rows does not matter.
pub held-sort_by :
    (s : Status) (ticket : Uuid) (le : ReservationItem → ReservationItem → Bool)
    (is : List ReservationItem)
    → held s ticket (sort_by le is) ≡ held s ticket is
unfolding held
held-sort_by s ticket le [] = refl
held-sort_by s ticket le (i ∷ is) =
    rw (held-insert_by s ticket le i (sort_by le is), held-sort_by s ticket le is) refl

pub reserved_of_eq : (s : Status) → status_eq s reserved ≡ true → s ≡ reserved
unfolding status_eq
reserved_of_eq reserved h = refl
reserved_of_eq _ h = cc

reserved_not_confirmed : (s : Status) → status_eq s reserved ≡ true → status_eq s confirmed ≡ false
unfolding status_eq
reserved_not_confirmed reserved h = refl
reserved_not_confirmed _ h = cc

module _ (now : Timestamptz) (id : Uuid) where
  abbrev pub belongs : ReservationItem → Bool
  belongs i = same_uuid i.reservation_id id

  -- `UPDATE reservation_items SET status = target WHERE reservation_id = id AND status = 'reserved'`.
  abbrev pub marked : Status → List ReservationItem → List ReservationItem
  marked target =
      update_where (λ i. belongs i && status_eq i.status reserved) (set_item_status now target)

  -- What the reservation had reserved leaves the reserved items ...
  pub held-marked_reserved :
      (target : Status) (ticket : Uuid) (is : List ReservationItem)
      → status_eq target reserved ≡ false
      → held reserved ticket is
        ≡ held reserved ticket (marked target is) +ℤ held reserved ticket (select belongs is)
  unfolding held
  held-marked_reserved target ticket [] h = omega int_laws
  held-marked_reserved target ticket (i ∷ is) h =
      grind (int_laws, held-marked_reserved target ticket is h)

  -- ... and becomes sold where the new status is `confirmed` ...
  pub held-marked_confirmed :
      (ticket : Uuid) (is : List ReservationItem)
      → held confirmed ticket (marked confirmed is)
        ≡ held confirmed ticket is +ℤ held reserved ticket (select belongs is)
  unfolding held status_eq
  held-marked_confirmed ticket [] = omega int_laws
  held-marked_confirmed ticket (i ∷ is) =
      grind (int_laws, held-marked_confirmed ticket is, reserved_of_eq i.status)

  -- ... and only there.
  pub held-marked_other :
      (target : Status) (ticket : Uuid) (is : List ReservationItem)
      → status_eq target confirmed ≡ false
      → held confirmed ticket (marked target is) ≡ held confirmed ticket is
  unfolding held
  held-marked_other target ticket [] h = refl
  held-marked_other target ticket (i ∷ is) h =
      grind (int_laws, held-marked_other target ticket is h, reserved_not_confirmed i.status)
