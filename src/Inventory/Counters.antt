-- ===== src/Inventory/Counters.antt =====
-- UPDATE ticket_types on counters that agree with given functions of the ticket type.
use study_ticket_reservation.Base.{
  Bool-cases, inl, inr, ◌⊎◌, ◌≡◌, refl, ap, Bool, true, false, not, List, [], ◌∷◌, map, any, select,
  All, arith, if◌then◌else◌,
}
use study_ticket_reservation.Base.Int.{ℤ, pos, ◌+ℤ◌, ◌≤ℤ◌, +ℤ_parts}
use study_ticket_reservation.Db.Types.{Uuid, same_uuid}
use study_ticket_reservation.Db.Tx.{constraint_violation, no_rows, err}
use study_ticket_reservation.Db.Triples.{BodyPost}
use study_ticket_reservation.Sqlc.Models.{TicketType}
use study_ticket_reservation.Sqlc.Database.{Database, update_where, ticket_check}
use study_ticket_reservation.Sqlc.Reservations.Stock.{change_tickets}
use study_ticket_reservation.Inventory.Tables.{All-update_where, any-select-false, select-any}

-- What the CHECKs ask of the counters.
abbrev pub IsStocked : TicketType → Type 0
IsStocked t =
    (pos 0 ≤ℤ t.sold_quantity)
    × (pos 0 ≤ℤ t.reserved_quantity)
    × (t.sold_quantity +ℤ t.reserved_quantity ≤ℤ t.total_quantity)
    × (t.total_quantity ≤ℤ pos 2147483647)

-- The counters are `r` and `s` of the ticket type's id.
abbrev pub Counts : (r s : Uuid → ℤ) → TicketType → Type 0
Counts r s t = (t.reserved_quantity ≡ r t.id) × (t.sold_quantity ≡ s t.id) × IsStocked t

abbrev pub ticket_ids : Database → List Uuid
ticket_ids d = map (λ t. t.id) d.ticket_types

-- Only the counters differ.
abbrev pub SameButTickets : Database → Database → Type 0
SameButTickets d d' =
    (d' ≡ record d { ticket_types = d'.ticket_types }) × (ticket_ids d' ≡ ticket_ids d)

abbrev pub Distinct : List Uuid → Type 0
Distinct [] = Unit
Distinct (id ∷ ids) = (any (same_uuid id) ids ≡ false) × Distinct ids

pub ticket_check-true : (t : TicketType) → IsStocked t → ticket_check t ≡ true
unfolding ticket_check
ticket_check-true t h = ground (arith, +ℤ_parts t.sold_quantity t.reserved_quantity)

module _ (test : TicketType → Bool) (change : TicketType → TicketType) where
  select-none : (ts : List TicketType) → any test ts ≡ false → select test ts ≡ []
  select-none [] h = refl
  select-none (t ∷ ts) h = ground (arith, select-none ts)

  map-id-update_where :
      ((t : TicketType) → (change t).id ≡ t.id)
      → (ts : List TicketType) → map (λ t. t.id) (update_where test change ts) ≡ map (λ t. t.id) ts
  map-id-update_where same [] = refl
  map-id-update_where same (t ∷ ts) = ground (arith, same t, map-id-update_where same ts)

  -- Without a row to change, the query finds no row.
  pub change_tickets-none :
      (d : Database) → any test d.ticket_types ≡ false → change_tickets test change d ≡ err no_rows
  unfolding change_tickets
  change_tickets-none d h = rw (select-none d.ticket_types h)

  -- The only other error is a CHECK that a changed row breaks.
  pub change_tickets-errors :
      (d : Database)
      → BodyPost
          (λ _ _. Unit {0})
          (λ e. ((e ≡ no_rows) × (any test d.ticket_types ≡ false)) ⊎ (e ≡ constraint_violation))
          (change_tickets test change d)
  unfolding change_tickets
  change_tickets-errors d = elim (Bool-cases (any test d.ticket_types)) [
    | inr none ↦ rw (change_tickets-none d none) (inl (refl, none))
    | inl found ↦
        elim (Bool-cases
          (any (λ t. not (ticket_check t)) (map change (select test d.ticket_types)))) [
            | inl bad ↦ rw bad (inr refl)
            | inr good ↦ let (y, ys, e) = select-any test d.ticket_types found in rw (good, e) tt
          ]
  ]

  -- With one, every row that passes the test changes, if the changed rows pass the CHECKs.
  pub change_tickets-some :
      (P Q : TicketType → Type 0) (d : Database)
      → ((t : TicketType) → P t → test t ≡ true → ticket_check (change t) ≡ true)
      → ((t : TicketType) → P t → Q (if test t then change t else t))
      → ((t : TicketType) → (change t).id ≡ t.id)
      → All P d.ticket_types
      → any test d.ticket_types ≡ true
      → BodyPost
          (λ _ d'. SameButTickets d d' × All Q d'.ticket_types)
          (λ _. ⊥)
          (change_tickets test change d)
  unfolding change_tickets
  change_tickets-some P Q d checked changed same all found =
      let (y, ys, e) = select-any test d.ticket_types found in
      rw
        (
          any-select-false P (λ t. not (ticket_check t)) test change d.ticket_types
              (λ t p h. ap not (checked t p h)) all,
          e,
        )
        (
          (refl, map-id-update_where same d.ticket_types),
          All-update_where P Q test change d.ticket_types changed all,
        )
