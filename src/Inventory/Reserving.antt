-- ===== src/Inventory/Reserving.antt =====
-- reserve_ticket_quantity: the one row of the ticket type takes the quantity, or no row has the
-- stock.
use study_ticket_reservation.Base.{
  ◌≡◌, ◌⊎◌, refl, sym, Bool, true, false, ◌&&◌, List, [], ◌∷◌, map, any, All, arith, inl, inr,
  Bool-cases, if◌then◌else◌,
}
use study_ticket_reservation.Base.Int.{ℤ, pos, ◌≤ℤ◌}
use study_ticket_reservation.Db.Types.{Uuid, same_uuid}
use study_ticket_reservation.Db.Equality.{same_uuid_comm, eq_of_same_uuid}
use study_ticket_reservation.Db.Tx.{failure, no_rows, Env}
use study_ticket_reservation.Db.Triples.{BodyPost, BodyPost-mono, Triple, Triple-statement}
use study_ticket_reservation.Sqlc.Models.{TicketType, reserved, confirmed}
use study_ticket_reservation.Sqlc.Database.{Database, ticket_check}
use study_ticket_reservation.Sqlc.Reservations.Stock.{
  has_stock, add_reserved, change_tickets, reserve_ticket_quantity,
}
use study_ticket_reservation.Inventory.Tables.{All-both}
use study_ticket_reservation.Inventory.Held.{held}
use study_ticket_reservation.Inventory.Counters.{
  Counts, Distinct, SameButTickets, ticket_ids, ticket_check-true, change_tickets-none,
  change_tickets-some,
}
use study_ticket_reservation.Inventory.Moves.{with_reserved, Reserving-step}
use study_ticket_reservation.Inventory.Invariant.{Inv}

module _ (id : Uuid) (test : TicketType → Bool)
    (of_id : (t : TicketType) → test t ≡ true → same_uuid t.id id ≡ true) where
  others_differ :
      (ts : List TicketType)
      → any (same_uuid id) (map (λ t. t.id) ts) ≡ false
      → All (λ t. same_uuid t.id id ≡ true → test t ≡ true) ts
  others_differ [] h = tt
  others_differ (t ∷ ts) h = (
    λ e. let far : same_uuid id t.id ≡ false = ground arith in cc (same_uuid_comm t.id id),
    others_differ ts (ground arith),
  )

  tested_is_known :
      (ts : List TicketType)
      → any test ts ≡ true
      → any (λ x. same_uuid x id) (map (λ t. t.id) ts) ≡ true
  tested_is_known [] h = h
  tested_is_known (t ∷ ts) h = ground (arith, of_id t, tested_is_known ts)

  any_comm : (ids : List Uuid) → any (λ x. same_uuid x id) ids ≡ any (same_uuid id) ids
  any_comm [] = refl
  any_comm (x ∷ ids) = rw (same_uuid_comm x id, any_comm ids)

  -- With distinct ids, all rows of the id pass a test that one of them passes.
  only_row :
      (ts : List TicketType)
      → Distinct (map (λ t. t.id) ts)
      → any test ts ≡ true
      → All (λ t. same_uuid t.id id ≡ true → test t ≡ true) ts
  only_row [] apart found = tt
  only_row (t ∷ ts) apart found = elim (Bool-cases (test t)) [
    | inl hit ↦
        (λ _. hit, others_differ ts (rw (sym (eq_of_same_uuid t.id id (of_id t hit))) apart.0))
    | inr miss ↦ (
      λ same.
          let known = tested_is_known ts (ground arith) in
          let here = rw (eq_of_same_uuid t.id id same) at apart.0 in
          cc (any_comm (map (λ s. s.id) ts), known, here),
      only_row ts apart.1 (ground arith),
    )
  ]

module _ (env : Env) (id event_id : Uuid) (quantity : ℤ) (d0 : Database) (inv : Inv d0)
    (positive : pos 1 ≤ℤ quantity) where
  abbrev held_of : Uuid → ℤ
  held_of x = held reserved x d0.reservation_items

  abbrev sold_of : Uuid → ℤ
  sold_of x = held confirmed x d0.reservation_items

  -- The counters after the reservation, before its rows stand in the tables.
  abbrev pub Taken : Database → Type 0
  Taken d =
      SameButTickets d0 d
      × All (Counts (with_reserved id quantity held_of) sold_of) d.ticket_types
      × (any (λ x. same_uuid x id) (ticket_ids d0) ≡ true)

  abbrev test : TicketType → Bool
  test t = same_uuid t.id id && same_uuid t.event_id event_id && has_stock quantity t

  abbrev Before : TicketType → Type 0
  Before t = Counts held_of sold_of t × (same_uuid t.id id ≡ true → test t ≡ true)

  step :
      (t : TicketType)
      → Before t
      → Counts
          (with_reserved id quantity held_of)
          sold_of
          (if test t then add_reserved quantity t else t)
  step t b = Reserving-step held_of sold_of id event_id quantity t positive b.0 b.1

  passes :
      (t : TicketType) → Before t → test t ≡ true → ticket_check (add_reserved quantity t) ≡ true
  passes t b g = ticket_check-true (add_reserved quantity t) (rw g at (step t b)).2

  Taken-Post :
      BodyPost (λ _ d. Taken d) (λ e. e ≡ no_rows) (change_tickets test (add_reserved quantity) d0)
  Taken-Post = elim (Bool-cases (any test d0.ticket_types)) [
    | inl found ↦
        BodyPost-mono _ _ _ _ (change_tickets test (add_reserved quantity) d0)
          (λ _ d h. (h.0, h.1, tested_is_known id test (λ t e. ground arith) d0.ticket_types found))
          (λ e h. absurd h)
          (change_tickets-some test (add_reserved quantity) Before
            (Counts (with_reserved id quantity held_of) sold_of) d0 passes step (λ t. refl)
            (All-both _ _ d0.ticket_types inv.counted
              (only_row id test (λ t e. ground arith) d0.ticket_types inv.distinct_tickets found))
            found)
    | inr none_left ↦ rw (change_tickets-none test (add_reserved quantity) d0 none_left) refl
  ]

  pub take-Triple :
      Triple
        (λ d. d ≡ d0)
        (reserve_ticket_quantity env id event_id quantity)
        (λ _ d. Taken d)
        (λ e. (e ≡ failure) ⊎ (e ≡ no_rows))
  unfolding reserve_ticket_quantity
  take-Triple =
      Triple-statement env (λ _. change_tickets test (add_reserved quantity))
        (λ _ d e. rw e (
          BodyPost-mono _ _ _ _ (change_tickets test (add_reserved quantity) d0) (λ _ d h. h)
            (λ e h. inr h) Taken-Post))
        (inl refl)
