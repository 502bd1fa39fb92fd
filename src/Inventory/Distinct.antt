-- ===== src/Inventory/Distinct.antt =====
-- Rows with distinct ids stay so under selection, ordering and LIMIT.
use study_ticket_reservation.Base.{
  ℕ, zero, suc, ◌≡◌, refl, ◌∙◌, Bool, true, false, List, [], ◌∷◌, map, any, select, take, insert_by,
  sort_by, All, arith, inl, inr, Bool-cases,
}
use study_ticket_reservation.Db.Types.{Uuid, same_uuid}
use study_ticket_reservation.Db.Equality.{same_uuid_comm, same_uuid_refl}
use study_ticket_reservation.Inventory.Counters.{Distinct}

module _ {A : Type 0} (id : A → Uuid) where
  abbrev Absent : Uuid → List A → Type 0
  Absent x rows = any (same_uuid x) (map id rows) ≡ false

  Absent-select :
      (x : Uuid) (p : A → Bool) (rows : List A) → Absent x rows → Absent x (select p rows)
  Absent-select x p [] h = refl
  Absent-select x p (r ∷ rows) h = ground (arith, Absent-select x p rows)

  pub Distinct-select :
      (p : A → Bool) (rows : List A) → Distinct (map id rows) → Distinct (map id (select p rows))
  Distinct-select p [] h = tt
  Distinct-select p (r ∷ rows) h = elim (Bool-cases (p r)) [
    | inl kept ↦ rw kept (Absent-select (id r) p rows h.0, Distinct-select p rows h.1)
    | inr left_out ↦ rw left_out (Distinct-select p rows h.1)
  ]

  Absent-take : (x : Uuid) (n : ℕ) (rows : List A) → Absent x rows → Absent x (take n rows)
  Absent-take x zero rows h = refl
  Absent-take x (suc n) [] h = refl
  Absent-take x (suc n) (r ∷ rows) h = ground (arith, Absent-take x n rows)

  pub Distinct-take :
      (n : ℕ) (rows : List A) → Distinct (map id rows) → Distinct (map id (take n rows))
  Distinct-take zero rows h = tt
  Distinct-take (suc n) [] h = tt
  Distinct-take (suc n) (r ∷ rows) h = (Absent-take (id r) n rows h.0, Distinct-take n rows h.1)

  Absent-insert_by :
      (x : Uuid) (le : A → A → Bool) (r : A) (rows : List A)
      → same_uuid x (id r) ≡ false
      → Absent x rows
      → Absent x (insert_by le r rows)
  Absent-insert_by x le r [] n h = ground arith
  Absent-insert_by x le r (s ∷ rows) n h = ground (arith, Absent-insert_by x le r rows n)

  Distinct-insert_by :
      (le : A → A → Bool) (r : A) (rows : List A)
      → Absent (id r) rows
      → Distinct (map id rows)
      → Distinct (map id (insert_by le r rows))
  Distinct-insert_by le r [] n h = (refl, tt)
  Distinct-insert_by le r (s ∷ rows) n h = elim (Bool-cases (le r s)) [
    | inl before ↦ rw before (n, h)
    | inr after ↦ rw after (
      Absent-insert_by (id s) le r rows (same_uuid_comm (id s) (id r) ∙ ground arith) h.0,
      Distinct-insert_by le r rows (ground arith) h.1,
    )
  ]

  Absent-sort_by :
      (x : Uuid) (le : A → A → Bool) (rows : List A) → Absent x rows → Absent x (sort_by le rows)
  Absent-sort_by x le [] h = refl
  Absent-sort_by x le (r ∷ rows) h =
      Absent-insert_by x le r (sort_by le rows) (ground arith)
        (Absent-sort_by x le rows (ground arith))

  pub Distinct-sort_by :
      (le : A → A → Bool) (rows : List A)
      → Distinct (map id rows)
      → Distinct (map id (sort_by le rows))
  Distinct-sort_by le [] h = tt
  Distinct-sort_by le (r ∷ rows) h =
      Distinct-insert_by le r (sort_by le rows) (Absent-sort_by (id r) le rows h.0)
        (Distinct-sort_by le rows h.1)

  -- Every row with a key is found by its key.
  pub All-found :
      (rows : List A)
      → All (λ r. (id r).valid ≡ true) rows
      → All (λ r. any (λ s. same_uuid (id s) (id r)) rows ≡ true) rows
  All-found [] h = tt
  All-found (r ∷ rows) h = (rw (same_uuid_refl (id r) h.0) refl, later rows (All-found rows h.1))
    where
      later :
          (some_rows : List A)
          → All (λ s. any (λ t. same_uuid (id t) (id s)) rows ≡ true) some_rows
          → All (λ s. any (λ t. same_uuid (id t) (id s)) (r ∷ rows) ≡ true) some_rows
      later [] p = tt
      later (s ∷ some_rows) p = (ground arith, later some_rows p.1)
