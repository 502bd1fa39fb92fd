-- ===== src/Consistency/Rows.antt =====
-- When a query of internal/sqlc/stress_admin.sql.go finds no row.
use study_ticket_reservation.Base.{
  ◌≡◌, refl, Bool, true, false, not, ◌&&◌, ◌++◌, List, [], ◌∷◌, map, any, select, insert_by,
  sort_by, All, ◌↔◌, arith,
}
use study_ticket_reservation.StressAdmin.Service.{none_found}

module _ {A : Type 0} where
  pub none_found-map :
      {B : Type 0} (f : A → B) (xs : List A) → none_found (map f xs) ≡ none_found xs
  none_found-map f [] = refl
  none_found-map f (x ∷ xs) = ground arith

  none_found-insert_by :
      (le : A → A → Bool) (x : A) (ys : List A) → none_found (insert_by le x ys) ≡ false
  none_found-insert_by le x [] = refl
  none_found-insert_by le x (y ∷ ys) = ground arith

  pub none_found-sort_by :
      (le : A → A → Bool) (xs : List A) → none_found (sort_by le xs) ≡ none_found xs
  none_found-sort_by le [] = refl
  none_found-sort_by le (x ∷ xs) = ground (arith, none_found-insert_by le x (sort_by le xs))

  pub none_found-select :
      (test : A → Bool) (xs : List A) → none_found (select test xs) ≡ not (any test xs)
  none_found-select test [] = refl
  none_found-select test (x ∷ xs) = ground (arith, none_found-select test xs)

  -- The rows of a query find nothing if no row of the table passes the test.
  pub none_found-rows :
      {B : Type 0} (f : A → B) (le : A → A → Bool) (test : A → Bool) (xs : List A)
      → none_found (map f (sort_by le (select test xs))) ≡ not (any test xs)
  none_found-rows f le test xs =
      rw
        (
          none_found-map f (sort_by le (select test xs)),
          none_found-sort_by le (select test xs),
          none_found-select test xs,
        )
        refl

  -- No row has the fault that the test looks for.
  pub not-any-All :
      (test : A → Bool) (P : A → Type 0) (xs : List A)
      → ((x : A) → (test x ≡ false) ↔ P x)
      → (not (any test xs) ≡ true) ↔ All P xs
  not-any-All test P [] h = (λ e. tt, λ p. refl)
  not-any-All test P (x ∷ xs) h = (
    λ e. ((h x).0 (ground arith), (not-any-All test P xs h).0 (ground arith)),
    λ p. ground (arith, (h x).1 p.0, (not-any-All test P xs h).1 p.1),
  )

  pub none_found-All :
      {B : Type 0} (f : A → B) (le : A → A → Bool) (test : A → Bool) (P : A → Type 0) (xs : List A)
      → ((x : A) → (test x ≡ false) ↔ P x)
      → (none_found (map f (sort_by le (select test xs))) ≡ true) ↔ All P xs
  none_found-All f le test P xs h = rw (none_found-rows f le test xs) (not-any-All test P xs h)

  pub none_found-append :
      (xs ys : List A) → none_found (xs ++ ys) ≡ (none_found xs && none_found ys)
  none_found-append [] ys = ground arith
  none_found-append (x ∷ xs) ys = ground arith

  pub none_found-nil : (xs : List A) → (none_found xs ≡ true) ↔ (xs ≡ [])
  none_found-nil [] = (λ e. refl, λ e. refl)
  none_found-nil (x ∷ xs) = (λ e. absurd (ground arith), λ e. cc)
