-- ===== src/Inventory/Tables.antt =====
-- Rows under UPDATE ... WHERE, selection and the existence tests.
use study_ticket_reservation.Base.{
  ◌≡◌, refl, Bool, true, false, List, [], ◌∷◌, map, any, select, All, arith, inl, inr, Bool-cases,
  if◌then◌else◌,
}
use study_ticket_reservation.Sqlc.Database.{update_where}

module _ {A : Type 0} where
  pub All-update_where :
      (P Q : A → Type 0) (test : A → Bool) (change : A → A) (xs : List A)
      → ((x : A) → P x → Q (if test x then change x else x))
      → All P xs
      → All Q (update_where test change xs)
  All-update_where P Q test change [] h p = tt
  All-update_where P Q test change (x ∷ xs) h p =
      (h x p.0, All-update_where P Q test change xs h p.1)

  pub All-mono : (P Q : A → Type 0) (xs : List A) → ((x : A) → P x → Q x) → All P xs → All Q xs
  All-mono P Q [] h p = tt
  All-mono P Q (x ∷ xs) h p = (h x p.0, All-mono P Q xs h p.1)

  -- No changed row fails a check that every selected row passes.
  pub any-select-false :
      (P : A → Type 0) (bad test : A → Bool) (change : A → A) (xs : List A)
      → ((x : A) → P x → test x ≡ true → bad (change x) ≡ false)
      → All P xs
      → any bad (map change (select test xs)) ≡ false
  any-select-false P bad test change [] h p = refl
  any-select-false P bad test change (x ∷ xs) h p =
      ground (arith, h x p.0, any-select-false P bad test change xs h p.1)

  -- A row that one test finds is found by another that holds of all such rows.
  pub any_mono :
      (P : A → Type 0) (find test : A → Bool) (xs : List A)
      → ((x : A) → P x → find x ≡ true → test x ≡ true)
      → All P xs
      → any find xs ≡ true
      → any test xs ≡ true
  any_mono P find test [] h p e = e
  any_mono P find test (x ∷ xs) h p e = ground (arith, h x p.0, any_mono P find test xs h p.1)

  pub select-any :
      (test : A → Bool) (xs : List A)
      → any test xs ≡ true
      → (y : A) × (ys : List A) × (select test xs ≡ y ∷ ys)
  select-any test [] e = cc
  select-any test (x ∷ xs) e = elim (Bool-cases (test x)) [
    | inl found ↦ (x, select test xs, rw found)
    | inr other ↦ let (y, ys, r) = select-any test xs (ground arith) in (y, ys, rw (other, r))
  ]

module _ {A : Type 0} where
  -- The first selected row passes the test, and has what every row has.
  pub All-selected :
      (P : A → Type 0) (test : A → Bool) (xs : List A) (y : A) (ys : List A)
      → select test xs ≡ y ∷ ys
      → All P xs
      → P y × (test y ≡ true)
  All-selected P test [] y ys e p = cc
  All-selected P test (x ∷ xs) y ys e p = elim (Bool-cases (test x)) [
    | inl hit ↦ let first : x ≡ y = ground arith in (rw first at p.0, rw first at hit)
    | inr miss ↦ All-selected P test xs y ys (ground arith) p.1
  ]

  -- A test that a change does not touch.
  pub any-update_where :
      (find test : A → Bool) (change : A → A) (xs : List A)
      → ((x : A) → find (change x) ≡ find x)
      → any find (update_where test change xs) ≡ any find xs
  any-update_where find test change [] h = refl
  any-update_where find test change (x ∷ xs) h =
      ground (arith, h x, any-update_where find test change xs h)

  pub map-update_where :
      {B : Type 0} (f : A → B) (test : A → Bool) (change : A → A) (xs : List A)
      → ((x : A) → f (change x) ≡ f x)
      → map f (update_where test change xs) ≡ map f xs
  map-update_where f test change [] h = refl
  map-update_where f test change (x ∷ xs) h =
      ground (arith, h x, map-update_where f test change xs h)

  -- What one test selects, it finds.
  pub any-selected :
      (test : A → Bool) (xs : List A) (y : A) (ys : List A)
      → select test xs ≡ y ∷ ys
      → any test xs ≡ true
  any-selected test [] y ys e = cc
  any-selected test (x ∷ xs) y ys e = elim (Bool-cases (test x)) [
    | inl hit ↦ rw hit refl
    | inr miss ↦ rw miss (any-selected test xs y ys (ground arith))
  ]

  pub All-both : (P Q : A → Type 0) (xs : List A) → All P xs → All Q xs → All (λ x. P x × Q x) xs
  All-both P Q [] p q = tt
  All-both P Q (x ∷ xs) p q = ((p.0, q.0), All-both P Q xs p.1 q.1)

  -- A selected row passed the test.
  pub All-select_test :
      (P Q : A → Type 0) (test : A → Bool) (xs : List A)
      → ((x : A) → P x → test x ≡ true → Q x)
      → All P xs
      → All Q (select test xs)
  All-select_test P Q test [] h p = tt
  All-select_test P Q test (x ∷ xs) h p = elim (Bool-cases (test x)) [
    | inl hit ↦ rw hit (h x p.0 hit, All-select_test P Q test xs h p.1)
    | inr miss ↦ rw miss (All-select_test P Q test xs h p.1)
  ]
