-- ===== src/Base/Order.antt =====
-- ORDER BY and `sort.Slice`: what a sort by a total test gives, and the order of texts, character by
-- character.
use Prim.Native.Nat.{◌<◌}
use mathlib.Core.Path.{◌≡◌, refl}
use mathlib.Core.Bool.{Bool, true, false}
use mathlib.Core.List.{List, [], ◌∷◌}
use mathlib.Core.List.Perm
use mathlib.Core.List.{Perm}
use mathlib.Core.Logic.{◌⊎◌, inl, inr}
use native.Mathlib.Omega.{arith}
use study_ticket_reservation.Base.Tests.{Bool-cases, ◌==◌}
use study_ticket_reservation.Base.Lists.{insert_by, sort_by}
use study_ticket_reservation.Base.Text.{Text, text_lt}

-- Text before text, character by character, or the same.
abbrev pub IsUpTo : Text → Text → Type 0
IsUpTo [] t = Unit
IsUpTo (x ∷ xs) [] = ⊥
IsUpTo (x ∷ xs) (y ∷ ys) = (x < y) ⊎ ((x ≡ y) × IsUpTo xs ys)

pub IsUpTo-of_text_lt : (s t : Text) → text_lt t s ≡ false → IsUpTo s t
unfolding text_lt
IsUpTo-of_text_lt [] t h = tt
IsUpTo-of_text_lt (x ∷ xs) [] h = cc
IsUpTo-of_text_lt (x ∷ xs) (y ∷ ys) h = elim (Bool-cases (x == y)) [
  | inl same ↦ inr (ground arith, IsUpTo-of_text_lt xs ys (ground arith))
  | inr apart ↦ inl (ground arith)
]

pub text_lt_of_IsUpTo : (s t : Text) → IsUpTo s t → text_lt t s ≡ false
unfolding text_lt
text_lt_of_IsUpTo [] [] h = refl
text_lt_of_IsUpTo [] (y ∷ ys) h = refl
text_lt_of_IsUpTo (x ∷ xs) [] h = absurd h
text_lt_of_IsUpTo (x ∷ xs) (y ∷ ys) (inl less) = ground arith
text_lt_of_IsUpTo (x ∷ xs) (y ∷ ys) (inr (same, h)) =
    let rest = text_lt_of_IsUpTo xs ys h in ground arith

pub text_lt_asymm : (s t : Text) → text_lt s t ≡ true → text_lt t s ≡ false
unfolding text_lt
text_lt_asymm [] [] h = refl
text_lt_asymm [] (y ∷ ys) h = refl
text_lt_asymm (x ∷ xs) [] h = cc
text_lt_asymm (x ∷ xs) (y ∷ ys) h = ground (arith, text_lt_asymm xs ys)

-- Each is related to the next one.
abbrev pub Ascends : {A : Type 0} → (A → A → Type 0) → List A → Type 0
Ascends R [] = Unit
Ascends R (a ∷ []) = Unit
Ascends R (a ∷ b ∷ rest) = R a b × Ascends R (b ∷ rest)

module _ {A : Type 0} (le : A → A → Bool) (total : (a b : A) → le a b ≡ false → le b a ≡ true) where
  leads : A → List A → Bool
  leads a [] = true
  leads a (b ∷ _) = le a b

  Chain : List A → Type 0
  Chain [] = Unit
  Chain (a ∷ rest) = (leads a rest ≡ true) × Chain rest

  leads-insert_by :
      (y x : A) (ys : List A)
      → le y x ≡ true
      → leads y ys ≡ true
      → leads y (insert_by le x ys) ≡ true
  unfolding leads
  leads-insert_by y x [] before h = before
  leads-insert_by y x (z ∷ zs) before h = elim (Bool-cases (le x z)) [
    | inl first ↦ rw first before
    | inr later ↦ rw later h
  ]

  Chain-insert_by : (x : A) (ys : List A) → Chain ys → Chain (insert_by le x ys)
  unfolding leads Chain
  Chain-insert_by x [] h = (refl, tt)
  Chain-insert_by x (y ∷ ys) h = elim (Bool-cases (le x y)) [
    | inl first ↦ rw first (first, h)
    | inr later ↦ rw later (leads-insert_by y x ys (total x y later) h.0, Chain-insert_by x ys h.1)
  ]

  Chain-sort_by : (xs : List A) → Chain (sort_by le xs)
  unfolding Chain
  Chain-sort_by [] = tt
  Chain-sort_by (x ∷ xs) = Chain-insert_by x (sort_by le xs) (Chain-sort_by xs)

  Chain-Ascends :
      (R : A → A → Type 0)
      → ((a b : A) → le a b ≡ true → R a b)
      → (xs : List A) → Chain xs
      → Ascends R xs
  unfolding leads Chain
  Chain-Ascends R sound [] h = tt
  Chain-Ascends R sound (a ∷ []) h = tt
  Chain-Ascends R sound (a ∷ b ∷ rest) h = (sound a b h.0, Chain-Ascends R sound (b ∷ rest) h.1)

  -- A sorted list ascends.
  pub Ascends-sort_by :
      (R : A → A → Type 0)
      → ((a b : A) → le a b ≡ true → R a b)
      → (xs : List A) → Ascends R (sort_by le xs)
  Ascends-sort_by R sound xs = Chain-Ascends R sound (sort_by le xs) (Chain-sort_by xs)

module _ {A : Type 0} (le : A → A → Bool) where
  Perm-insert_by : (x : A) (ys : List A) → Perm (insert_by le x ys) (x ∷ ys)
  Perm-insert_by x [] = Perm.refl (x ∷ [])
  Perm-insert_by x (y ∷ ys) = elim (Bool-cases (le x y)) [
    | inl first ↦ rw first (Perm.refl (x ∷ y ∷ ys))
    | inr later ↦ rw later (Perm.trans (Perm.cons y (Perm-insert_by x ys)) (Perm.swap x y ys))
  ]

  -- It has the same elements, as often.
  pub Perm-sort_by : (xs : List A) → Perm (sort_by le xs) xs
  Perm-sort_by [] = Perm.refl []
  Perm-sort_by (x ∷ xs) =
      Perm.trans (Perm-insert_by x (sort_by le xs)) (Perm.cons x (Perm-sort_by xs))
