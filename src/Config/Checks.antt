-- ===== src/Config/Checks.antt =====
-- What `Load` accepts and refuses (internal/config/config.go).
use study_ticket_reservation.Base.{
  ℕ, ◌%◌, ◌<◌, ◌≡◌, ◌≢◌, ◌↔◌, refl, ◌∙◌, Bool, true, false, Option, none, some, [], ◌∷◌, inl, inr,
  Bool-cases, ◌==◌, arith,
}
use study_ticket_reservation.Base.Int.{ℤ, pos, negsuc, ◌≤ℤ◌}
use study_ticket_reservation.Base.Text.{Text}
use study_ticket_reservation.Config.Parse.{in_int, minus_in_int, digits_value, atoi, int32}
use study_ticket_reservation.Config.Load.{
  Refusal, Setting, loaded, refused, ◌>>=◌, or_refused, setting, unless,
}

-- A loaded value satisfies `Q`, and a refusal `E`.
abbrev pub Loads : {A : Type 0} → (A → Type 0) → (Refusal → Type 0) → Setting A → Type 0
Loads Q E (loaded a) = Q a
Loads Q E (refused e) = E e

-- The same, as a record that rules compose.
pub record Loading {A : Type 0} (Q : A → Type 0) (E : Refusal → Type 0) (m : Setting A)
    : Type 0 where
  pub at : Loads Q E m

module _ {A : Type 0} {Q : A → Type 0} {E : Refusal → Type 0} where
  bind-Loads :
      {B : Type 0} (R : B → Type 0) (m : Setting B) (f : B → Setting A)
      → Loads R E m
      → ((b : B) → R b → Loading Q E (f b))
      → Loads Q E (m >>= f)
  unfolding ◌>>=◌
  bind-Loads R (loaded b) f h k = (k b h).at
  bind-Loads R (refused e) f h k = h

  pub Loading-bind :
      {B : Type 0} (R : B → Type 0) (m : Setting B) (f : B → Setting A)
      → Loads R E m
      → ((b : B) → R b → Loading Q E (f b))
      → Loading Q E (m >>= f)
  Loading-bind R m f h k = record { at = bind-Loads R m f h k }

  pub Loading-unless :
      (bad : Bool) (e : Refusal) (next : Setting A)
      → (bad ≡ true → E e)
      → (bad ≡ false → Loading Q E next)
      → Loading Q E (unless bad e next)
  Loading-unless true e next stop go = record { at = stop refl }
  Loading-unless false e next stop go = go refl

-- A setting that is set and that `parse` does not read.
abbrev pub Unread : {A : Type 0} → (Text → Option A) → Text → Type 0
Unread parse value = (value ≢ []) × (parse value ≡ none)

pub setting-Loads :
    {A : Type 0}
    → (E : Refusal → Type 0) (parse : Text → Option A) (e : Refusal) (value : Text) (fallback : A)
    → (Unread parse value → E e)
    → Loads (λ a. setting parse e value fallback ≡ loaded a) E (setting parse e value fallback)
unfolding setting
setting-Loads E parse e [] fallback h = refl
setting-Loads {A = A} E parse e (c ∷ cs) fallback h = of_option (parse (c ∷ cs)) refl
  where
    of_option :
        (o : Option A)
        → parse (c ∷ cs) ≡ o
        → Loads (λ a. or_refused e o ≡ loaded a) E (or_refused e o)
    of_option (some a) p = refl
    of_option none p = h (cc, p)

-- What `Atoi` reads fits an int.
in_int-fits : (o : Option ℕ) (n : ℕ) → in_int o ≡ some (pos n) → n < 0x8000000000000000
in_int-fits none n h = cc
in_int-fits (some m) n h = ground arith

minus_in_int-fits : (o : Option ℕ) (n : ℕ) → minus_in_int o ≡ some (pos n) → n < 0x8000000000000000
minus_in_int-fits none n h = cc
minus_in_int-fits (some m) n h = ground arith

atoi-fits : (s : Text) (n : ℕ) → atoi s ≡ some (pos n) → n < 0x8000000000000000
unfolding atoi
atoi-fits [] n h = cc
atoi-fits (c ∷ cs) n h = elim (Bool-cases (c == b'-')) [
  | inl minus ↦ minus_in_int-fits (digits_value cs) n (rw minus at h)
  | inr no_minus ↦ elim (Bool-cases (c == b'+')) [
    | inl plus ↦ in_int-fits (digits_value cs) n (rw (no_minus, plus) at h)
    | inr no_plus ↦ in_int-fits (digits_value (c ∷ cs)) n (rw (no_minus, no_plus) at h)
  ]
]

pub setting-fits :
    (e : Refusal) (value : Text) (n : ℕ)
    → setting atoi e value (pos 100) ≡ loaded (pos n)
    → n < 0x8000000000000000
unfolding setting
setting-fits e [] n h = ground arith
setting-fits e (c ∷ cs) n h = of_option (atoi (c ∷ cs)) refl h
  where
    of_option :
        (o : Option ℤ)
        → atoi (c ∷ cs) ≡ o
        → or_refused e o ≡ loaded (pos n)
        → n < 0x8000000000000000
    of_option none p h = cc
    of_option (some v) p h = let same : v ≡ pos n = cc in atoi-fits (c ∷ cs) n (p ∙ rw same refl)

-- The conversion to int32 gives an int32, and a positive one exactly for these low bits.
abbrev pub IsInt32 : ℤ → Type 0
IsInt32 z = (negsuc 0x7fffffff ≤ℤ z) × (z ≤ℤ pos 0x7fffffff)

pub int32-IsInt32 : (n : ℕ) → IsInt32 (int32 (pos n))
unfolding int32
int32-IsInt32 n = ground arith

pub int32_positive :
    (n : ℕ) → (pos 1 ≤ℤ int32 (pos n)) ↔ ((0 < n % 0x100000000) × (n % 0x100000000 < 0x80000000))
unfolding int32
int32_positive n = ground arith
