-- ===== src/Db/Outcomes.antt =====
-- Rules for actions outside a transaction: an error too leaves a database, and what holds of it is
-- stated.
use study_ticket_reservation.Base.{◌≡◌, refl, Bool, true, false, if◌then◌else◌}
use study_ticket_reservation.Db.Tx.{
  Error, Result, ok, err, Tx, Action, pure, raise, lift, attempt, continue, ◌>>=◌,
}
use study_ticket_reservation.Db.Transactions.{Transacts, Settled}

-- `Q` of a result and its database, or `E` of an error and its database.
abbrev pub Outcome :
    {S A : Type 0} → (A → S → Type 0) → (Error → S → Type 0) → Result A × Tx S → Type 0
Outcome Q E (ok a, w) = Q a w.db
Outcome Q E (err e, w) = E e w.db

pub record Yields {S A : Type 0} (P : S → Type 0) (m : Action S A) (Q : A → S → Type 0)
    (E : Error → S → Type 0) : Type 0 where
  pub at : (w : Tx S) → P w.db → Outcome Q E (m w)

-- The outcome of a call that hands its error over as a value.
abbrev pub Either : {S A : Type 0} → (A → S → Type 0) → (Error → S → Type 0) → Result A → S → Type 0
Either Q E (ok a) d = Q a d
Either Q E (err e) d = E e d

module _ {S A : Type 0} {P : S → Type 0} {Q : A → S → Type 0} {E : Error → S → Type 0} where
  pub Yields-pure : (a : A) → ((d : S) → P d → Q a d) → Yields P (pure a) Q E
  unfolding pure
  Yields-pure a h = record { at = λ w p. h w.db p }

  pub Yields-raise : (e : Error) → ((d : S) → P d → E e d) → Yields P (raise e) Q E
  unfolding raise
  Yields-raise e h = record { at = λ w p. h w.db p }

  pub Yields-lift : (r : Result A) → ((d : S) → P d → Either Q E r d) → Yields P (lift r) Q E
  unfolding lift
  Yields-lift (ok a) h = record { at = λ w p. h w.db p }
  Yields-lift (err e) h = record { at = λ w p. h w.db p }

  pub Yields-if :
      (b : Bool) (m n : Action S A)
      → (b ≡ true → Yields P m Q E)
      → (b ≡ false → Yields P n Q E)
      → Yields P (if b then m else n) Q E
  Yields-if true m n hm hn = hm refl
  Yields-if false m n hm hn = hn refl

  pub Yields-each :
      (m : Action S A) → ((d0 : S) → P d0 → Yields (λ d. d ≡ d0) m Q E) → Yields P m Q E
  Yields-each m h = record { at = λ w p. (h w.db p).at w refl }

  pub Yields-attempt :
      {E' : Error → S → Type 0}
      → (m : Action S A) → Yields P m Q E
      → Yields P (attempt m) (Either Q E) E'
  unfolding attempt
  Yields-attempt m h = record { at = λ w p. handed (m w) (h.at w p) }
    where
      handed : (r : Result A × Tx S) → Outcome Q E r → Either Q E r.0 r.1.db
      handed (ok a, w) h = h
      handed (err e, w) h = h

module _ {S A B : Type 0} {P : S → Type 0} {R : A → S → Type 0} {Q : B → S → Type 0}
    {E : Error → S → Type 0} where
  pub Yields-bind :
      (m : Action S A) (f : A → Action S B)
      → Yields P m R E
      → ((a : A) → Yields (R a) (f a) Q E)
      → Yields P (m >>= f) Q E
  unfolding ◌>>=◌ continue
  Yields-bind m f hm hf = record { at = λ w p. next (m w) (hm.at w p) }
    where
      next : (r : Result A × Tx S) → Outcome R E r → Outcome Q E (let (x, w) = r in continue x f w)
      next (ok a, w) h = (hf a).at w h
      next (err e, w) h = h

module _ {S A : Type 0} {d0 : S} {Q Q' : A → S → Type 0} {E' : Error → S → Type 0} where
  -- A call that changes nothing when it fails.
  pub Yields-Transacts :
      {E : Error → Type 0}
      → (m : Action S A) → Transacts (λ d. d ≡ d0) m Q E
      → ((a : A) (d : S) → Q a d → Q' a d)
      → ((e : Error) → E e → E' e d0)
      → Yields (λ d. d ≡ d0) m Q' E'
  Yields-Transacts {E} m h hq he = record { at = λ w p. by_result w.db p (m w) (h.at w p) }
    where
      by_result : (old : S) → old ≡ d0 → (r : Result A × Tx S) → Settled Q E old r → Outcome Q' E' r
      by_result old p (ok a, w) s = hq a w.db s
      by_result old p (err e, w) s = rw (s.1, p) (he e s.0)

module _ {S A : Type 0} {P : S → Type 0} {Q Q' : A → S → Type 0} {E E' : Error → S → Type 0} where
  pub Yields-weaken :
      (m : Action S A)
      → Yields P m Q E
      → ((a : A) (d : S) → Q a d → Q' a d)
      → ((e : Error) (d : S) → E e d → E' e d)
      → Yields P m Q' E'
  Yields-weaken m h hq he = record { at = λ w p. weaken (m w) (h.at w p) }
    where
      weaken : (r : Result A × Tx S) → Outcome Q E r → Outcome Q' E' r
      weaken (ok a, w) x = hq a w.db x
      weaken (err e, w) x = he e w.db x
