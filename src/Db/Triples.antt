-- ===== src/Db/Triples.antt =====
-- Rules for actions: what holds of the database between two statements of a transaction, and what a
-- transaction keeps. An error undoes the whole transaction, so of an error only its kind is stated.
use study_ticket_reservation.Base.{
  ◌≡◌, refl, Bool, true, false, inl, inr, arith, Bool-cases, if◌then◌else◌,
}
use study_ticket_reservation.Db.Types.{Uuid}
use study_ticket_reservation.Db.Tx.{
  Error, failure, Result, ok, err, Env, Tx, Action, pure, raise, lift, on_error, statement, reading,
  with_tx, tick, answer, continue, finish, ◌>>=◌,
}

-- `Q` of a result and its database, or `E` of an error.
abbrev pub Post : {S A : Type 0} → (A → S → Type 0) → (Error → Type 0) → Result A × Tx S → Type 0
Post Q E (ok a, w) = Q a w.db
Post Q E (err e, w) = E e

-- The same of the body of a statement.
abbrev pub BodyPost : {S A : Type 0} → (A → S → Type 0) → (Error → Type 0) → Result (A × S) → Type 0
BodyPost Q E (ok (a, d)) = Q a d
BodyPost Q E (err e) = E e

module _ {S A : Type 0} where
  pub BodyPost-mono :
      (Q Q' : A → S → Type 0) (E E' : Error → Type 0) (r : Result (A × S))
      → ((a : A) (d : S) → Q a d → Q' a d)
      → ((e : Error) → E e → E' e)
      → BodyPost Q E r
      → BodyPost Q' E' r
  BodyPost-mono Q Q' E E' (ok (a, d)) hq he h = hq a d h
  BodyPost-mono Q Q' E E' (err e) hq he h = he e h

pub record Triple {S A : Type 0} (P : S → Type 0) (m : Action S A) (Q : A → S → Type 0)
    (E : Error → Type 0) : Type 0 where
  pub at : (w : Tx S) → P w.db → Post Q E (m w)

-- Whatever happens, `P` holds again.
pub record Keeps {S A : Type 0} (P : S → Type 0) (m : Action S A) : Type 0 where
  pub at : (w : Tx S) → P w.db → P (m w).1.db

-- The rules at one result.
module _ {S A : Type 0} (P : S → Type 0) (Q : A → S → Type 0) (E : Error → Type 0) where
  Post-settled :
      (env : Env) (body : Uuid → S → Result (A × S))
      → ((id : Uuid) (d : S) → P d → BodyPost Q E (body id d))
      → E failure
      → (w : Tx S) → P w.db
      → Post Q E (statement env body w)
  unfolding statement
  Post-settled env body h hf w p = ground (arith, h (env.uuid w.calls) w.db p)

module _ {S A B : Type 0} (R : A → S → Type 0) (Q : B → S → Type 0) (E : Error → Type 0) where
  Post-continue :
      (m : Result A × Tx S) (f : A → Action S B)
      → Post R E m
      → ((a : A) → Triple (R a) (f a) Q E)
      → Post Q E (let (r, w) = m in continue r f w)
  unfolding continue
  Post-continue (ok a, w) f h hf = (hf a).at w h
  Post-continue (err e, w) f h hf = h

module _ {S A : Type 0} (Q : A → S → Type 0) (E F : Error → Type 0) where
  Post-reported :
      (m : Result A × Tx S) (report : Error → Error)
      → Post Q F m
      → ((e : Error) → F e → E (report e))
      → Post Q E (let (r, w) = m in answer r (λ e. raise (report e)) w)
  unfolding raise answer
  Post-reported (ok a, w) report h he = h
  Post-reported (err e, w) report h he = he e h

module _ {S A : Type 0} (P : S → Type 0) where
  Keeps-finish :
      (env : Env) (old : S) (r : Result A × Tx S)
      → P old
      → Post (λ _ d. P d) (λ _. Unit) r
      → P (let (x, w) = r in finish env old x w).1.db
  unfolding finish
  Keeps-finish env old (ok a, w) p h = ground arith
  Keeps-finish env old (err e, w) p h = p

module _ {S A : Type 0} {P : S → Type 0} {Q : A → S → Type 0} {E : Error → Type 0} where
  pub Triple-pure : (a : A) → ((d : S) → P d → Q a d) → Triple P (pure a) Q E
  unfolding pure
  Triple-pure a h = record { at = λ w p. h w.db p }

  pub Triple-raise : (e : Error) → E e → Triple P (raise e) Q E
  unfolding raise
  Triple-raise e h = record { at = λ w p. h }

  pub Triple-if :
      (b : Bool) (m n : Action S A)
      → (b ≡ true → Triple P m Q E)
      → (b ≡ false → Triple P n Q E)
      → Triple P (if b then m else n) Q E
  Triple-if true m n hm hn = hm refl
  Triple-if false m n hm hn = hn refl

  pub Triple-reading :
      (env : Env) (f : S → A)
      → ((d : S) → P d → Q (f d) d)
      → E failure
      → Triple P (statement env (reading f)) Q E
  Triple-reading env f h hf = record { at = Post-settled P Q E env (reading f) (λ _ d p. h d p) hf }

  pub Triple-statement :
      (env : Env) (body : Uuid → S → Result (A × S))
      → ((id : Uuid) (d : S) → P d → BodyPost Q E (body id d))
      → E failure
      → Triple P (statement env body) Q E
  Triple-statement env body h hf = record { at = Post-settled P Q E env body h hf }

module _ {S A : Type 0} where
  -- A fact of the precondition that does not speak of the database is a hypothesis.
  pub Triple-assume :
      (C : Type 0) (P : S → Type 0) (Q : A → S → Type 0) (E : Error → Type 0) (m : Action S A)
      → (C → Triple P m Q E)
      → Triple (λ d. C × P d) m Q E
  Triple-assume C P Q E m h = record { at = λ w p. (h p.0).at w p.1 }

  -- It is enough to run from each database where the precondition holds.
  pub Triple-each :
      (P : S → Type 0) (Q : A → S → Type 0) (E : Error → Type 0) (m : Action S A)
      → ((d0 : S) → P d0 → Triple (λ d. d ≡ d0) m Q E)
      → Triple P m Q E
  Triple-each P Q E m h = record { at = λ w p. (h w.db p).at w refl }

module _ {S A B : Type 0} {P : S → Type 0} {R : A → S → Type 0} {Q : B → S → Type 0}
    {E : Error → Type 0} where
  pub Triple-bind :
      (m : Action S A) (f : A → Action S B)
      → Triple P m R E
      → ((a : A) → Triple (R a) (f a) Q E)
      → Triple P (m >>= f) Q E
  unfolding ◌>>=◌
  Triple-bind m f hm hf = record { at = λ w p. Post-continue R Q E (m w) f (hm.at w p) hf }

module _ {S A : Type 0} {P : S → Type 0} {Q : A → S → Type 0} {E F : Error → Type 0} where
  -- A handler that answers an error by another one.
  pub Triple-on_error :
      (m : Action S A) (report : Error → Error)
      → Triple P m Q F
      → ((e : Error) → F e → E (report e))
      → Triple P (on_error m (λ e. raise (report e))) Q E
  unfolding on_error
  Triple-on_error m report hm he = record {
    at = λ w p. Post-reported Q E F (m w) report (hm.at w p) he;
  }

module _ {S A : Type 0} where
  pub Triple-weaken :
      (P P' : S → Type 0) (Q Q' : A → S → Type 0) (E E' : Error → Type 0) (m : Action S A)
      → Triple P' m Q' E'
      → ((d : S) → P d → P' d)
      → ((a : A) (d : S) → Q' a d → Q a d)
      → ((e : Error) → E' e → E e)
      → Triple P m Q E
  Triple-weaken P P' Q Q' E E' m h hp hq he = record {
    at = λ w p. weaken (m w) (h.at w (hp w.db p));
  }
    where
      weaken : (r : Result A × Tx S) → Post Q' E' r → Post Q E r
      weaken (ok a, w) x = hq a w.db x
      weaken (err e, w) x = he e x

module _ {S A : Type 0} {P : S → Type 0} where
  pub Keeps-with_tx :
      (env : Env) (m : Action S A)
      → Triple P m (λ _ d. P d) (λ _. Unit {0})
      → Keeps P (with_tx env m)
  unfolding with_tx
  Keeps-with_tx env m h = record {
    at = λ w p. elim (Bool-cases (env.fails w.calls)) [
      | inl bad ↦ rw bad p
      | inr good ↦ rw good (Keeps-finish P env w.db (m (tick w)) p (h.at (tick w) p))
    ];
  }

  pub Keeps-pure : (a : A) → Keeps P (pure a)
  unfolding pure
  Keeps-pure a = record { at = λ w p. p }

  pub Keeps-raise : (e : Error) → Keeps P (raise {A = A} e)
  unfolding raise
  Keeps-raise e = record { at = λ w p. p }

  pub Keeps-lift : (r : Result A) → Keeps P (lift r)
  unfolding lift
  Keeps-lift r = record { at = λ w p. p }

  pub Keeps-if :
      (b : Bool) (m n : Action S A) → Keeps P m → Keeps P n → Keeps P (if b then m else n)
  Keeps-if true m n hm hn = hm
  Keeps-if false m n hm hn = hn

  pub Keeps-on_error :
      (m : Action S A) (h : Error → Action S A)
      → Keeps P m
      → ((e : Error) → Keeps P (h e))
      → Keeps P (on_error m h)
  unfolding on_error
  Keeps-on_error m h km kh = record { at = λ w p. answered (m w) (km.at w p) }
    where
      answered : (r : Result A × Tx S) → P r.1.db → P (let (x, w) = r in answer x h w).1.db
      answered (ok a, w) p = p
      answered (err e, w) p = (kh e).at w p

module _ {S A B : Type 0} {P : S → Type 0} where
  pub Keeps-bind :
      (m : Action S A) (f : A → Action S B)
      → Keeps P m
      → ((a : A) → Keeps P (f a))
      → Keeps P (m >>= f)
  unfolding ◌>>=◌
  Keeps-bind m f km kf = record { at = λ w p. next (m w) (km.at w p) }
    where
      next : (r : Result A × Tx S) → P r.1.db → P (let (x, w) = r in continue x f w).1.db
      next (ok a, w) p = (kf a).at w p
      next (err e, w) p = p
