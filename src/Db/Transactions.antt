-- ===== src/Db/Transactions.antt =====
-- What `WithTx` (internal/db/tx.go) makes of its body: all of it, or nothing.
use study_ticket_reservation.Base.{
  ◌≡◌, refl, sym, ◌∙◌, Bool, true, false, inl, inr, Bool-cases, if◌then◌else◌,
}
use study_ticket_reservation.Db.Types.{Uuid}
use study_ticket_reservation.Db.Tx.{
  Error, failure, Result, ok, err, Env, Tx, Action, with_tx, finish, tick, on_error, answer, raise,
  pure, lift, attempt, statement, settle, continue, ◌>>=◌,
}
use study_ticket_reservation.Db.Triples.{Post, BodyPost, Triple}

-- `Q` of a result and its database; or `E` of an error, and the database `old`.
abbrev pub Settled :
    {S A : Type 0} → (A → S → Type 0) → (Error → Type 0) → S → Result A × Tx S → Type 0
Settled Q E old (ok a, w) = Q a w.db
Settled Q E old (err e, w) = E e × (w.db ≡ old)

pub record Transacts {S A : Type 0} (P : S → Type 0) (m : Action S A) (Q : A → S → Type 0)
    (E : Error → Type 0) : Type 0 where
  pub at : (w : Tx S) → P w.db → Settled Q E w.db (m w)

module _ {S A : Type 0} (Q : A → S → Type 0) (E : Error → Type 0) where
  Settled-finish :
      (env : Env) (old : S) (m : Result A × Tx S)
      → Post Q E m
      → E failure
      → Settled Q E old (let (r, w) = m in finish env old r w)
  unfolding finish
  Settled-finish env old (ok a, w) h hf = elim (Bool-cases (env.fails w.calls)) [
    | inl bad ↦ rw bad (hf, refl)
    | inr good ↦ rw good h
  ]
  Settled-finish env old (err e, w) h hf = (h, refl)

module _ {S A : Type 0} {P : S → Type 0} {Q : A → S → Type 0} {E : Error → Type 0} where
  -- BEGIN, COMMIT and the deferred ROLLBACK make a transaction of any body.
  pub Transacts-with_tx :
      (env : Env) (m : Action S A) → Triple P m Q E → E failure → Transacts P (with_tx env m) Q E
  unfolding with_tx
  Transacts-with_tx env m h hf = record {
    at = λ w p. elim (Bool-cases (env.fails w.calls)) [
      | inl bad ↦ rw bad (hf, refl)
      | inr good ↦ rw good (Settled-finish Q E env w.db (m (tick w)) (h.at (tick w) p) hf)
    ];
  }

  pub Transacts-raise : (e : Error) → E e → Transacts P (raise e) Q E
  unfolding raise
  Transacts-raise e h = record { at = λ w p. (h, refl) }

-- What holds of a result that is not an error.
abbrev pub IfOk : {A : Type 0} → (A → Type 0) → Result A → Type 0
IfOk R (ok a) = R a
IfOk R (err e) = Unit

module _ {S A : Type 0} {d0 : S} {Q : A → S → Type 0} {E : Error → Type 0} where
  -- A handler starts from the database that a failed transaction leaves.
  pub Transacts-on_error :
      (m : Action S A) (h : Error → Action S A)
      → Transacts (λ d. d ≡ d0) m Q E
      → ((e : Error) → Transacts (λ d. d ≡ d0) (h e) Q E)
      → Transacts (λ d. d ≡ d0) (on_error m h) Q E
  unfolding on_error answer
  Transacts-on_error m h hm hh = record { at = λ w p. handled w.db p (m w) (hm.at w p) }
    where
      back : (old new : S) (r : Result A × Tx S) → old ≡ new → Settled Q E new r → Settled Q E old r
      back old new r e s = rw e s

      handled :
          (old : S)
          → old ≡ d0
          → (r : Result A × Tx S) → Settled Q E old r
          → Settled Q E old (let (x, w) = r in answer x h w)
      handled old p (ok a, w) s = s
      handled old p (err e, w) s = back old w.db (h e w) (sym s.1) ((hh e).at w (s.1 ∙ p))

  pub Transacts-statement :
      (env : Env) (body : Uuid → S → Result (A × S))
      → ((id : Uuid) → BodyPost Q E (body id d0))
      → E failure
      → Transacts (λ d. d ≡ d0) (statement env body) Q E
  unfolding statement settle
  Transacts-statement env body h hf = record {
    at = λ w p. elim (Bool-cases (env.fails w.calls)) [
      | inl bad ↦ rw bad (hf, refl)
      | inr good ↦
          rw good (settled_body w (body (env.uuid w.calls) w.db) (rw p (h (env.uuid w.calls))))
    ];
  }
    where
      settled_body :
          (w : Tx S) (r : Result (A × S)) → BodyPost Q E r → Settled Q E w.db (settle r w)
      settled_body w (ok (a, d)) h = h
      settled_body w (err e) h = (h, refl)

module _ {S A B : Type 0} {d0 : S} {R : A → Type 0} {Q : B → S → Type 0} {E : Error → Type 0} where
  -- A first step that only reads.
  pub Transacts-bind :
      (m : Action S A) (f : A → Action S B)
      → Transacts (λ d. d ≡ d0) m (λ a d. R a × (d ≡ d0)) E
      → ((a : A) → R a → Transacts (λ d. d ≡ d0) (f a) Q E)
      → Transacts (λ d. d ≡ d0) (m >>= f) Q E
  unfolding ◌>>=◌ continue
  Transacts-bind m f hm hf = record { at = λ w p. next w.db p (m w) (hm.at w p) }
    where
      next :
          (old : S)
          → old ≡ d0
          → (r : Result A × Tx S) → Settled (λ a d. R a × (d ≡ d0)) E old r
          → Settled Q E old (let (x, w) = r in continue x f w)
      next old p (ok a, w) s = rw (p ∙ sym s.1) ((hf a s.0).at w s.1)
      next old p (err e, w) s = s

module _ {S A : Type 0} {d0 : S} {R : A → Type 0} {E F : Error → Type 0} where
  pub Triple-attempt :
      (m : Action S A)
      → Transacts (λ d. d ≡ d0) m (λ a d. R a × (d ≡ d0)) F
      → Triple (λ d. d ≡ d0) (attempt m) (λ r d. IfOk R r × (d ≡ d0)) E
  unfolding attempt
  Triple-attempt m h = record { at = λ w p. tried w.db p (m w) (h.at w p) }
    where
      tried :
          (old : S)
          → old ≡ d0
          → (r : Result A × Tx S) → Settled (λ a d. R a × (d ≡ d0)) F old r
          → IfOk R r.0 × (r.1.db ≡ d0)
      tried old p (ok a, w) s = s
      tried old p (err e, w) s = (tt, s.1 ∙ p)

module _ {S A B : Type 0} {P : S → Type 0} {Q : B → S → Type 0} {E : Error → Type 0} where
  pub Transacts-lift :
      (r : Result A) (f : A → Action S B)
      → ((a : A) → r ≡ ok a → Transacts P (f a) Q E)
      → ((e : Error) → r ≡ err e → E e)
      → Transacts P (lift r >>= f) Q E
  unfolding lift ◌>>=◌ continue
  Transacts-lift (ok a) f h he = record { at = λ w p. (h a refl).at w p }
  Transacts-lift (err e) f h he = record { at = λ w p. (he e refl, refl) }

module _ {S A : Type 0} {d0 : S} {Q : A → S → Type 0} {E : Error → Type 0} where
  pub Transacts-pure : (a : A) → Q a d0 → Transacts (λ d. d ≡ d0) (pure a) Q E
  unfolding pure
  Transacts-pure a h = record { at = λ w p. rw p h }

  pub Transacts-if :
      (b : Bool) (m n : Action S A)
      → Transacts (λ d. d ≡ d0) m Q E
      → Transacts (λ d. d ≡ d0) n Q E
      → Transacts (λ d. d ≡ d0) (if b then m else n) Q E
  Transacts-if true m n hm hn = hm
  Transacts-if false m n hm hn = hn

module _ {S A : Type 0} {d0 : S} where
  pub Transacts-weaken :
      (Q Q' : A → S → Type 0) (E E' : Error → Type 0) (m : Action S A)
      → Transacts (λ d. d ≡ d0) m Q' E'
      → ((a : A) (d : S) → Q' a d → Q a d)
      → ((e : Error) → E' e → E e)
      → Transacts (λ d. d ≡ d0) m Q E
  Transacts-weaken Q Q' E E' m h hq he = record { at = λ w p. weaken w.db (m w) (h.at w p) }
    where
      weaken : (old : S) (r : Result A × Tx S) → Settled Q' E' old r → Settled Q E old r
      weaken old (ok a, w) x = hq a w.db x
      weaken old (err e, w) x = (he e x.0, x.1)

module _ {S A : Type 0} {d0 : S} {Q : A → S → Type 0} {E F : Error → Type 0} where
  -- A handler that answers an error by another one.
  pub Transacts-reported :
      (m : Action S A) (report : Error → Error)
      → Transacts (λ d. d ≡ d0) m Q F
      → ((e : Error) → F e → E (report e))
      → Transacts (λ d. d ≡ d0) (on_error m (λ e. raise (report e))) Q E
  unfolding on_error answer raise
  Transacts-reported m report hm he = record { at = λ w p. reported w.db (m w) (hm.at w p) }
    where
      reported :
          (old : S) (r : Result A × Tx S)
          → Settled Q F old r
          → Settled Q E old (let (x, w) = r in answer x (λ e. raise (report e)) w)
      reported old (ok a, w) s = s
      reported old (err e, w) s = (he e s.0, s.1)

module _ {S A B : Type 0} {d0 : S} {Q : A → S → Type 0} {E : Error → Type 0} where
  -- A last step that only converts the result.
  pub Transacts-map :
      (m : Action S A) (f : A → B)
      → Transacts (λ d. d ≡ d0) m Q E
      → Transacts (λ d. d ≡ d0) (m >>= λ a. pure (f a)) (λ b d. (a : A) × Q a d × (b ≡ f a)) E
  unfolding ◌>>=◌ continue pure
  Transacts-map m f hm = record { at = λ w p. mapped w.db (m w) (hm.at w p) }
    where
      mapped :
          (old : S) (r : Result A × Tx S)
          → Settled Q E old r
          → Settled
              (λ b d. (a : A) × Q a d × (b ≡ f a))
              E
              old
              (let (x, w) = r in continue x (λ a. pure (f a)) w)
      mapped old (ok a, w) s = (a, s, refl)
      mapped old (err e, w) s = s

module _ {S A : Type 0} {d0 : S} {Q : A → S → Type 0} {E F : Error → Type 0} where
  -- A handler of errors of which `F` is known.
  pub Transacts-handled :
      (m : Action S A) (h : Error → Action S A)
      → Transacts (λ d. d ≡ d0) m Q F
      → ((e : Error) → F e → Transacts (λ d. d ≡ d0) (h e) Q E)
      → Transacts (λ d. d ≡ d0) (on_error m h) Q E
  unfolding on_error answer
  Transacts-handled m h hm hh = record { at = λ w p. handled w.db p (m w) (hm.at w p) }
    where
      back : (old new : S) (r : Result A × Tx S) → old ≡ new → Settled Q E new r → Settled Q E old r
      back old new r e s = rw e s

      handled :
          (old : S)
          → old ≡ d0
          → (r : Result A × Tx S) → Settled Q F old r
          → Settled Q E old (let (x, w) = r in answer x h w)
      handled old p (ok a, w) s = s
      handled old p (err e, w) s = back old w.db (h e w) (sym s.1) ((hh e s.0).at w (s.1 ∙ p))
