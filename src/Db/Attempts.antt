-- ===== src/Db/Attempts.antt =====
-- Calls whose error the caller handles as a value.
use study_ticket_reservation.Base.{◌≡◌, ◌∙◌, inl, inr, Bool-cases}
use study_ticket_reservation.Db.Types.{Uuid}
use study_ticket_reservation.Db.Tx.{
  Error, Result, ok, err, Env, Tx, Action, attempt, statement, settle,
}
use study_ticket_reservation.Db.Triples.{BodyPost, Triple, Keeps}
use study_ticket_reservation.Db.Transactions.{Transacts, Settled}

module _ {S A : Type 0} {P : S → Type 0} where
  pub Keeps-statement :
      (env : Env) (body : Uuid → S → Result (A × S))
      → ((id : Uuid) (d : S) → P d → BodyPost (λ _ d'. P d') (λ _. Unit {0}) (body id d))
      → Keeps P (statement env body)
  unfolding statement settle
  Keeps-statement env body h = record {
    at = λ w p. elim (Bool-cases (env.fails w.calls)) [
      | inl bad ↦ rw bad p
      | inr good ↦ rw good (kept w p (body (env.uuid w.calls) w.db) (h (env.uuid w.calls) w.db p))
    ];
  }
    where
      kept :
          (w : Tx S)
          → P w.db
          → (r : Result (A × S)) → BodyPost (λ _ d'. P d') (λ _. Unit {0}) r
          → P (settle r w).1.db
      kept w p (ok (a, d)) h = h
      kept w p (err e) h = p

  pub Triple-attempt_keeps :
      {E : Error → Type 0} → (m : Action S A) → Keeps P m → Triple P (attempt m) (λ _ d. P d) E
  unfolding attempt
  Triple-attempt_keeps m h = record { at = λ w p. h.at w p }

-- What a call hands over, with its error as a value.
abbrev pub Tried : {S A : Type 0} → (A → S → Type 0) → (Error → Type 0) → S → Result A → S → Type 0
Tried Q E d0 (ok a) d = Q a d
Tried Q E d0 (err e) d = E e × (d ≡ d0)

module _ {S A : Type 0} {d0 : S} {Q : A → S → Type 0} {E : Error → Type 0} where
  pub Triple-attempt_tx :
      {F : Error → Type 0}
      → (m : Action S A) → Transacts (λ d. d ≡ d0) m Q E
      → Triple (λ d. d ≡ d0) (attempt m) (Tried Q E d0) F
  unfolding attempt
  Triple-attempt_tx m h = record { at = λ w p. tried w.db p (m w) (h.at w p) }
    where
      tried :
          (old : S) → old ≡ d0 → (r : Result A × Tx S) → Settled Q E old r → Tried Q E d0 r.0 r.1.db
      tried old p (ok a, w) s = s
      tried old p (err e, w) s = (s.0, s.1 ∙ p)
