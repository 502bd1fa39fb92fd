-- ===== src/Expiry/Oldest.antt =====
-- ORDER BY expires_at puts the reservations that ran out before a time before the others, so that a
-- LIMIT takes them first (internal/sqlc/reservations.sql.go).
use study_ticket_reservation.Base.{
  ℕ, zero, suc, ◌≤◌, ◌≡◌, refl, ap, ◌∙◌, Bool, true, false, List, [], ◌∷◌, take, ltb, select,
  insert_by, sort_by, All, All-sort_by, ◌⊎◌, inl, inr, Bool-cases, arith,
}
use study_ticket_reservation.Db.Types.{time_lt}
use study_ticket_reservation.Sqlc.Models.{Reservation}
use study_ticket_reservation.Sqlc.Reservations.Headers.{is_overdue, expiry_le}
use study_ticket_reservation.Reservations.Service.{timestamp}
use study_ticket_reservation.Expiry.Counting.{count_overdue}

module _ (now later : ℕ) (after : now ≤ later) where
  abbrev early : Reservation → Bool
  early = is_overdue (timestamp now)

  abbrev count : List Reservation → ℕ
  count = count_overdue (timestamp now)

  abbrev Candidate : Reservation → Type 0
  Candidate r = is_overdue (timestamp later) r ≡ true

  early-Candidate : (r : Reservation) → early r ≡ true → Candidate r
  unfolding time_lt
  early-Candidate r e = ground (arith, after)

  -- A candidate up to an early one is early.
  early_up_to :
      (x y : Reservation)
      → Candidate x
      → Candidate y
      → ltb y.expires_at.time x.expires_at.time ≡ false
      → early y ≡ true
      → early x ≡ true
  unfolding time_lt
  early_up_to x y cx cy le e = ground arith

  -- The early rows come first.
  abbrev Fronted : List Reservation → Type 0
  Fronted [] = Unit
  Fronted (x ∷ xs) = (early x ≡ false → count xs ≡ 0) × Fronted xs

  count-insert_by :
      (x : Reservation) (ys : List Reservation) → count (insert_by expiry_le x ys) ≡ count (x ∷ ys)
  count-insert_by x [] = refl
  count-insert_by x (y ∷ ys) = ground (arith, count-insert_by x ys)

  count-sort_by : (xs : List Reservation) → count (sort_by expiry_le xs) ≡ count xs
  count-sort_by [] = refl
  count-sort_by (x ∷ xs) =
      count-insert_by x (sort_by expiry_le xs) ∙ ground (arith, count-sort_by xs)

  count-select :
      (rs : List Reservation) → count (select (is_overdue (timestamp later)) rs) ≡ count rs
  count-select [] = refl
  count-select (r ∷ rs) = elim (Bool-cases (is_overdue (timestamp later) r)) [
    | inl out ↦ rw out (ground (arith, count-select rs))
    | inr in_time ↦ rw in_time (ground (arith, count-select rs, early-Candidate r))
  ]

  Fronted-insert_by :
      (x : Reservation) (ys : List Reservation)
      → Candidate x
      → All Candidate ys
      → Fronted ys
      → Fronted (insert_by expiry_le x ys)
  Fronted-insert_by x [] cx cs f = (λ e. refl, tt)
  Fronted-insert_by x (y ∷ ys) cx cs f = elim (Bool-cases (expiry_le x y)) [
    | inl first ↦
        rw first
          (λ e. let late = early_up_to x y cx cs.0 (ground arith) in ground (arith, f.0, late), f)
    | inr behind ↦ rw behind (
      λ e.
          let late = early_up_to y x cs.0 cx (ground arith) in
          count-insert_by x ys ∙ ground (arith, f.0, late),
      Fronted-insert_by x ys cx cs.1 f.1,
    )
  ]

  Fronted-sort_by : (xs : List Reservation) → All Candidate xs → Fronted (sort_by expiry_le xs)
  Fronted-sort_by [] cs = tt
  Fronted-sort_by (x ∷ xs) cs =
      Fronted-insert_by x (sort_by expiry_le xs) cs.0 (All-sort_by Candidate expiry_le xs cs.1)
        (Fronted-sort_by xs cs.1)

  count-take-le : (n : ℕ) (xs : List Reservation) → count (take n xs) ≤ count xs
  count-take-le zero xs = omega arith
  count-take-le (suc n) [] = omega arith
  count-take-le (suc n) (x ∷ xs) = ground (arith, count-take-le n xs)

  -- A prefix has as many of them as it may, or all.
  count-take :
      (n : ℕ) (xs : List Reservation)
      → Fronted xs
      → (count (take n xs) ≡ n) ⊎ (count (take n xs) ≡ count xs)
  count-take zero xs f = inl refl
  count-take (suc n) [] f = inr refl
  count-take (suc n) (x ∷ xs) f = elim (Bool-cases (early x)) [
    | inl e ↦ rw e (elim (count-take n xs f.1) [ inl h ↦ inl (ap suc h) | inr h ↦ inr (ap suc h) ])
    | inr e ↦
        let none = f.0 e in
        let least = count-take-le n xs in rw e (inr (omega (arith, none, least)))
  ]

  select-Candidate :
      (rs : List Reservation) → All Candidate (select (is_overdue (timestamp later)) rs)
  select-Candidate [] = tt
  select-Candidate (r ∷ rs) = elim (Bool-cases (is_overdue (timestamp later) r)) [
    | inl out ↦ rw out (out, select-Candidate rs)
    | inr in_time ↦ rw in_time (select-Candidate rs)
  ]

  -- Of the rows that ran out before `now`, a batch at a later time has as many as it may, or all.
  pub count_oldest :
      (limit : ℕ) (rs : List Reservation)
      → (count (take limit (sort_by expiry_le (select (is_overdue (timestamp later)) rs))) ≡ limit)
        ⊎ (count (take limit (sort_by expiry_le (select (is_overdue (timestamp later)) rs)))
            ≡ count rs)
  count_oldest limit rs =
      rw (← count-select rs, ← count-sort_by (select (is_overdue (timestamp later)) rs))
        (count-take limit (sort_by expiry_le (select (is_overdue (timestamp later)) rs))
          (Fronted-sort_by (select (is_overdue (timestamp later)) rs) (select-Candidate rs)))
