-- ===== src/Expiry/Counting.antt =====
-- How many reservations a batch takes from those that have run out
-- (internal/modules/reservations/service.go).
use study_ticket_reservation.Base.{
  ℕ, ◌+◌, ◌≤◌, ◌<◌, ◌≡◌, refl, ◌∙◌, Bool, true, false, ◌&&◌, List, [], ◌∷◌, map, length, any,
  select, All, inl, inr, Bool-cases, arith,
}
use study_ticket_reservation.Db.Types.{Uuid, Timestamptz, same_uuid}
use study_ticket_reservation.Db.Equality.{eq_of_same_uuid}
use study_ticket_reservation.Sqlc.Models.{Reservation, expired, status_eq}
use study_ticket_reservation.Sqlc.Reservations.Headers.{is_overdue, set_status}
use study_ticket_reservation.Inventory.Counters.{Distinct}
use study_ticket_reservation.Inventory.Headers.{retitled}
use study_ticket_reservation.Inventory.Batch.{all_expired}

-- The reservations that are reserved and whose deadline has passed.
abbrev pub count_overdue : Timestamptz → List Reservation → ℕ
count_overdue now rs = length (select (is_overdue now) rs)

module _ (now at : Timestamptz) where
  -- A row with this id that has run out.
  abbrev has_overdue : Uuid → List Reservation → Bool
  has_overdue id = any (λ h. same_uuid h.id id && is_overdue now h)

  not_overdue : (h : Reservation) → is_overdue now (set_status at expired h) ≡ false
  unfolding status_eq
  not_overdue h = refl

  count_retitled-le :
      (id : Uuid) (hs : List Reservation)
      → count_overdue now (retitled at id expired hs) ≤ count_overdue now hs
  count_retitled-le id [] = omega arith
  count_retitled-le id (h ∷ hs) = ground (arith, not_overdue h, count_retitled-le id hs)

  -- Expiring a row that has run out leaves one less.
  count_retitled-lt :
      (id : Uuid) (hs : List Reservation)
      → has_overdue id hs ≡ true
      → count_overdue now (retitled at id expired hs) < count_overdue now hs
  count_retitled-lt id [] e = cc
  count_retitled-lt id (h ∷ hs) e = elim (Bool-cases (same_uuid h.id id && is_overdue now h)) [
    | inl hit ↦ ground (arith, not_overdue h, count_retitled-le id hs)
    | inr miss ↦ ground (arith, not_overdue h, count_retitled-lt id hs)
  ]

  -- It leaves the rows of other ids.
  has_overdue-retitled :
      (id other : Uuid) (hs : List Reservation)
      → same_uuid id other ≡ false
      → has_overdue other (retitled at id expired hs) ≡ has_overdue other hs
  has_overdue-retitled id other [] n = refl
  has_overdue-retitled id other (h ∷ hs) n = elim (Bool-cases (same_uuid h.id id)) [
    | inl hit ↦
        let differ : same_uuid h.id other ≡ false = rw (eq_of_same_uuid h.id id hit) n in
        rw (hit, differ, has_overdue-retitled id other hs n) refl
    | inr miss ↦ rw (miss, has_overdue-retitled id other hs n) refl
  ]

  -- A row that has run out, if it has, is there.
  abbrev pub IsThere : List Reservation → Reservation → Type 0
  IsThere hs r = is_overdue now r ≡ true → has_overdue r.id hs ≡ true

  still :
      (id : Uuid) (rows hs : List Reservation)
      → any (same_uuid id) (map (λ r. r.id) rows) ≡ false
      → All (IsThere hs) rows
      → All (IsThere (retitled at id expired hs)) rows
  still id [] hs n h = tt
  still id (r ∷ rows) hs n h = (
    λ o. has_overdue-retitled id r.id hs (ground arith) ∙ h.0 o,
    still id rows hs (ground arith) h.1,
  )

  -- Each row of a batch that has run out is one less.
  pub count_all_expired :
      (rows hs : List Reservation)
      → Distinct (map (λ r. r.id) rows)
      → All (IsThere hs) rows
      → count_overdue now (all_expired at rows hs) + count_overdue now rows ≤ count_overdue now hs
  count_all_expired [] hs apart h = omega arith
  count_all_expired (r ∷ rows) hs apart h =
      let rest =
        count_all_expired rows (retitled at r.id expired hs) apart.1
          (still r.id rows hs apart.0 h.1) in
      elim (Bool-cases (is_overdue now r)) [
        | inl out ↦
            let less = count_retitled-lt r.id hs (h.0 out) in rw out (omega (arith, rest, less))
        | inr in_time ↦
            let no_more = count_retitled-le r.id hs in rw in_time (omega (arith, rest, no_more))
      ]

module _ {A : Type 0} where
  pub select-all : (test : A → Bool) (xs : List A) → ((x : A) → test x ≡ true) → select test xs ≡ xs
  select-all test [] h = refl
  select-all test (x ∷ xs) h = rw (h x, select-all test xs h) refl
