-- ===== src/Consistency/Duplicates.antt =====
-- GROUP BY seat_id HAVING COUNT(*) > 1 (internal/sqlc/stress_admin.sql.go) finds a seat exactly if some
-- seat has two active rows.
use study_ticket_reservation.Base.{
  ◌<◌, ◌≤◌, ◌≡◌, refl, ap, ◌∙◌, ◌⊎◌, Bool, true, false, not, ◌&&◌, List, [], ◌∷◌, map, any, select,
  ltb, arith, inl, inr, Bool-cases,
}
use study_ticket_reservation.Db.Types.{Uuid, same_uuid, uuid_le}
use study_ticket_reservation.Db.Equality.{eq_of_same_uuid, same_uuid_refl, valid_of_same_uuid}
use study_ticket_reservation.Sqlc.Models.{ReservationSeat}
use study_ticket_reservation.Sqlc.Database.{
  Database, any_id, is_active, holds_seat, active_seats_unique,
}
use study_ticket_reservation.Sqlc.Reservations.Holds.{distinct}
use study_ticket_reservation.Sqlc.Consistency.{count_active, duplicate_seats}
use study_ticket_reservation.StressAdmin.Service.{none_found}
use study_ticket_reservation.Consistency.Rows.{none_found-rows}

module _ (test : Uuid → Bool) where
  any_among :
      (id : Uuid) (ids : List Uuid) → any_id id ids ≡ true → test id ≡ true → any test ids ≡ true
  any_among id [] h t = cc
  any_among id (x ∷ ids) h t = elim (Bool-cases (same_uuid id x)) [
    | inl same ↦ rw (← eq_of_same_uuid id x same, t) refl
    | inr other ↦
        let later : any test ids ≡ true = any_among id ids (rw other at h) t in ground arith
  ]

  -- SELECT DISTINCT loses no id.
  any-distinct : (ids : List Uuid) → any test (distinct ids) ≡ any test ids
  unfolding distinct
  any-distinct [] = refl
  any-distinct (id ∷ ids) = elim (Bool-cases (any_id id (distinct ids))) [
    | inr new ↦ rw (new, any-distinct ids) refl
    | inl again ↦ rw again (elim (Bool-cases (test id)) [
      | inl hit ↦ rw (hit, any_among id (distinct ids) again hit) refl
      | inr miss ↦ rw (miss, any-distinct ids) refl
    ])
  ]

no_holder :
    (id : Uuid) (rows : List ReservationSeat)
    → any (holds_seat id) rows ≡ false
    → count_active rows id ≡ 0
no_holder id [] h = refl
no_holder id (row ∷ rows) h = ground (arith, no_holder id rows)

some_holder :
    (id : Uuid) (rows : List ReservationSeat)
    → any (holds_seat id) rows ≡ true
    → (0 < count_active rows id) × (same_uuid id id ≡ true)
some_holder id [] h = cc
some_holder id (row ∷ rows) h = elim (Bool-cases (holds_seat id row)) [
  | inl hit ↦ (ground arith, same_uuid_refl id (valid_of_same_uuid row.seat_id id (ground arith)).1)
  | inr miss ↦ let later = some_holder id rows (ground arith) in (ground arith, later.1)
]

-- With one active row at most for each seat, the count is one at most.
count_unique :
    (rows : List ReservationSeat) (id : Uuid)
    → active_seats_unique rows ≡ true
    → count_active rows id ≤ 1
unfolding active_seats_unique
count_unique [] id h = omega arith
count_unique (row ∷ rows) id h = elim (Bool-cases (holds_seat id row)) [
  | inl hit ↦
      let same : row.seat_id ≡ id = eq_of_same_uuid row.seat_id id (ground arith) in
      let free : any (holds_seat id) rows ≡ false = rw (← same) (ground arith) in
      ground (arith, no_holder id rows free)
  | inr miss ↦ ground (arith, count_unique rows id)
]

abbrev active_ids : List ReservationSeat → List Uuid
active_ids rows = map (λ row. row.seat_id) (select (λ row. is_active row.status) rows)

module _ (all : List ReservationSeat) where
  abbrev crowded : Uuid → Bool
  crowded id = ltb 1 (count_active all id)

  never_crowded : active_seats_unique all ≡ true → (ids : List Uuid) → any crowded ids ≡ false
  never_crowded h [] = refl
  never_crowded h (id ∷ ids) = ground (arith, count_unique all id h, never_crowded h ids)

  somewhere_crowded :
      (rows : List ReservationSeat)
      → ((id : Uuid) → count_active rows id ≤ count_active all id)
      → active_seats_unique rows ≡ false
      → any crowded (active_ids rows) ≡ true
  unfolding active_seats_unique
  somewhere_crowded [] le h = cc
  somewhere_crowded (row ∷ rows) le h =
      elim (Bool-cases (is_active row.status && any (holds_seat row.seat_id) rows)) [
        | inl twice ↦
            let more = some_holder row.seat_id rows (ground arith) in
            let least : 1 < count_active (row ∷ rows) row.seat_id = ground arith in
            ground (arith, le row.seat_id)
        | inr once ↦
            let later : any crowded (active_ids rows) ≡ true =
              somewhere_crowded rows (λ id. ground (arith, le id)) (ground arith) in
            ground arith
      ]

-- No duplicates are listed exactly if the unique index holds.
pub none_found-duplicates :
    (d : Database) → none_found (duplicate_seats d) ≡ active_seats_unique d.reservation_seats
unfolding duplicate_seats
none_found-duplicates d =
    none_found-rows _ uuid_le (crowded d.reservation_seats) (distinct (active_ids rows))
    ∙ ap not (any-distinct (crowded rows) (active_ids rows))
    ∙ by_case (Bool-cases (active_seats_unique rows))
  where
    rows : List ReservationSeat
    rows = d.reservation_seats

    by_case :
        (active_seats_unique rows ≡ true) ⊎ (active_seats_unique rows ≡ false)
        → not (any (crowded rows) (active_ids rows)) ≡ active_seats_unique rows
    by_case (inl h) = rw (h, never_crowded rows h (active_ids rows)) refl
    by_case (inr h) = rw (h, somewhere_crowded rows rows (λ id. omega arith) h) refl
