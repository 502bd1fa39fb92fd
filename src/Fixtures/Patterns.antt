-- ===== src/Fixtures/Patterns.antt =====
-- What the pattern of Reset matches (internal/modules/stressadmin/service.go): an underscore stands for
-- any character in LIKE, and the reserved prefix has five of them.
use study_ticket_reservation.Base.{
  ℕ, ◌≡◌, refl, Bool, true, List, [], ◌∷◌, ◌++◌, any, select, map, sort_by, insert_by, All, ◌∙◌,
  arith, inl, inr, Bool-cases,
}
use study_ticket_reservation.Base.Text.{Text, text}
use study_ticket_reservation.Db.Types.{Uuid, same_uuid, uuid_le}
use study_ticket_reservation.Db.Equality.{same_uuid_refl}
use study_ticket_reservation.Sqlc.Models.{Event}
use study_ticket_reservation.Sqlc.Database.{Database, any_id}
use study_ticket_reservation.Sqlc.StressAdmin.{like, like_from, stress_event_ids}
use study_ticket_reservation.Inventory.Tables.{All-mono}
use study_ticket_reservation.StressAdmin.Service.{stress_event_prefix}

abbrev pub stress_pattern : Text
stress_pattern = stress_event_prefix ++ (b'%' ∷ [])

-- The reserved prefix with any characters in place of its underscores, and any text after it.
abbrev pub lookalike : (a b c d e : ℕ) (rest : Text) → Text
lookalike a b c d e rest = a ∷ b ∷ (text "stress" ++ (c ∷ (text "seed" ++ (d ∷ e ∷ b':' ∷ rest))))

module _ {A : Type 0} (test : A → Bool) where
  any-append_right : (xs ys : List A) → any test ys ≡ true → any test (xs ++ ys) ≡ true
  any-append_right [] ys h = h
  any-append_right (x ∷ xs) ys h = ground (arith, any-append_right xs ys h)

any-rest : (rest : Text) → like (b'%' ∷ []) rest ≡ true
unfolding like_from
any-rest [] = refl
any-rest (x ∷ rest) = any-rest rest

pub like-lookalike :
    (a b c d e : ℕ) (rest : Text) → like stress_pattern (lookalike a b c d e rest) ≡ true
unfolding like_from
like-lookalike a b c d e rest = any-rest rest

any-insert_by :
    (test : Uuid → Bool) (x : Uuid) (ys : List Uuid)
    → any test (insert_by uuid_le x ys) ≡ any test (x ∷ ys)
any-insert_by test x [] = refl
any-insert_by test x (y ∷ ys) = ground (arith, any-insert_by test x ys)

any-sort_by : (test : Uuid → Bool) (xs : List Uuid) → any test (sort_by uuid_le xs) ≡ any test xs
any-sort_by test [] = refl
any-sort_by test (x ∷ xs) =
    ground (arith, any-insert_by test x (sort_by uuid_le xs), any-sort_by test xs)

abbrev matching : Text → List Event → List Uuid
matching pattern es = map (λ e. e.id) (select (λ e. like pattern e.name) es)

abbrev IsFound : Text → List Uuid → Event → Type 0
IsFound pattern ids e = like pattern e.name ≡ true → any_id e.id ids ≡ true

matching-IsFound :
    (pattern : Text) (es : List Event)
    → All (λ e. e.id.valid ≡ true) es
    → All (IsFound pattern (matching pattern es)) es
matching-IsFound pattern [] h = tt
matching-IsFound pattern (e ∷ es) h = (
  λ hit. rw hit (rw (same_uuid_refl e.id h.0) refl),
  All-mono _ _ es
      (λ x found hit. elim (Bool-cases (like pattern e.name)) [
        | inl too ↦ rw too (ground (arith, found hit))
        | inr other ↦ rw other (found hit)
      ])
      (matching-IsFound pattern es h.1),
)

-- The ids that Reset deletes hold every event whose name matches.
pub stress_event_ids-found :
    (pattern : Text) (d : Database)
    → All (λ e. e.id.valid ≡ true) d.events
    → All
        (λ e. like pattern e.name ≡ true → any_id e.id (stress_event_ids pattern d) ≡ true)
        d.events
unfolding stress_event_ids
stress_event_ids-found pattern d h =
    All-mono _ _ d.events
      (λ e found hit. any-sort_by (same_uuid e.id) (matching pattern d.events) ∙ found hit)
      (matching-IsFound pattern d.events h)
