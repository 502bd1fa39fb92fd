-- ===== src/Db/Equality.antt =====
-- The equality of uuid columns decides equality of values that are not NULL.
use study_ticket_reservation.Base.{◌≡◌, sym, ◌∙◌, inl, inr, Bool-cases, true, arith}
use study_ticket_reservation.Base.Text.{text_eq_refl, eq_of_text_eq}
use study_ticket_reservation.Db.Types.{Uuid, same_uuid}

pub eq_of_same_uuid : (a b : Uuid) → same_uuid a b ≡ true → a ≡ b
unfolding same_uuid
eq_of_same_uuid a b h = ground (arith, eq_of_text_eq a.bytes b.bytes)

pub same_uuid_refl : (a : Uuid) → a.valid ≡ true → same_uuid a a ≡ true
unfolding same_uuid
same_uuid_refl a h = ground (arith, text_eq_refl a.bytes)

pub valid_of_same_uuid : (a b : Uuid) → same_uuid a b ≡ true → (a.valid ≡ true) × (b.valid ≡ true)
unfolding same_uuid
valid_of_same_uuid a b h = ground arith

pub same_uuid_symm : (a b : Uuid) → same_uuid a b ≡ true → same_uuid b a ≡ true
same_uuid_symm a b h = cc (eq_of_same_uuid a b h, same_uuid_refl a (valid_of_same_uuid a b h).0)

pub same_uuid_comm : (a b : Uuid) → same_uuid a b ≡ same_uuid b a
same_uuid_comm a b = elim (Bool-cases (same_uuid a b)) [
  | inl same ↦ same ∙ sym (same_uuid_symm a b same)
  | inr other ↦ elim (Bool-cases (same_uuid b a)) [
    | inl same ↦ cc (same_uuid_symm b a same)
    | inr too ↦ other ∙ sym too
  ]
]
