-- ===== src/Inventory/Listing.antt =====
-- The rows of a reservation in the order of a query (internal/sqlc/reservations.sql.go).
use study_ticket_reservation.Base.{
  ◌≡◌, refl, Bool, true, false, not, ◌&&◌, ◌||◌, List, map, sort_by, arith,
}
use mathlib.Core.List.{Perm}
use study_ticket_reservation.Base.Order.{
  IsUpTo, IsUpTo-of_text_lt, text_lt_of_IsUpTo, text_lt_asymm, Ascends, Ascends-sort_by,
  Perm-sort_by,
}
use study_ticket_reservation.Db.Types.{Uuid, uuid_le}

-- Up to in one column, and up to in the id where the columns are the same.
abbrev pub IsSortedBy : {A : Type 0} → (A → Uuid) → (A → Uuid) → A → A → Type 0
IsSortedBy column id a b =
    IsUpTo (column a).bytes (column b).bytes
    × (IsUpTo (column b).bytes (column a).bytes → IsUpTo (id a).bytes (id b).bytes)

module _ {A : Type 0} (column id : A → Uuid) where
  abbrev column_le : A → A → Bool
  column_le a b =
      not (uuid_le (column b) (column a))
      || (uuid_le (column a) (column b) && uuid_le (id a) (id b))

  column_le-total : (a b : A) → column_le a b ≡ false → column_le b a ≡ true
  unfolding uuid_le
  column_le-total a b h = ground (
    arith,
    text_lt_asymm (column a).bytes (column b).bytes,
    text_lt_asymm (column b).bytes (column a).bytes,
    text_lt_asymm (id a).bytes (id b).bytes,
    text_lt_asymm (id b).bytes (id a).bytes,
  )

  IsSortedBy-of_le : (a b : A) → column_le a b ≡ true → IsSortedBy column id a b
  unfolding uuid_le
  IsSortedBy-of_le a b h = (
    IsUpTo-of_text_lt (column a).bytes (column b).bytes
        (ground (arith, text_lt_asymm (column a).bytes (column b).bytes)),
    λ back.
        let same = text_lt_of_IsUpTo (column b).bytes (column a).bytes back in
        IsUpTo-of_text_lt (id a).bytes (id b).bytes (ground arith),
  )

-- The texts that a response shows for the rows of a reservation: `rows` are those of the table, each once,
-- in the order of a column and the id.
pub record Listed {A B : Type 0} (column id : A → Uuid) (show : A → B) (table : List A)
    (shown : List B) : Type 0 where
  pub rows : List A
  pub all : Perm rows table
  pub sorted : Ascends (IsSortedBy column id) rows
  pub written : shown ≡ map show rows

pub Listed-sort_by :
    {A B : Type 0} (column id : A → Uuid) (show : A → B) (table : List A)
    → Listed column id show table (map show (sort_by (column_le column id) table))
Listed-sort_by column id show table = record {
  rows = sort_by (column_le column id) table;
  all = Perm-sort_by (column_le column id) table;
  sorted =
      Ascends-sort_by (column_le column id) (column_le-total column id) (IsSortedBy column id)
        (IsSortedBy-of_le column id) table;
  written = refl;
}
