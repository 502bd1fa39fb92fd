-- ===== src/Db/Types.antt =====
-- internal/db/types.go, and the pgtype values that it converts. A time is a number of microseconds
-- since Go's zero time, so that `time.Time{}` is 0.
use study_ticket_reservation.Base.{
  ℕ, ◌+◌, ◌/◌, ◌%◌, Bool, false, not, ◌&&◌, Option, none, some, List, [], ◌∷◌, ◌++◌, ltb, leb, take,
  drop, if◌then◌else◌,
}
use study_ticket_reservation.Base.Text.{Text, text_eq, text_lt}

-- `pgtype.UUID`: the sixteen bytes, and whether the value is not NULL.
pub record Uuid : Type 0 where
  pub bytes : List ℕ
  pub valid : Bool

pub record Timestamptz : Type 0 where
  pub time : ℕ
  pub valid : Bool

abbrev pub null_uuid : Uuid
null_uuid = record { bytes = []; valid = false }

-- `a = b` between uuid columns holds if neither is NULL and the bytes agree. The service's
-- `sameUUID` is the same test.
unfoldable pub same_uuid : Uuid → Uuid → Bool
same_uuid left right = left.valid && right.valid && text_eq left.bytes right.bytes

-- ORDER BY on uuid columns: by the bytes.
unfoldable pub uuid_le : Uuid → Uuid → Bool
uuid_le a b = not (text_lt b.bytes a.bytes)

-- `a <= b` and `a < b` between timestamptz values.
unfoldable pub time_le : Timestamptz → Timestamptz → Bool
time_le a b = a.valid && b.valid && leb a.time b.time

unfoldable pub time_lt : Timestamptz → Timestamptz → Bool
time_lt a b = a.valid && b.valid && ltb a.time b.time

hex_digit : ℕ → ℕ
hex_digit d = if ltb d 10 then b'0' + d else 87 + d

hex_byte : ℕ → Text
unfolding hex_digit
hex_byte b = hex_digit (b / 16) ∷ hex_digit (b % 16) ∷ []

-- `%x` of a slice of bytes.
unfoldable pub hex : Text → Text
unfolding hex_byte
hex [] = []
hex (b ∷ bs) = hex_byte b ++ hex bs

-- `bytes[low:high]`, for low + count = high.
abbrev slice : ℕ → ℕ → List ℕ → List ℕ
slice low count bytes = take count (drop low bytes)

unfoldable pub uuid_to_string : Uuid → Text
unfolding hex
uuid_to_string id =
    if id.valid
    then hex (slice 0 4 id.bytes)
      ++ (b'-' ∷ hex (slice 4 2 id.bytes))
      ++ (b'-' ∷ hex (slice 6 2 id.bytes))
      ++ (b'-' ∷ hex (slice 8 2 id.bytes))
      ++ (b'-' ∷ hex (slice 10 6 id.bytes))
    else []

unfoldable pub optional_uuid_to_string : Uuid → Option Text
unfolding uuid_to_string
optional_uuid_to_string id = if id.valid then some (uuid_to_string id) else none

unfoldable pub timestamptz_to_time : Timestamptz → ℕ
timestamptz_to_time value = if value.valid then value.time else 0
