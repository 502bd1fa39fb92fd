-- ===== src/Config/Parse.antt =====
-- What internal/config/config.go reads of a setting: `strconv.Atoi` for the 64 bits of an int,
-- `strconv.ParseBool`, and the conversion to int32.
use study_ticket_reservation.Base.{
  ℕ, ◌+◌, ◌-◌, ◌*◌, ◌%◌, Bool, true, false, ◌&&◌, Option, none, some, [], ◌∷◌, any, ltb, leb, ◌==◌,
  if◌then◌else◌,
}
use study_ticket_reservation.Base.Int.{ℤ, pos, negsuc}
use study_ticket_reservation.Base.Text.{Text, text, text_eq}

abbrev is_digit : ℕ → Bool
is_digit c = leb b'0' c && leb c b'9'

-- The digits after those that make `value`.
unfoldable digits_from : (value : ℕ) → Text → Option ℕ
digits_from value [] = some value
digits_from value (c ∷ cs) =
    let rest = digits_from (value * 10 + (c - b'0')) cs in if is_digit c then rest else none

-- At least one digit.
unfoldable pub digits_value : Text → Option ℕ
unfolding digits_from
digits_value [] = none
digits_value (c ∷ cs) = digits_from 0 (c ∷ cs)

-- The largest int is 2 ^ 63 - 1, and the smallest -2 ^ 63.
abbrev pub in_int : Option ℕ → Option ℤ
in_int none = none
in_int (some n) = if ltb n 0x8000000000000000 then some (pos n) else none

abbrev pub minus_in_int : Option ℕ → Option ℤ
minus_in_int none = none
minus_in_int (some n) =
    if n == 0
    then some (pos 0)
    else if leb n 0x8000000000000000
    then some (negsuc (n - 1))
    else none

unfoldable pub atoi : Text → Option ℤ
unfolding digits_value
atoi [] = none
atoi (c ∷ cs) =
    if c == b'-'
    then minus_in_int (digits_value cs)
    else if c == b'+'
    then in_int (digits_value cs)
    else in_int (digits_value (c ∷ cs))

unfoldable pub parse_bool : Text → Option Bool
parse_bool s =
    if any (text_eq s)
      (text "1" ∷ text "t" ∷ text "T" ∷ text "true" ∷ text "TRUE" ∷ text "True" ∷ [])
    then some true
    else if any (text_eq s)
        (text "0" ∷ text "f" ∷ text "F" ∷ text "false" ∷ text "FALSE" ∷ text "False" ∷ [])
    then some false
    else none

-- `int32(n)`: the low 32 bits, in two's complement.
unfoldable pub int32 : ℤ → ℤ
int32 (pos n) =
    let low = n % 0x100000000 in
    if ltb low 0x80000000 then pos low else negsuc (0x100000000 - low - 1)
int32 (negsuc n) =
    let low = n % 0x100000000 in
    if ltb low 0x80000000 then negsuc low else pos (0x100000000 - low - 1)
