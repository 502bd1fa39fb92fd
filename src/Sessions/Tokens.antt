-- ===== src/Sessions/Tokens.antt =====
-- GenerateToken and HashToken (internal/modules/sessions/service.go). `base64.RawURLEncoding` writes
-- three bytes as four characters, and has no padding.
use study_ticket_reservation.Base.{
  ℕ, ◌+◌, ◌-◌, ◌*◌, ◌/◌, ◌%◌, Option, none, some, List, [], ◌∷◌, ltb, ◌==◌, if◌then◌else◌,
}
use study_ticket_reservation.Base.Text.{Text}
use study_ticket_reservation.Db.Types.{hex}
use study_ticket_reservation.Db.Tx.{failure, Result, ok, err}

-- The character of six bits.
unfoldable pub base64_char : ℕ → ℕ
base64_char n =
    if ltb n 26
    then b'A' + n
    else if ltb n 52
    then b'a' + (n - 26)
    else if ltb n 62
    then b'0' + (n - 52)
    else if n == 62
    then b'-'
    else b'_'

unfoldable pub encode_base64 : List ℕ → Text
encode_base64 [] = []
encode_base64 (a ∷ []) = base64_char (a / 4) ∷ base64_char (a % 4 * 16) ∷ []
encode_base64 (a ∷ b ∷ []) =
    base64_char (a / 4) ∷ base64_char (a % 4 * 16 + b / 16) ∷ base64_char (b % 16 * 4) ∷ []
encode_base64 (a ∷ b ∷ c ∷ bytes) =
    base64_char (a / 4)
    ∷ base64_char (a % 4 * 16 + b / 16)
    ∷ base64_char (b % 16 * 4 + c / 64)
    ∷ base64_char (c % 64)
    ∷ encode_base64 bytes

-- `random` is what `rand.Read` makes of 32 bytes: the bytes, or none if it fails.
unfoldable pub generate_token : (random : Option (List ℕ)) → Result Text
unfolding encode_base64 base64_char
generate_token (some bytes) = ok (encode_base64 bytes)
generate_token none = err failure

-- `sha256` is the digest, which is not part of the program.
unfoldable pub hash_token : (sha256 : Text → List ℕ) → Text → Text
unfolding hex
hash_token sha256 token = hex (sha256 token)
