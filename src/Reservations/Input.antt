-- ===== src/Reservations/Input.antt =====
-- The checks of a request before its transaction: parseQuantityInput, parseSeatInput and sameUUIDSet
-- of internal/modules/reservations/service.go.
use study_ticket_reservation.Base.{
  Bool, true, false, not, ◌&&◌, ◌||◌, Option, List, [], ◌∷◌, map, length, any, sort_by, ◌==◌,
  if◌then◌else◌,
}
use study_ticket_reservation.Base.Int.{pos, leb_ℤ}
use study_ticket_reservation.Base.Text.{Text, text_eq, text_lt, trim_space}
use study_ticket_reservation.Db.Types.{Uuid, uuid_to_string}
use study_ticket_reservation.Db.Tx.{
  Error, invalid_quantity_reservation, invalid_seat_reservation, Result, ok, err,
}
use study_ticket_reservation.Db.Parse.{parse_uuid}
use study_ticket_reservation.Reservations.Dto.{QuantityReservationRequest, SeatReservationRequest}

-- Chains of checks that return early.
module _ {A B : Type 0} where
  infixl 5 ◌>>=◌
  abbrev pub ◌>>=◌ : Result A → (A → Result B) → Result B
  ok a >>= f = f a
  err e >>= f = err e

module _ {A : Type 0} where
  -- `if err != nil { return other }`.
  abbrev pub or_else : Result A → Error → Result A
  or_else (ok a) _ = ok a
  or_else (err _) other = err other

-- `strings.TrimSpace(s) == ""`.
abbrev pub is_blank : Text → Bool
is_blank s = text_eq (trim_space s) []

-- `sort.Slice` by the printed form.
abbrev pub printed_le : Uuid → Uuid → Bool
printed_le a b = not (text_lt (uuid_to_string b) (uuid_to_string a))

module _ (scan : Text → Option Uuid) where
  unfoldable pub parse_quantity_input : QuantityReservationRequest → Result (Uuid × Uuid)
  unfolding parse_uuid
  parse_quantity_input input =
      if leb_ℤ input.quantity (pos 0) || is_blank input.idempotency_key
      then err invalid_quantity_reservation
      else do
        event_id ← or_else (parse_uuid scan input.event_id) invalid_quantity_reservation
        ticket_type_id ← or_else (parse_uuid scan input.ticket_type_id) invalid_quantity_reservation
        ok (event_id, ticket_type_id)

  -- The loop of parseSeatInput; `seen` holds the keys of the ids parsed so far.
  unfoldable pub parse_seat_ids : (seen raw : List Text) → Result (List Uuid)
  unfolding parse_uuid uuid_to_string
  parse_seat_ids seen [] = ok []
  parse_seat_ids seen (raw ∷ rest) = do
    seat_id ← or_else (parse_uuid scan (trim_space raw)) invalid_seat_reservation
    let key = uuid_to_string seat_id
    if any (text_eq key) seen
        then err invalid_seat_reservation
        else do ids ← parse_seat_ids (key ∷ seen) rest; ok (seat_id ∷ ids)

  unfoldable pub parse_seat_input : SeatReservationRequest → Result (Uuid × List Uuid)
  unfolding parse_uuid parse_seat_ids
  parse_seat_input input =
      if is_blank input.idempotency_key || length input.seat_ids == 0
      then err invalid_seat_reservation
      else do
        event_id ← or_else (parse_uuid scan input.event_id) invalid_seat_reservation
        seat_ids ← parse_seat_ids [] input.seat_ids
        ok (event_id, sort_by printed_le seat_ids)

-- Every key of `right` is among `keys`.
unfoldable pub keys_present : List Text → List Uuid → Bool
unfolding uuid_to_string
keys_present keys [] = true
keys_present keys (id ∷ ids) = any (text_eq (uuid_to_string id)) keys && keys_present keys ids

unfoldable pub same_uuid_set : List Uuid → List Uuid → Bool
unfolding keys_present uuid_to_string
same_uuid_set left right =
    if not (length left == length right)
    then false
    else keys_present (map uuid_to_string left) right
