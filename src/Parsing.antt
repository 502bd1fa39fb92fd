-- ===== src/Parsing.antt =====
-- What parseSeatInput hands over (internal/modules/reservations/service.go): the ids in the order of
-- their printed form, each once. The locks on the seats are taken for this list.
use study_ticket_reservation.Base.{
  suc, ◌⊎◌, ◌≡◌, refl, ap, ◌∙◌, true, false, ◌||◌, Option, none, some, List, [], ◌∷◌, map, any,
  length, insert_by, sort_by, ◌==◌, All, arith, inl, inr, Bool-cases,
}
use study_ticket_reservation.Base.Text.{Text, text_eq, text_eq_refl, trim_space}
use study_ticket_reservation.Base.Order.{
  IsUpTo, IsUpTo-of_text_lt, text_lt_asymm, Ascends, Ascends-sort_by,
}
use study_ticket_reservation.Db.Types.{Uuid, same_uuid, uuid_to_string}
use study_ticket_reservation.Db.Equality.{eq_of_same_uuid}
use study_ticket_reservation.Db.Tx.{invalid_seat_reservation, invalid_uuid, Result, ok, err}
use study_ticket_reservation.Db.Transactions.{IfOk}
use study_ticket_reservation.Db.Parse.{parse_uuid}
use study_ticket_reservation.Reservations.Dto.{SeatReservationRequest}
use study_ticket_reservation.Reservations.Input.{
  parse_seat_ids, parse_seat_input, printed_le, or_else, is_blank, ◌>>=◌,
}
use study_ticket_reservation.Inventory.Counters.{Distinct}
use study_ticket_reservation.Inventory.Distinct.{Distinct-sort_by}

printed_le-total : (a b : Uuid) → printed_le a b ≡ false → printed_le b a ≡ true
printed_le-total a b h = ground (arith, text_lt_asymm (uuid_to_string b) (uuid_to_string a))

-- One id prints up to the other, in the order of characters.
abbrev pub PrintsUpTo : Uuid → Uuid → Type 0
PrintsUpTo a b = IsUpTo (uuid_to_string a) (uuid_to_string b)

PrintsUpTo-of_printed_le : (a b : Uuid) → printed_le a b ≡ true → PrintsUpTo a b
PrintsUpTo-of_printed_le a b h =
    IsUpTo-of_text_lt (uuid_to_string a) (uuid_to_string b) (ground arith)

-- The id is one of these.
abbrev pub IsAmong : Uuid → List Uuid → Type 0
IsAmong id [] = ⊥
IsAmong id (x ∷ xs) = (id ≡ x) ⊎ IsAmong id xs

IsAmong-insert_by :
    (id x : Uuid) (ys : List Uuid)
    → (id ≡ x) ⊎ IsAmong id ys
    → IsAmong id (insert_by printed_le x ys)
IsAmong-insert_by id x [] h = h
IsAmong-insert_by id x (y ∷ ys) h = elim (Bool-cases (printed_le x y)) [
  | inl first ↦ rw first h
  | inr later ↦ rw later (behind (λ m. IsAmong-insert_by id x ys m) h)
]
  where
    behind :
        ((id ≡ x) ⊎ IsAmong id ys → IsAmong id (insert_by printed_le x ys))
        → (id ≡ x) ⊎ ((id ≡ y) ⊎ IsAmong id ys)
        → (id ≡ y) ⊎ IsAmong id (insert_by printed_le x ys)
    behind further (inl e) = inr (further (inl e))
    behind further (inr (inl e)) = inl e
    behind further (inr (inr m)) = inr (further (inr m))

IsAmong-sort_by :
    (id : Uuid) (ids : List Uuid) → IsAmong id ids → IsAmong id (sort_by printed_le ids)
IsAmong-sort_by id [] h = h
IsAmong-sort_by id (x ∷ ids) (inl e) = IsAmong-insert_by id x (sort_by printed_le ids) (inl e)
IsAmong-sort_by id (x ∷ ids) (inr m) =
    IsAmong-insert_by id x (sort_by printed_le ids) (inr (IsAmong-sort_by id ids m))

length-insert_by :
    (x : Uuid) (ys : List Uuid) → length (insert_by printed_le x ys) ≡ suc (length ys)
length-insert_by x [] = refl
length-insert_by x (y ∷ ys) = ground (arith, length-insert_by x ys)

length-sort_by : (ids : List Uuid) → length (sort_by printed_le ids) ≡ length ids
length-sort_by [] = refl
length-sort_by (id ∷ ids) =
    length-insert_by id (sort_by printed_le ids) ∙ ap suc (length-sort_by ids)

-- No id prints as one of `seen`.
abbrev IsUnseen : List Text → Uuid → Type 0
IsUnseen seen id = any (text_eq (uuid_to_string id)) seen ≡ false

-- An id is not among ids whose printed forms differ.
not_repeated :
    (id : Uuid) (seen : List Text) (ids : List Uuid)
    → All (IsUnseen (uuid_to_string id ∷ seen)) ids
    → any (same_uuid id) (map (λ x. x) ids) ≡ false
not_repeated id seen [] h = refl
not_repeated id seen (x ∷ ids) h = elim (Bool-cases (same_uuid id x)) [
  | inl same ↦
      let equal : id ≡ x = eq_of_same_uuid id x same in
      let printed = rw equal at h.0 in let again = text_eq_refl (uuid_to_string x) in ground arith
  | inr other ↦ rw (other, not_repeated id seen ids h.1) refl
]

IsUnseen-before :
    (key : Text) (seen : List Text) (ids : List Uuid)
    → All (IsUnseen (key ∷ seen)) ids
    → All (IsUnseen seen) ids
IsUnseen-before key seen [] h = tt
IsUnseen-before key seen (id ∷ ids) h = (ground arith, IsUnseen-before key seen ids h.1)

module _ (scan : Text → Option Uuid) where
  -- The trimmed text is read as one of the ids.
  abbrev pub IsNamed : List Uuid → Text → Type 0
  IsNamed ids raw = (id : Uuid) × (scan (trim_space raw) ≡ some id) × IsAmong id ids

  abbrev IsParsed : List Text → List Text → List Uuid → Type 0
  IsParsed seen raw ids =
      All (IsUnseen seen) ids
      × Distinct (map (λ x. x) ids)
      × (length ids ≡ length raw)
      × All (IsNamed ids) raw

  IsNamed-mono :
      (ids ids' : List Uuid) (raw : List Text)
      → ((id : Uuid) → IsAmong id ids → IsAmong id ids')
      → All (IsNamed ids) raw
      → All (IsNamed ids') raw
  IsNamed-mono ids ids' [] more h = tt
  IsNamed-mono ids ids' (text ∷ raw) more h =
      ((h.0.0, h.0.1, more h.0.0 h.0.2), IsNamed-mono ids ids' raw more h.1)

  parse_seat_ids-IsParsed :
      (seen raw : List Text) → IfOk (IsParsed seen raw) (parse_seat_ids scan seen raw)
  unfolding parse_seat_ids parse_uuid
  parse_seat_ids-IsParsed seen [] = (tt, tt, refl, tt)
  parse_seat_ids-IsParsed seen (text ∷ raw) =
      by_scan (λ seen'. parse_seat_ids-IsParsed seen' raw) (scan (trim_space text)) refl
    where
      grow :
          (id : Uuid) (r : Result (List Uuid))
          → scan (trim_space text) ≡ some id
          → IsUnseen seen id
          → IfOk (IsParsed (uuid_to_string id ∷ seen) raw) r
          → IfOk (IsParsed seen (text ∷ raw)) (r >>= λ ids. ok (id ∷ ids))
      grow id (ok ids) read new h = (
        (new, IsUnseen-before (uuid_to_string id) seen ids h.0),
        (not_repeated id seen ids h.0, h.1),
        ap suc h.2,
        ((id, read, inl refl), IsNamed-mono ids (id ∷ ids) raw (λ x m. inr m) h.3),
      )
      grow id (err e) read new h = tt

      by_scan :
          ((seen' : List Text) → IfOk (IsParsed seen' raw) (parse_seat_ids scan seen' raw))
          → (found : Option Uuid) → scan (trim_space text) ≡ found
          → IfOk (IsParsed seen (text ∷ raw)) (parse_seat_ids scan seen (text ∷ raw))
      by_scan rest none e = rw (IfOk, e) tt
      by_scan rest (some id) e = elim (Bool-cases (any (text_eq (uuid_to_string id)) seen)) [
        | inl again ↦ rw (IfOk, e, again) tt
        | inr new ↦
            rw (IfOk, e, new)
              (grow id (parse_seat_ids scan (uuid_to_string id ∷ seen) raw) e new
                (rest (uuid_to_string id ∷ seen)))
      ]

  abbrev pub IsOrdered : SeatReservationRequest → Uuid × List Uuid → Type 0
  IsOrdered input parsed =
      (scan input.event_id ≡ some parsed.0)
      × Ascends PrintsUpTo parsed.1
      × Distinct (map (λ x. x) parsed.1)
      × (length parsed.1 ≡ length input.seat_ids)
      × All (IsNamed parsed.1) input.seat_ids

  -- If parseSeatInput returns an event and seats, the event is the one that the request names, each seat
  -- prints up to the next one in the order of characters, none occurs twice, they are as many as the
  -- request names, and each text of the request, trimmed, is read as one of them.
  pub parse_seat_input-IsOrdered :
      (input : SeatReservationRequest) → IfOk (IsOrdered input) (parse_seat_input scan input)
  unfolding parse_seat_input parse_uuid
  parse_seat_input-IsOrdered input =
      elim (Bool-cases (is_blank input.idempotency_key || length input.seat_ids == 0)) [
        | inl bad ↦ rw (IfOk, bad) tt
        | inr good ↦ rw (IfOk, good) (by_event (scan input.event_id) refl)
      ]
    where
      by_seats :
          (event_id : Uuid) (r : Result (List Uuid))
          → scan input.event_id ≡ some event_id
          → IfOk (IsParsed [] input.seat_ids) r
          → IfOk (IsOrdered input) (r >>= λ ids. ok (event_id, sort_by printed_le ids))
      by_seats event_id (ok ids) read h = (
        read,
        Ascends-sort_by printed_le printed_le-total PrintsUpTo PrintsUpTo-of_printed_le ids,
        Distinct-sort_by (λ x. x) printed_le ids h.1,
        length-sort_by ids ∙ h.2,
        IsNamed-mono ids (sort_by printed_le ids) input.seat_ids (λ id m. IsAmong-sort_by id ids m)
            h.3,
      )
      by_seats event_id (err e) read h = tt

      by_event :
          (found : Option Uuid)
          → scan input.event_id ≡ found
          → IfOk (IsOrdered input) (
              or_else
                (elim found [ some id ↦ ok id | none ↦ err invalid_uuid ])
                invalid_seat_reservation
              >>= λ event_id. parse_seat_ids scan [] input.seat_ids >>= λ ids.
                  ok (event_id, sort_by printed_le ids))
      by_event (some event_id) read =
          by_seats event_id (parse_seat_ids scan [] input.seat_ids) read
            (parse_seat_ids-IsParsed [] input.seat_ids)
      by_event none read = tt
