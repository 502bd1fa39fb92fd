-- ===== src/StressAdmin/Repository.antt =====
-- The transactions of internal/modules/stressadmin/repository.go. Its other methods hand a query on.
use study_ticket_reservation.Base.{
  ℕ, zero, suc, ◌+◌, ◌/◌, ◌%◌, List, [], ◌∷◌, ◌++◌, ltb, length, ◌==◌, if◌then◌else◌,
}
use study_ticket_reservation.Base.Int.{pos}
use study_ticket_reservation.Base.Text.{Text, text}
use study_ticket_reservation.Db.Types.{Uuid}
use study_ticket_reservation.Db.Tx.{Env, Action, pure, with_tx, ◌>>=◌, ◌>>◌}
use study_ticket_reservation.Sqlc.Models.{Event, TicketType, Seat}
use study_ticket_reservation.Sqlc.Database.{Database}
use study_ticket_reservation.Sqlc.Events.{
  CreateEventParams, CreateTicketTypeParams, CreateSeatParams, create_event, create_ticket_type,
  create_seat,
}
use study_ticket_reservation.Sqlc.StressAdmin.{
  list_stress_event_ids, delete_stress_reservation_seats, delete_stress_reservation_items,
  delete_stress_reservations, delete_stress_events,
}

-- The decimal digits of a number below 10 to the power of `fuel`.
digits : (fuel n : ℕ) → Text
digits zero n = []
digits (suc fuel) n =
    let front = digits fuel (n / 10) in
    if ltb n 10 then (b'0' + n) ∷ [] else front ++ ((b'0' + n % 10) ∷ [])

-- `strconv.Itoa` of a number that is not negative.
unfoldable pub itoa : ℕ → Text
unfolding digits
itoa n = digits (suc n) n

abbrev pub fixture_ticket_type : Uuid → CreateTicketTypeParams
fixture_ticket_type event_id = record {
  event_id = event_id;
  name = text "General Admission";
  total_quantity = pos 1000;
}

abbrev pub fixture_seat : Uuid → (row seat : ℕ) → CreateSeatParams
fixture_seat event_id row seat = record {
  event_id = event_id;
  section = text "A";
  row_name = itoa row;
  seat_number = itoa seat;
}

module _ (env : Env) (event_id : Uuid) where
  -- `for seat := ...; seat <= 10; seat++`, with the rounds that are left.
  unfoldable pub seed_seats : (row rounds seat : ℕ) → Action Database (List Seat)
  seed_seats row zero seat = pure []
  seed_seats row (suc rounds) seat = do
    created ← create_seat env (fixture_seat event_id row seat)
    seats ← seed_seats row rounds (seat + 1)
    pure (created ∷ seats)

  -- `for row := ...; row <= 10; row++`.
  unfoldable pub seed_rows : (rounds row : ℕ) → Action Database (List Seat)
  unfolding seed_seats
  seed_rows zero row = pure []
  seed_rows (suc rounds) row = do
    created ← seed_seats row 10 1
    seats ← seed_rows rounds (row + 1)
    pure (created ++ seats)

module _ (env : Env) where
  unfoldable pub seed : CreateEventParams → Action Database (Event × TicketType × List Seat)
  unfolding with_tx create_event create_ticket_type seed_rows
  seed params = with_tx env do
    event ← create_event env params
    ticket_type ← create_ticket_type env (fixture_ticket_type event.id)
    seats ← seed_rows env event.id 10 1
    pure (event, ticket_type, seats)

  unfoldable pub reset : (pattern : Text) → Action Database ℕ
  unfolding with_tx list_stress_event_ids delete_stress_reservation_seats
      delete_stress_reservation_items delete_stress_reservations delete_stress_events
  reset pattern = with_tx env do
    ids ← list_stress_event_ids env pattern
    if length ids == 0 then pure 0 else do
      delete_stress_reservation_seats env ids
      delete_stress_reservation_items env ids
      delete_stress_reservations env ids
      delete_stress_events env ids
