-- ===== src/Catalogue/Seats.antt =====
-- CreateSeats (internal/modules/events/service.go) inserts its seats one by one, outside a transaction:
-- how far it comes, and what it leaves.
use study_ticket_reservation.Base.{
  ◌≡◌, refl, ap, ◌∙◌, true, false, List, [], ◌∷◌, ◌++◌, map, ◌⊎◌, inl, inr, Bool-cases,
}
use study_ticket_reservation.Db.Types.{Uuid, Timestamptz}
use study_ticket_reservation.Db.Tx.{
  Error, invalid_seat_input, Result, ok, err, Env, Tx, raise, pure, statement, settle, continue,
  failure, ◌>>=◌, tick,
}
use study_ticket_reservation.Db.Triples.{BodyPost}
use study_ticket_reservation.Sqlc.Models.{Seat}
use study_ticket_reservation.Sqlc.Database.{Database}
use study_ticket_reservation.Sqlc.Events
use study_ticket_reservation.Sqlc.Events.{new_seat, same_place, insert_seat}
use study_ticket_reservation.Events.Dto.{CreateSeatRequest, SeatResponse}
use study_ticket_reservation.Events.Service.{
  is_blank_seat, seat_params, to_seat_response, create_each,
}
use study_ticket_reservation.Catalogue.Inserts.{IsServerError, AddsSeat, insert_seat-Post}

-- Rows put on a table one after the other.
abbrev pub pushed : List Seat → List Seat → List Seat
pushed [] ss = ss
pushed (row ∷ rows) ss = pushed rows (row ∷ ss)

abbrev pub with_seats : Database → List Seat → Database
with_seats d rows = record d { seats = pushed rows d.seats }

-- A new row for each of the requests, in their order.
abbrev pub Made : Timestamptz → Uuid → List CreateSeatRequest → List Seat → Type 0
Made now event_id [] [] = Unit
Made now event_id (seat ∷ seats) (row ∷ rows) =
    (is_blank_seat seat ≡ false)
    × (row ≡ new_seat now row.id (seat_params event_id seat))
    × Made now event_id seats rows
Made _ _ _ _ = ⊥

-- Why the loop stops before a request.
abbrev pub Stops : Error → List CreateSeatRequest → Type 0
Stops e [] = ⊥
Stops e (seat ∷ _) =
    ((e ≡ invalid_seat_input) × (is_blank_seat seat ≡ true))
    ⊎ ((is_blank_seat seat ≡ false) × IsServerError e)

-- The loop answers with all the seats when none is left, and with an error otherwise.
abbrev pub Ends : List SeatResponse → List CreateSeatRequest → Result (List SeatResponse) → Type 0
Ends made left (ok responses) = (responses ≡ made) × (left ≡ [])
Ends made left (err e) = Stops e left

-- The requests in `done` have become rows, and those in `left` have not.
pub record Progress (now : Timestamptz) (event_id : Uuid) (d0 : Database)
    (seats : List CreateSeatRequest) (r : Result (List SeatResponse) × Tx Database) : Type 0 where
  pub done : List CreateSeatRequest
  pub left : List CreateSeatRequest
  pub rows : List Seat
  pub split : seats ≡ done ++ left
  pub made : Made now event_id done rows
  pub stored : r.1.db ≡ with_seats d0 rows
  pub ends : Ends (map to_seat_response rows) left r.0

module _ (env : Env) (event_id : Uuid) where
  stops :
      (d0 : Database) (seat : CreateSeatRequest) (seats : List CreateSeatRequest) (e : Error)
      (w : Tx Database)
      → w.db ≡ d0
      → Stops e (seat ∷ seats)
      → Progress env.now event_id d0 (seat ∷ seats) (err e, w)
  stops d0 seat seats e w same h = record {
    done = [];
    left = seat ∷ seats;
    rows = [];
    split = refl;
    made = tt;
    stored = same;
    ends = h;
  }

  -- One more row before a run of the loop on the rest.
  goes_on :
      (d0 d1 : Database) (seat : CreateSeatRequest) (seats : List CreateSeatRequest) (row : Seat)
      (r : Result (List SeatResponse) × Tx Database)
      → is_blank_seat seat ≡ false
      → AddsSeat env.now d0 (seat_params event_id seat) row d1
      → Progress env.now event_id d1 seats r
      → Progress env.now event_id d0
          (seat ∷ seats)
          (let (x, w) = r in continue x (λ rs. pure (to_seat_response row ∷ rs)) w)
  unfolding continue pure
  goes_on d0 d1 seat seats row (ok rs, w) named a p = record {
    done = seat ∷ p.done;
    left = p.left;
    rows = row ∷ p.rows;
    split = ap (λ l. seat ∷ l) p.split;
    made = (named, a.row, p.made);
    stored = p.stored ∙ ap (λ d. with_seats d p.rows) a.added;
    ends = (ap (λ l. to_seat_response row ∷ l) p.ends.0, p.ends.1);
  }
  goes_on d0 d1 seat seats row (err e, w) named a p = record {
    done = seat ∷ p.done;
    left = p.left;
    rows = row ∷ p.rows;
    split = ap (λ l. seat ∷ l) p.split;
    made = (named, a.row, p.made);
    stored = p.stored ∙ ap (λ d. with_seats d p.rows) a.added;
    ends = p.ends;
  }

  each_settled :
      (d0 : Database) (seat : CreateSeatRequest) (seats : List CreateSeatRequest) (w : Tx Database)
      (r : Result (Seat × Database))
      → is_blank_seat seat ≡ false
      → w.db ≡ d0
      → BodyPost (AddsSeat env.now d0 (seat_params event_id seat)) IsServerError r
      → ((w : Tx Database)
          → Progress env.now event_id w.db seats (create_each env event_id seats w))
      → Progress env.now event_id d0 (seat ∷ seats) (
          let (x, w') = settle r w in
          continue x
            (λ created. do
              responses ← create_each env event_id seats
              pure (to_seat_response created ∷ responses))
            w')
  unfolding settle continue ◌>>=◌
  each_settled d0 seat seats w (err e) named same h rest =
      stops d0 seat seats e (tick w) same (inr (named, h))
  each_settled d0 seat seats w (ok (row, d1)) named same h rest =
      goes_on d0 d1 seat seats row _ named h (rest (record { db = d1; calls = _ }))

  pub create_each-Progress :
      (seats : List CreateSeatRequest) (w : Tx Database)
      → Progress env.now event_id w.db seats (create_each env event_id seats w)
  unfolding create_each pure raise statement Events.create_seat ◌>>=◌
  create_each-Progress [] w = record {
    done = [];
    left = [];
    rows = [];
    split = refl;
    made = tt;
    stored = refl;
    ends = (refl, refl);
  }
  create_each-Progress (seat ∷ seats) w = elim (Bool-cases (is_blank_seat seat)) [
    | inl bad ↦ rw bad (stops w.db seat seats invalid_seat_input w refl (inl (refl, bad)))
    | inr named ↦ rw named (elim (Bool-cases (env.fails w.calls)) [
      | inl fails ↦ rw fails (stops w.db seat seats failure (tick w) refl (inr (named, tt)))
      | inr runs ↦ rw runs (
          each_settled w.db seat seats w
            (insert_seat env.now (seat_params event_id seat) (env.uuid w.calls) w.db) named refl
            (insert_seat-Post env.now w.db (seat_params event_id seat) (env.uuid w.calls))
            (create_each-Progress seats))
    ])
  ]
