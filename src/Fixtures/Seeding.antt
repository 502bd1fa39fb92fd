-- ===== src/Fixtures/Seeding.antt =====
-- The loops of Seed make a grid of seats (internal/modules/stressadmin/repository.go).
use mathlib.Core.List.{flat_map}
use study_ticket_reservation.Base.{
  ℕ, zero, suc, ◌+◌, ◌≡◌, refl, sym, ap, ◌∙◌, List, [], ◌∷◌, ◌++◌, map,
}
use study_ticket_reservation.Db.Types.{Uuid, Timestamptz}
use study_ticket_reservation.Db.Tx.{Env}
use study_ticket_reservation.Db.Triples.{
  Triple, Triple-statement, Triple-bind, Triple-pure, Triple-each,
}
use study_ticket_reservation.Sqlc.Models.{Seat}
use study_ticket_reservation.Sqlc.Database.{Database}
use study_ticket_reservation.Sqlc.Events.{CreateSeatParams, new_seat, insert_seat, create_seat}
use study_ticket_reservation.StressAdmin.Repository.{fixture_seat, seed_seats, seed_rows}
use study_ticket_reservation.Catalogue.Inserts.{IsServerError, AddsSeat, insert_seat-Post}
use study_ticket_reservation.Catalogue.Seats.{pushed, with_seats}

abbrev pub one_to_ten : List ℕ
one_to_ten = 1 ∷ 2 ∷ 3 ∷ 4 ∷ 5 ∷ 6 ∷ 7 ∷ 8 ∷ 9 ∷ 10 ∷ []

-- Ten rows of ten seats.
unfoldable pub grid : Uuid → List CreateSeatParams
grid event_id = flat_map (λ row. map (λ seat. fixture_seat event_id row seat) one_to_ten) one_to_ten

-- A new row for each of the parameters.
abbrev pub MadeFrom : Timestamptz → List CreateSeatParams → List Seat → Type 0
MadeFrom now [] [] = Unit
MadeFrom now (arg ∷ args) (row ∷ rows) = (row ≡ new_seat now row.id arg) × MadeFrom now args rows
MadeFrom now _ _ = ⊥

-- The seats that a loop makes, and the database that it leaves.
abbrev pub AddsSeats :
    Timestamptz → List CreateSeatParams → Database → List Seat → Database → Type 0
AddsSeats now args d rows d' = MadeFrom now args rows × (d' ≡ with_seats d rows)

MadeFrom-append :
    (now : Timestamptz) (args args' : List CreateSeatParams) (rows rows' : List Seat)
    → MadeFrom now args rows
    → MadeFrom now args' rows'
    → MadeFrom now (args ++ args') (rows ++ rows')
MadeFrom-append now [] args' [] rows' h k = k
MadeFrom-append now [] args' (row ∷ rows) rows' h k = elim h [ ]
MadeFrom-append now (arg ∷ args) args' [] rows' h k = elim h [ ]
MadeFrom-append now (arg ∷ args) args' (row ∷ rows) rows' h k =
    (h.0, MadeFrom-append now args args' rows rows' h.1 k)

pushed-append :
    (rows rows' ss : List Seat) → pushed (rows ++ rows') ss ≡ pushed rows' (pushed rows ss)
pushed-append [] rows' ss = refl
pushed-append (row ∷ rows) rows' ss = pushed-append rows rows' (row ∷ ss)

module _ (env : Env) (event_id : Uuid) where
  abbrev pub row_args : (row rounds seat : ℕ) → List CreateSeatParams
  row_args row zero seat = []
  row_args row (suc rounds) seat = fixture_seat event_id row seat ∷ row_args row rounds (seat + 1)

  abbrev pub rows_args : (rounds row : ℕ) → List CreateSeatParams
  rows_args zero row = []
  rows_args (suc rounds) row = row_args row 10 1 ++ rows_args rounds (row + 1)

  seed_seats-Triple :
      (row rounds seat : ℕ) (d0 : Database)
      → Triple
          (λ d. d ≡ d0)
          (seed_seats env event_id row rounds seat)
          (AddsSeats env.now (row_args row rounds seat) d0)
          IsServerError
  unfolding seed_seats create_seat
  seed_seats-Triple row zero seat d0 = Triple-pure [] (λ d e. (tt, e))
  seed_seats-Triple row (suc rounds) seat d0 =
      Triple-bind {R = AddsSeat env.now d0 (fixture_seat event_id row seat)} _ _
        (Triple-statement env (insert_seat env.now (fixture_seat event_id row seat))
          (λ id d e. rw e (insert_seat-Post env.now d0 (fixture_seat event_id row seat) id)) tt)
        λ created. Triple-each _ _ _ _ λ d1 a.
          Triple-bind {R = AddsSeats env.now (row_args row rounds (seat + 1)) d1} _ _
            (seed_seats-Triple row rounds (seat + 1) d1)
            λ seats.
              Triple-pure (created ∷ seats)
                λ d s. ((a.row, s.0), s.1 ∙ ap (λ d. with_seats d seats) a.added)

  pub seed_rows-Triple :
      (rounds row : ℕ) (d0 : Database)
      → Triple
          (λ d. d ≡ d0)
          (seed_rows env event_id rounds row)
          (AddsSeats env.now (rows_args rounds row) d0)
          IsServerError
  unfolding seed_rows
  seed_rows-Triple zero row d0 = Triple-pure [] (λ d e. (tt, e))
  seed_rows-Triple (suc rounds) row d0 =
      Triple-bind {R = AddsSeats env.now (row_args row 10 1) d0} _ _ (seed_seats-Triple row 10 1 d0)
        λ created. Triple-each _ _ _ _ λ d1 a.
          Triple-bind {R = AddsSeats env.now (rows_args rounds (row + 1)) d1} _ _
            (seed_rows-Triple rounds (row + 1) d1)
            λ seats. Triple-pure (created ++ seats) λ d s. (
              MadeFrom-append env.now (row_args row 10 1) (rows_args rounds (row + 1)) created seats
                  a.0 s.0,
              s.1
                  ∙ ap (λ d. with_seats d seats) a.1
                  ∙ ap (λ ss. record d0 { seats = ss })
                      (sym (pushed-append created seats d0.seats)),
            )

-- The two loops make the grid.
pub rows_args-grid : (env : Env) (event_id : Uuid) → rows_args env event_id 10 1 ≡ grid event_id
unfolding grid flat_map
rows_args-grid env event_id = refl
