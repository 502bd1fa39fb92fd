-- ===== src/Worker.antt =====
-- The expiration worker (internal/worker/expiration.go): its loop, with what a round meets as data. The
-- ticker and the context are not part of the program.
use study_ticket_reservation.Base.{ℕ, Bool, true, false, List, [], ◌∷◌, ltb, if◌then◌else◌}
use study_ticket_reservation.Base.Int.{ℤ}
use study_ticket_reservation.Db.Tx.{Error, Result, ok, err, Env, Tx, Action}
use study_ticket_reservation.Sqlc.Database.{Database}
use study_ticket_reservation.Reservations.Lifecycle.{expire_expired_reservations}

-- What one round meets: the server, the clock, whether the context is cancelled when a failed batch
-- returns (`ctx.Err() != nil`), and which case the `select` takes after it: `ctx.Done()`, or the tick.
pub record Round : Type 0 where
  pub env : Env
  pub now : ℕ
  pub cancelled : Bool
  pub done : Bool

-- A line of the log.
pub data Entry : Type 0 where
  batch_failed : Error → Entry
  batch_processed : (count : ℕ) → Entry

-- What the loop has come to: it has returned, or it has used up the rounds that are given. The log has
-- the first line first.
pub record Run : Type 0 where
  pub returned : Bool
  pub log : List Entry
  pub tx : Tx Database

unfoldable pub process_once : Round → (batch_size : ℤ) → Action Database ℕ
process_once r batch_size = expire_expired_reservations r.env r.now batch_size

abbrev pub logged : Entry → Run → Run
logged entry run = record run { log = entry ∷ run.log }

abbrev pub returns : Tx Database → Run
returns w = record { returned = true; log = []; tx = w }

-- The `select`, before the next rounds.
abbrev pub select_case : Round → (Tx Database → Run) → Tx Database → Run
select_case r next w = if r.done then returns w else next w

-- The rest of a round after its batch.
unfoldable pub after_batch : Round → (Tx Database → Run) → Result ℕ → Tx Database → Run
after_batch r next (err e) w =
    if r.cancelled then returns w else logged (batch_failed e) (select_case r next w)
after_batch r next (ok processed) w =
    if ltb 0 processed
    then logged (batch_processed processed) (select_case r next w)
    else select_case r next w

unfoldable pub run : (batch_size : ℤ) → List Round → Tx Database → Run
unfolding process_once after_batch
run batch_size [] w = record { returned = false; log = []; tx = w }
run batch_size (r ∷ rounds) w =
    let next = run batch_size rounds in
    let (result, w') = process_once r batch_size w in after_batch r next result w'
