-- ===== src/Expiry/Stopping.antt =====
-- When the loop of the worker (internal/worker/expiration.go) returns.
use study_ticket_reservation.Base.{
  ℕ, ◌≡◌, refl, ap, true, false, List, [], ◌∷◌, ◌++◌, ltb, Bool-cases, inl, inr,
}
use study_ticket_reservation.Base.Int.{ℤ, pos, leb_ℤ}
use study_ticket_reservation.Db.Tx.{Result, ok, err, Tx, with_tx, raise}
use study_ticket_reservation.Sqlc.Database.{Database}
use study_ticket_reservation.Reservations.Lifecycle.{expire_expired_reservations}
use study_ticket_reservation.Worker.{
  Round, Run, batch_failed, batch_processed, process_once, select_case, after_batch, run,
}

-- A run that has returned, where another one has come to, with the same lines in the log.
abbrev pub StopsAt : Run → Run → Type 0
StopsAt final before =
    (final.returned ≡ true) × (final.tx.db ≡ before.tx.db) × (final.log ≡ before.log)

module _ (r : Round) (next next' : Tx Database → Run)
    (h : (w : Tx Database) → StopsAt (next w) (next' w)) where
  select_case-StopsAt : (w : Tx Database) → StopsAt (select_case r next w) (select_case r next' w)
  select_case-StopsAt w = elim (Bool-cases r.done) [
    | inl d ↦ rw d (refl, refl, refl)
    | inr d ↦ rw d (h w)
  ]

  after_batch-StopsAt :
      (x : Result ℕ × Tx Database)
      → StopsAt (after_batch r next x.0 x.1) (after_batch r next' x.0 x.1)
  unfolding after_batch
  after_batch-StopsAt (ok n, w) =
      let on = select_case-StopsAt w in
      elim (Bool-cases (ltb 0 n)) [
        | inl some_left ↦ rw some_left (on.0, on.1, ap (λ log. batch_processed n ∷ log) on.2)
        | inr no_more ↦ rw no_more on
      ]
  after_batch-StopsAt (err f, w) =
      let on = select_case-StopsAt w in
      elim (Bool-cases r.cancelled) [
        | inl stopped ↦ rw stopped (refl, refl, refl)
        | inr goes_on ↦ rw goes_on (on.0, on.1, ap (λ log. batch_failed f ∷ log) on.2)
      ]

-- A round in which the context is cancelled: `ctx.Err()` is not nil, and every call fails.
abbrev pub IsCancelled : Round → Type 0
IsCancelled r = (r.cancelled ≡ true) × ((k : ℕ) → r.env.fails k ≡ true)

cancelled-StopsAt :
    (batch_size : ℤ) (r : Round) (next : Tx Database → Run) (w : Tx Database)
    → IsCancelled r
    → (let (result, w') = process_once r batch_size w in
        StopsAt (after_batch r next result w') (record { returned = false; log = []; tx = w }))
unfolding process_once expire_expired_reservations with_tx raise after_batch
cancelled-StopsAt batch_size r next w c = elim (Bool-cases (leb_ℤ batch_size (pos 0))) [
  | inl none ↦ rw (none, c.0) (refl, refl, refl)
  | inr some ↦ rw (some, c.1 w.calls, c.0) (refl, refl, refl)
]

-- The loop of the worker returns in the first round in which the context is cancelled and so every call
-- fails, whichever case its `select` would take and whatever rounds come after: that round changes
-- nothing in the database and logs nothing, so both are as the rounds before it leave them.
pub run_stops :
    (batch_size : ℤ) (rounds : List Round) (last : Round) (after : List Round) (w : Tx Database)
    → IsCancelled last
    → StopsAt (run batch_size (rounds ++ last ∷ after) w) (run batch_size rounds w)
unfolding run
run_stops batch_size [] last after w c = cancelled-StopsAt batch_size last _ w c
run_stops batch_size (r ∷ rounds) last after w c =
    after_batch-StopsAt r _ _ (λ w'. run_stops batch_size rounds last after w' c)
      (process_once r batch_size w)
