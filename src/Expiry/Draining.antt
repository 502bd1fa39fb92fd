-- ===== src/Expiry/Draining.antt =====
-- The loop of the worker (internal/worker/expiration.go) over its rounds.
use native.Mathlib.Nat.{mul-suc}
use study_ticket_reservation.Base.{
  ℕ, suc, ◌+◌, ◌*◌, ◌≤◌, ◌<◌, ◌≡◌, false, List, [], ◌∷◌, length, All, ltb, ◌⊎◌, inl, inr,
  Bool-cases, arith,
}
use study_ticket_reservation.Base.Int.{pos}
use study_ticket_reservation.Db.Types.{Uuid}
use study_ticket_reservation.Db.Tx.{failure, Result, ok, err, Tx}
use study_ticket_reservation.Db.Transactions.{Settled}
use study_ticket_reservation.Sqlc.Database.{Database}
use study_ticket_reservation.Reservations.Service.{timestamp}
use study_ticket_reservation.Reservations.Lifecycle.{expire_expired_reservations}
use study_ticket_reservation.Worker.{
  Round, Entry, batch_failed, batch_processed, Run, process_once, after_batch, run,
}
use study_ticket_reservation.Inventory.Invariant.{Inv}
use study_ticket_reservation.Inventory.Batch.{Expired, batch}
use study_ticket_reservation.Inventory.Guarantees.{expire_expired_reservations_lem}
use study_ticket_reservation.Expiry.Counting.{count_overdue}
use study_ticket_reservation.Expiry.Progress.{batch_progress}

-- A round after which the loop goes on, whose clock has not gone back behind `now`, and that meets no
-- locked row.
abbrev pub GoesOn : (now : ℕ) → Round → Type 0
GoesOn now r =
    (r.done ≡ false)
    × (r.cancelled ≡ false)
    × (now ≤ r.now)
    × ((id : Uuid) → r.env.locked id ≡ false)

-- The failed batches in a log.
abbrev pub failures : List Entry → ℕ
failures [] = 0
failures (batch_failed e ∷ log) = suc (failures log)
failures (batch_processed n ∷ log) = failures log

-- No reservation that has run out is left, or as many less as the batches that did not fail may take.
abbrev pub WorksOff : (now limit rounds before : ℕ) → Run → Type 0
WorksOff now limit rounds before r =
    (count_overdue (timestamp now) r.tx.db.reservations ≡ 0)
    ⊎ (count_overdue (timestamp now) r.tx.db.reservations + limit * rounds
        ≤ before + limit * failures r.log)

module _ (now limit : ℕ) (positive : 0 < limit) where
  abbrev overdue : Database → ℕ
  overdue d = count_overdue (timestamp now) d.reservations

  -- A batch that failed changes nothing, and one that did not makes progress.
  abbrev Progressed : Database → Result ℕ → Database → Type 0
  Progressed d0 (ok n) d = Inv d × ((overdue d ≡ 0) ⊎ (overdue d + limit ≤ overdue d0))
  Progressed d0 (err e) d = d ≡ d0

  batch-Progressed :
      (r : Round) (w : Tx Database)
      → GoesOn now r
      → Inv w.db
      → Progressed w.db (process_once r (pos limit) w).0 (process_once r (pos limit) w).1.db
  unfolding process_once
  batch-Progressed r w g inv =
      by_result (expire_expired_reservations r.env r.now (pos limit) w)
        (expire_expired_reservations_lem r.env r.now limit w positive inv)
    where
      by_result :
          (x : Result ℕ × Tx Database)
          → Settled
              (Expired r.env (batch r.env (timestamp r.now) limit w.db) w.db)
              (λ e. e ≡ failure)
              w.db
              x
          → Progressed w.db x.0 x.1.db
      by_result (ok n, w') h =
          (h.1, batch_progress r.env now r.now g.2 limit w.db inv g.3 w'.db h.2)
      by_result (err e, w') h = h.1

  -- One more round before the others.
  adds_up :
      (before first after rounds f : ℕ)
      → (first ≡ 0) ⊎ (first + limit ≤ before)
      → (after ≤ first) × ((after ≡ 0) ⊎ (after + limit * rounds ≤ first + limit * f))
      → (after ≤ before) × ((after ≡ 0) ⊎ (after + limit * suc rounds ≤ before + limit * f))
  adds_up before first after rounds f (inl p) (le, q) = (omega (arith, p), inl (omega (arith, p)))
  adds_up before first after rounds f (inr p) (le, inl q) = (omega arith, inl q)
  adds_up before first after rounds f (inr p) (le, inr q) =
      (omega arith, inr (omega (arith, mul-suc limit rounds)))

  adds_failure :
      (before after rounds f : ℕ)
      → (after ≤ before) × ((after ≡ 0) ⊎ (after + limit * rounds ≤ before + limit * f))
      → (after ≤ before) × ((after ≡ 0) ⊎ (after + limit * suc rounds ≤ before + limit * suc f))
  adds_failure before after rounds f (le, inl q) = (le, inl q)
  adds_failure before after rounds f (le, inr q) =
      (le, inr (omega (arith, mul-suc limit rounds, mul-suc limit f)))

  run-WorksOff :
      (rounds : List Round) (w : Tx Database)
      → All (GoesOn now) rounds
      → Inv w.db
      → (overdue (run (pos limit) rounds w).tx.db ≤ overdue w.db)
        × WorksOff now limit (length rounds) (overdue w.db) (run (pos limit) rounds w)
  unfolding run after_batch
  run-WorksOff [] w g inv = (omega arith, inr (omega arith))
  run-WorksOff (r ∷ rounds) w g inv =
      by_result (λ w' i. run-WorksOff rounds w' g.1 i) (process_once r (pos limit) w)
        (batch-Progressed r w g.0 inv)
    where
      by_result :
          ((w : Tx Database)
            → Inv w.db
            → (overdue (run (pos limit) rounds w).tx.db ≤ overdue w.db)
              × WorksOff now limit (length rounds) (overdue w.db) (run (pos limit) rounds w))
          → (x : Result ℕ × Tx Database) → Progressed w.db x.0 x.1.db
          → (let final =
                (let (result, w') = x in after_batch r (run (pos limit) rounds) result w') in
              (overdue final.tx.db ≤ overdue w.db)
              × WorksOff now limit (suc (length rounds)) (overdue w.db) final)
      by_result rest (ok n, w') h = elim (Bool-cases (ltb 0 n)) [
        | inl some_left ↦ rw (some_left, g.0.0) (adds_up _ _ _ (length rounds) _ h.1 (rest w' h.0))
        | inr no_more ↦ rw (no_more, g.0.0) (adds_up _ _ _ (length rounds) _ h.1 (rest w' h.0))
      ]
      by_result rest (err e, w') h =
          rw (g.0.1, g.0.0)
            (adds_failure (overdue w.db) _ (length rounds) _ (rw (← h) (rest w' (rw h inv))))

-- The loop of the worker, in rounds none of which ends it, each at a time of its own that is `now` or
-- later, and none of which meets a locked row, on a database that satisfies the invariant: when the rounds
-- whose batch did not fail can take, at a batch size each, all the reservations that had run out at `now`,
-- none of these is left reserved, whatever else runs out in the meantime.
pub run_drains :
    (now limit : ℕ) (rounds : List Round) (w : Tx Database)
    → 0 < limit
    → All (GoesOn now) rounds
    → Inv w.db
    → count_overdue (timestamp now) w.db.reservations
        + limit * failures (run (pos limit) rounds w).log
      ≤ limit * length rounds
    → count_overdue (timestamp now) (run (pos limit) rounds w).tx.db.reservations ≡ 0
run_drains now limit rounds w positive g inv enough =
    elim (run-WorksOff now limit positive rounds w g inv).1 [
      | inl none_left ↦ none_left
      | inr fewer ↦ omega (arith, enough, fewer)
    ]
