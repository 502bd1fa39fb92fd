-- ===== src/Tests/WorkerExamples.antt =====
-- The theorems on the loop of the worker, at the reservation of three tickets, whose deadline is 60.
use study_ticket_reservation.Base.{ℕ, ◌≡◌, refl, true, false, [], ◌∷◌, ◌++◌, arith}
use study_ticket_reservation.Base.Int.{pos}
use study_ticket_reservation.Reservations.Service.{timestamp}
use study_ticket_reservation.Worker.{Round, run}
use study_ticket_reservation.Expiry.Counting.{count_overdue}
use study_ticket_reservation.Expiry.Draining.{run_drains}
use study_ticket_reservation.Expiry.Stopping.{StopsAt, run_stops}
use study_ticket_reservation.Tests.Runs
use study_ticket_reservation.Tests.Samples.{calm}
use study_ticket_reservation.Tests.Start.{three-Inv, from_three}

abbrev round : (now : ℕ) → Round
round now = record { env = calm 200; now = now; cancelled = false; done = false }

-- The deadline is 60, and the rounds are at 61, 66 and 71.
run_drains_example :
    count_overdue
      (timestamp 61)
      (run (pos 2) (round 61 ∷ round 66 ∷ round 71 ∷ []) from_three).tx.db.reservations
    ≡ 0
unfolding run Runs.inventory
run_drains_example =
    run_drains 61 2 (round 61 ∷ round 66 ∷ round 71 ∷ []) from_three (omega arith)
      (
        (refl, refl, omega arith, λ id. refl),
        ((refl, refl, omega arith, λ id. refl), ((refl, refl, omega arith, λ id. refl), tt)),
      )
      three-Inv (omega arith)

-- The context is cancelled, and a tick is ready.
abbrev cancelled_round : Round
cancelled_round = record {
  env = record (calm 200) { fails = λ k. true };
  now = 66;
  cancelled = true;
  done = false;
}

run_stops_example :
    StopsAt
      (run (pos 2) ((round 61 ∷ []) ++ cancelled_round ∷ round 71 ∷ []) from_three)
      (run (pos 2) (round 61 ∷ []) from_three)
run_stops_example =
    run_stops (pos 2) (round 61 ∷ []) cancelled_round (round 71 ∷ []) from_three (refl, λ k. refl)
