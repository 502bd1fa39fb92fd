-- ===== src/Tests/AdminExamples.antt =====
-- The theorems on the stress administration, at the database of the examples and a stranger's event.
use study_ticket_reservation.Base.{
  ℕ, ◌≡◌, ◌≢◌, refl, true, false, Option, some, List, [], ◌∷◌, ◌↔◌, All,
}
use study_ticket_reservation.Base.Text.{text}
use study_ticket_reservation.Db.Tx.{Tx}
use study_ticket_reservation.Db.Triples.{Post}
use study_ticket_reservation.Db.Transactions.{Settled}
use study_ticket_reservation.Sqlc.Models.{Event}
use study_ticket_reservation.Sqlc.Database.{Database}
use study_ticket_reservation.Sqlc.StressAdmin.{stress_event_ids}
use study_ticket_reservation.Sqlc.Reservations.Headers.{is_overdue}
use study_ticket_reservation.StressAdmin.Service.{seed, reset, stale_threshold, assert_consistency}
use study_ticket_reservation.Inventory.Reachable.{start, followed_by, reserves_quantity}
use study_ticket_reservation.Consistency.Report.{Reports, IsOff, assert_consistency_lem}
use study_ticket_reservation.Consistency.Reached.{Steps-consistent}
use study_ticket_reservation.Fixtures.Patterns.{stress_pattern, lookalike}
use study_ticket_reservation.Fixtures.SeedRequests.{Seeds, SeedFails, seed_lem}
use study_ticket_reservation.Fixtures.Resetting.{Removes}
use study_ticket_reservation.Fixtures.ResetRequests.{
  ResetFails, reset_lem, reset-deletes_lookalikes,
}
use study_ticket_reservation.Tests.Samples.{
  uuid, service, calm, session, event, fresh, ask_quantity,
}
use study_ticket_reservation.Tests.Start.{fresh-IsFresh, three, three-Inv, from_three}

assert_consistency_lem_example :
    Settled
      (λ response d. Reports (stale_threshold 90000000) three response × (d ≡ three))
      (IsOff (text "test"))
      three
      (assert_consistency (calm 200) (text "test") 90000000 from_three)
assert_consistency_lem_example = assert_consistency_lem (calm 200) (text "test") 90000000 from_three

Steps-consistent_example :
    Settled
      (λ response d.
        ((response.ok ≡ true)
          ↔ All (λ r. is_overdue (stale_threshold 90000000) r ≡ false) three.reservations)
        × (d ≡ three))
      (IsOff (text "test"))
      three
      (assert_consistency (calm 200) (text "test") 90000000 from_three)
Steps-consistent_example =
    Steps-consistent fresh (calm 200) (text "test") 90000000 from_three fresh-IsFresh (
      followed_by fresh three start
        (reserves_quantity (calm 100) session service 10 0 (ask_quantity 3) fresh))

abbrev drawn : Option (List ℕ)
drawn = some (1 ∷ 2 ∷ 3 ∷ 4 ∷ 5 ∷ 6 ∷ 7 ∷ 8 ∷ [])

seed_lem_example :
    Settled
      (Seeds (calm 200) drawn 5 three)
      (SeedFails (text "local") drawn)
      three
      (seed (calm 200) (text "local") drawn 5 from_three)
seed_lem_example = seed_lem (calm 200) (text "local") drawn 5 from_three three-Inv

-- A name of a user's own, that starts like the reserved prefix.
abbrev meeting : Event
meeting = record event { id = uuid b'M'; name = lookalike b'm' b'y' b' ' b's' b'.' (text "talks") }

abbrev from_meeting : Tx Database
from_meeting = record { db = record fresh { events = meeting ∷ event ∷ [] }; calls = 0 }

reset_lem_example :
    Settled
      (λ response d.
        Removes
          (stress_event_ids stress_pattern from_meeting.db)
          from_meeting.db
          response.events_deleted
          d)
      (ResetFails (text "local"))
      from_meeting.db
      (reset (calm 200) (text "local") from_meeting)
reset_lem_example = reset_lem (calm 200) (text "local") from_meeting

-- "__stress_seed__:" with other characters for the underscores.
reset-deletes_lookalikes_example :
    Post
      (λ _ db. All (λ e. e.name ≢ lookalike b'm' b'y' b' ' b's' b'.' (text "talks")) db.events)
      (λ _. Unit {0})
      (reset (calm 200) (text "local") from_meeting)
reset-deletes_lookalikes_example =
    reset-deletes_lookalikes (calm 200) (text "local") from_meeting b'm' b'y' b' ' b's' b'.'
      (text "talks") (refl, (refl, tt))
