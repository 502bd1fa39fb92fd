-- ===== src/Fixtures/ResetRequests.antt =====
-- A request to reset the fixtures (internal/modules/stressadmin/service.go).
use study_ticket_reservation.Base.{
  ℕ, ◌≡◌, ◌≢◌, refl, true, false, not, All, ◌⊎◌, inl, inr, Bool-cases, arith,
}
use study_ticket_reservation.Base.Text.{Text}
use study_ticket_reservation.Db.Tx.{Error, stress_admin_disabled, Result, ok, err, Env, Tx}
use study_ticket_reservation.Db.Triples.{Post}
use study_ticket_reservation.Db.Transactions.{
  Settled, Transacts, Transacts-raise, Transacts-map, Transacts-weaken,
}
use study_ticket_reservation.Sqlc.Models.{Event}
use study_ticket_reservation.Sqlc.Database.{Database, any_id}
use study_ticket_reservation.Sqlc.StressAdmin.{like, stress_event_ids}
use study_ticket_reservation.StressAdmin.Dto.{ResetResponse}
use study_ticket_reservation.StressAdmin.Repository
use study_ticket_reservation.StressAdmin.Service.{is_local, reset}
use study_ticket_reservation.Inventory.Tables.{All-select_test}
use study_ticket_reservation.Fixtures.Patterns.{
  stress_pattern, lookalike, like-lookalike, stress_event_ids-found,
}
use study_ticket_reservation.Fixtures.Resetting.{Removes, IsRefused, reset-Transacts}

-- The endpoint is off, or the server refused a call.
abbrev pub ResetFails : (app_env : Text) → Error → Type 0
ResetFails app_env e =
    ((e ≡ stress_admin_disabled) × (is_local app_env ≡ false))
    ⊎ ((is_local app_env ≡ true) × IsRefused e)

module _ (env : Env) (app_env : Text) (w : Tx Database) where
  -- A request to reset either succeeds or fails. If it succeeds, exactly the events that the pattern
  -- finds are gone, with their ticket types, their seats, their reservations and the items and seat rows
  -- of these reservations, everything else is as it was, and the response gives the number of these
  -- events. If it fails, the database is as it was, and either the environment is not a local one, or
  -- the server refused a call.
  pub reset_lem :
      Settled
        (λ response d.
          Removes (stress_event_ids stress_pattern w.db) w.db response.events_deleted d)
        (ResetFails app_env)
        w.db
        (reset env app_env w)
  unfolding reset
  reset_lem = (transacts (Bool-cases (is_local app_env))).at w refl
    where
      transacts :
          (is_local app_env ≡ true) ⊎ (is_local app_env ≡ false)
          → Transacts
              (λ d. d ≡ w.db)
              (reset env app_env)
              (λ response d.
                Removes (stress_event_ids stress_pattern w.db) w.db response.events_deleted d)
              (ResetFails app_env)
      transacts (inr off) = rw off (Transacts-raise _ (inl (refl, off)))
      transacts (inl on) = rw on (
          Transacts-weaken _ _ _ _ _
            (Transacts-map (Repository.reset env stress_pattern) _
              (reset-Transacts env stress_pattern w.db))
            (λ response d h. rw h.2 h.1) (λ e h. inr (on, h)))

  -- Where the ids of the events are not NULL, no event is left after a request to reset that succeeds
  -- whose name is the reserved prefix with any other characters in place of its five underscores, and
  -- any text after it.
  pub reset-deletes_lookalikes :
      (a b c d e : ℕ) (rest : Text)
      → All (λ event. event.id.valid ≡ true) w.db.events
      → Post
          (λ _ db. All (λ event. event.name ≢ lookalike a b c d e rest) db.events)
          (λ _. Unit {0})
          (reset env app_env w)
  reset-deletes_lookalikes a b c d e rest valid = gone (reset env app_env w) reset_lem
    where
      kept :
          (event : Event)
          → (like stress_pattern event.name ≡ true
              → any_id event.id (stress_event_ids stress_pattern w.db) ≡ true)
          → not (any_id event.id (stress_event_ids stress_pattern w.db)) ≡ true
          → event.name ≢ lookalike a b c d e rest
      kept event found stays same =
          let hit = found (rw same (like-lookalike a b c d e rest)) in ground arith

      gone :
          (r : Result ResetResponse × Tx Database)
          → Settled
              (λ response d.
                Removes (stress_event_ids stress_pattern w.db) w.db response.events_deleted d)
              (ResetFails app_env)
              w.db
              r
          → Post
              (λ _ db. All (λ event. event.name ≢ lookalike a b c d e rest) db.events)
              (λ _. Unit {0})
              r
      gone (ok response, w') h = rw h.0 (
          All-select_test _ _ _ w.db.events kept (stress_event_ids-found stress_pattern w.db valid))
      gone (err e', w') h = tt
