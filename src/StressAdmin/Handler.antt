-- ===== src/StressAdmin/Handler.antt =====
-- The HTTP handlers of internal/modules/stressadmin/handler.go.
use study_ticket_reservation.Base.{ℕ, Option, List}
use study_ticket_reservation.Base.Text.{Text, text}
use study_ticket_reservation.Db.Tx.{Error, stress_admin_disabled, Env, Action, pure, attempt, ◌>>=◌}
use study_ticket_reservation.Sqlc.Database.{Database}
use study_ticket_reservation.Http.{Reply, refused, reply}
use study_ticket_reservation.StressAdmin.Dto.{SeedResponse, ResetResponse, ConsistencyResponse}
use study_ticket_reservation.StressAdmin.Service.{seed, reset, assert_consistency}

module _ {A : Type 0} where
  -- What the handlers reply to an error of the service.
  unfoldable pub stress_error : (code message : Text) → Error → Reply A
  stress_error code message stress_admin_disabled =
      refused 404 (text "NOT_FOUND") (text "Not found")
  stress_error code message _ = refused 500 code message

module _ (env : Env) (app_env : Text) where
  unfoldable pub handle_seed :
      (random : Option (List ℕ)) (now : ℕ) → Action Database (Reply SeedResponse)
  unfolding reply stress_error
  handle_seed random now = do
    result ← attempt (seed env app_env random now)
    pure (
        reply 201 (stress_error (text "STRESS_SEED_FAILED") (text "Could not seed stress data"))
          result)

  unfoldable pub handle_reset : Action Database (Reply ResetResponse)
  unfolding reply stress_error
  handle_reset = do
    result ← attempt (reset env app_env)
    pure (
        reply 200 (stress_error (text "STRESS_RESET_FAILED") (text "Could not reset stress data"))
          result)

  unfoldable pub handle_assert_consistency : (now : ℕ) → Action Database (Reply ConsistencyResponse)
  unfolding reply stress_error
  handle_assert_consistency now = do
    result ← attempt (assert_consistency env app_env now)
    pure (
        reply 200
          (stress_error (text "CONSISTENCY_ASSERT_FAILED")
            (text "Could not assert database consistency"))
          result)
