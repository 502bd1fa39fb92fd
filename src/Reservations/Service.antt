-- ===== src/Reservations/Service.antt =====
-- The service's settings, and its ways to answer an error. A parameter `now` or `later` of an
-- operation is a reading of the service's clock, `time.Now()`, in the order of the calls.
use study_ticket_reservation.Base.{ℕ, Bool, true, false, Option, if◌then◌else◌}
use study_ticket_reservation.Base.Text.{Text}
use study_ticket_reservation.Db.Types.{Uuid, Timestamptz}
use study_ticket_reservation.Db.Tx.{Error, idempotency_replay_required, Action, raise, on_error}
use study_ticket_reservation.Sqlc.Database.{Database}

-- `reservationTTL`, and `pgtype.UUID.Scan`, which is not part of the program.
pub record Service : Type 0 where
  pub scan : Text → Option Uuid
  pub reservation_ttl : ℕ

abbrev pub timestamp : ℕ → Timestamptz
timestamp t = record { time = t; valid = true }

abbrev pub is_replay_required : Error → Bool
is_replay_required idempotency_replay_required = true
is_replay_required _ = false

module _ {A : Type 0} where
  -- `if test(err) { return other }`.
  abbrev pub instead : (Error → Bool) → Error → Action Database A → Action Database A
  instead test other m = on_error m λ e. raise (if test e then other else e)

module _ {A : Type 0} where
  -- `if errors.Is(err, ErrIdempotencyReplayRequired)` after a transaction.
  abbrev pub or_replay : Action Database A → Action Database A → Action Database A
  or_replay m replay = on_error m λ e. if is_replay_required e then replay else raise e
