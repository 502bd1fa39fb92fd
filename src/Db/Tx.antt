-- ===== src/Db/Tx.antt =====
-- Actions on a database: statements that may fail, in transactions (internal/db/tx.go). Go's
-- `fmt.Errorf("...: %w", err)` keeps what `errors.Is` and `errors.As` find, so a wrapped error is the
-- error itself here.
use study_ticket_reservation.Base.{ℕ, suc, Bool, true, false, if◌then◌else◌}
use study_ticket_reservation.Db.Types.{Uuid, Timestamptz}

-- The errors that the program tells apart. `constraint_violation` is any other refusal by the
-- server (CHECK, NOT NULL, FOREIGN KEY, out of range), and `failure` everything else that a driver
-- call returns: a lost connection, a cancelled context, a deadlock.
pub data Error : Type 0 where
  no_rows unique_violation constraint_violation failure : Error
  invalid_uuid : Error
  invalid_quantity_reservation invalid_seat_reservation insufficient_stock : Error
  seats_not_found seat_unavailable idempotency_key_conflict idempotency_replay_required : Error
  reservation_not_found reservation_cannot_cancel reservation_cannot_confirm : Error
  reservation_invariant_broken session_required : Error
  invalid_event_input invalid_ticket_type_input invalid_seat_input event_not_found : Error
  stress_admin_disabled : Error
  invalid_register_request email_already_registered invalid_credentials : Error
  current_user_required : Error

pub data Result (A : Type 0) : Type 0 where
  ok : A → Result A
  err : Error → Result A

-- `errors.Is(err, pgx.ErrNoRows)`.
abbrev pub is_no_rows : Error → Bool
is_no_rows no_rows = true
is_no_rows _ = false

-- `pgErr.Code == "23505"`.
abbrev pub is_unique_violation : Error → Bool
is_unique_violation unique_violation = true
is_unique_violation _ = false

-- What the server and the network decide while a request runs, by the number of the call: the
-- value of `gen_random_uuid()` in it, and whether it fails. `now` is the server's clock, and
-- `locked` tells the rows that other transactions hold.
pub record Env : Type 0 where
  pub uuid : ℕ → Uuid
  pub now : Timestamptz
  pub fails : ℕ → Bool
  pub locked : Uuid → Bool

-- The database as the running code sees it, and the driver calls made so far.
pub record Tx (S : Type 0) : Type 0 where
  pub db : S
  pub calls : ℕ

abbrev pub Action : Type 0 → Type 0 → Type 0
Action S A = Tx S → Result A × Tx S

module _ {S : Type 0} where
  abbrev pub tick : Tx S → Tx S
  tick w = record w { calls = suc w.calls }

module _ {S A : Type 0} where
  unfoldable pub pure : A → Action S A
  pure a w = (ok a, w)

  unfoldable pub raise : Error → Action S A
  raise e w = (err e, w)

  unfoldable pub lift : Result A → Action S A
  lift r w = (r, w)

  -- Hands an error over as a value, as a Go call does.
  unfoldable pub attempt : Action S A → Action S (Result A)
  attempt m w = let (r, w') = m w in (ok r, w')

  -- What `if err != nil` makes of an error.
  unfoldable pub answer : Result A → (Error → Action S A) → Action S A
  answer (ok a) h w = (ok a, w)
  answer (err e) h w = h e w

  unfoldable pub on_error : Action S A → (Error → Action S A) → Action S A
  unfolding answer
  on_error m h w = let (r, w') = m w in answer r h w'

  -- A statement that the server runs: it works on the whole database, and sees a new uuid.
  unfoldable pub settle : Result (A × S) → Tx S → Result A × Tx S
  settle (ok (a, d)) w = (ok a, record { db = d; calls = suc w.calls })
  settle (err e) w = (err e, tick w)

  unfoldable pub statement : Env → (Uuid → S → Result (A × S)) → Action S A
  unfolding settle
  statement env body w =
      if env.fails w.calls then (err failure, tick w) else settle (body (env.uuid w.calls) w.db) w

  -- The body of a query that only reads.
  abbrev pub reading : (S → A) → Uuid → S → Result (A × S)
  reading f _ d = ok (f d, d)

  -- `WithTx` from the end of `fn`: COMMIT, or the deferred ROLLBACK to the database `old`.
  unfoldable pub finish : Env → S → Result A → Tx S → Result A × Tx S
  finish env old (err e) w = (err e, record w { db = old })
  finish env old (ok a) w =
      if env.fails w.calls
      then (err failure, record { db = old; calls = suc w.calls })
      else (ok a, tick w)

  -- BEGIN takes a call, and so does COMMIT.
  unfoldable pub with_tx : Env → Action S A → Action S A
  unfolding finish
  with_tx env fn w =
      if env.fails w.calls
      then (err failure, tick w)
      else (let (r, w') = fn (tick w) in finish env w.db r w')

module _ {S A B : Type 0} where
  unfoldable pub continue : Result A → (A → Action S B) → Action S B
  continue (ok a) f w = f a w
  continue (err e) f w = (err e, w)

  infixl 5 ◌>>=◌ ◌>>◌
  unfoldable pub ◌>>=◌ : Action S A → (A → Action S B) → Action S B
  unfolding continue pure raise lift attempt on_error
  ◌>>=◌ m f w = let (r, w') = m w in continue r f w'

  abbrev pub ◌>>◌ : Action S A → Action S B → Action S B
  m >> k = m >>= λ _. k
