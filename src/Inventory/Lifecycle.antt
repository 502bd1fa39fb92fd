-- ===== src/Inventory/Lifecycle.antt =====
-- CancelReservation and ConfirmReservation against the state machine of a reservation.
use study_ticket_reservation.Base.{
  ℕ, ◌≡◌, refl, sym, ap, ◌∙◌, Bool, true, false, Option, none, some, inl, inr, Bool-cases,
  if◌then◌else◌,
}
use study_ticket_reservation.Db.Types.{Uuid}
use study_ticket_reservation.Db.Tx.{
  Error, failure, reservation_cannot_cancel, reservation_cannot_confirm, Env, Action, ◌>>=◌,
  with_tx,
}
use study_ticket_reservation.Db.Triples.{Triple, Triple-bind, Triple-weaken, Triple-assume}
use study_ticket_reservation.Db.Transactions.{Transacts, Transacts-with_tx}
use study_ticket_reservation.Sqlc.Models.{
  Reservation, Status, reserved, confirmed, cancelled, expired, other_status, status_eq,
  VisitorSession,
}
use study_ticket_reservation.Sqlc.Database.{Database, known_status, known_type}
use study_ticket_reservation.Reservations.Dto.{ReservationResponse}
use study_ticket_reservation.Reservations.Responses.{reservation_expired}
use study_ticket_reservation.Reservations.Lifecycle.{
  lock_accessible, respond, or_expire, cancel_by_status, confirm_by_status, cancel_reservation,
  confirm_reservation,
}
use study_ticket_reservation.Inventory.Invariant.{Inv}
use study_ticket_reservation.Inventory.Headers.{retitled}
use study_ticket_reservation.Inventory.Transitions.{
  MovedTo, IsReady, cancel_locked-Triple, confirm_locked-Triple, expire_locked-Triple,
}
use study_ticket_reservation.Inventory.Requests.{
  IsRefusal, Found, IsSelected, lock-Triple, respond-Triple,
}

-- The status that a request to cancel leads to, and the refusal that it reports; `past` tells whether
-- the deadline has passed.
abbrev pub after_cancel : Status → (past : Bool) → Status × Option Error
after_cancel reserved true = (expired, some reservation_cannot_cancel)
after_cancel reserved false = (cancelled, none)
after_cancel cancelled past = (cancelled, none)
after_cancel s past = (s, some reservation_cannot_cancel)

abbrev pub after_confirm : Status → (past : Bool) → Status × Option Error
after_confirm reserved true = (expired, some reservation_cannot_confirm)
after_confirm reserved false = (confirmed, none)
after_confirm confirmed past = (confirmed, none)
after_confirm s past = (s, some reservation_cannot_confirm)

-- The answer says what the machine says; a reserved header takes the new status, and anything else
-- stays as it was.
pub record Answers (env : Env) (d0 : Database) (r : Reservation) (next : Status × Option Error)
    (answer : ReservationResponse × Option Error) (d : Database) : Type 0 where
  pub status : answer.0.status ≡ next.0
  pub refusal : answer.1 ≡ next.1
  pub keeps : Inv d
  pub headers :
      status_eq r.status reserved ≡ true
      → d.reservations ≡ retitled env.now r.id next.0 d0.reservations
  pub unchanged : status_eq r.status reserved ≡ false → d ≡ d0

module _ (env : Env) (session : VisitorSession) (d0 : Database) (inv : Inv d0) (r : Reservation)
    (now : ℕ) where
  abbrev IsUpdated : Status → Reservation → Type 0
  IsUpdated target updated =
      (updated.status ≡ target) × (known_type updated.reservation_type ≡ true)

  abbrev IsMoved : Status → Database → Type 0
  IsMoved target d = Inv d × (d.reservations ≡ retitled env.now r.id target d0.reservations)

  settled_row :
      (next : Status × Option Error)
      → known_type r.reservation_type ≡ true
      → status_eq r.status reserved ≡ false
      → r.status ≡ next.0
      → Triple (λ d. d ≡ d0) (respond env session next.1 r) (Answers env d0 r next) IsRefusal
  settled_row next k other same =
      Triple-weaken _ _ _ _ _ _ _ (respond-Triple env session r next.1 (λ d. d ≡ d0) k) (λ d e. e)
        (λ answer d h. record {
          status = h.0 ∙ same;
          refusal = h.1;
          keeps = rw h.2 inv;
          headers = λ e. cc;
          unchanged = λ _. h.2;
        })
        (λ e h. h)

  moved_row :
      (target : Status) (refused : Option Error) (m : Action Database Reservation)
      → status_eq r.status reserved ≡ true
      → Triple (λ d. d ≡ d0) m (MovedTo env r.id d0 inv target) (λ e. e ≡ failure)
      → Triple
          (λ d. d ≡ d0)
          (do updated ← m; respond env session refused updated)
          (Answers env d0 r (target, refused))
          IsRefusal
  moved_row target refused m s h =
      Triple-bind _ _
        (Triple-weaken _ _ (MovedTo env r.id d0 inv target) _ IsRefusal _ m h (λ d e. e)
          (λ _ d p. p) (λ e f. inl f))
        λ updated.
          Triple-weaken (MovedTo env r.id d0 inv target updated)
            (λ d. IsUpdated target updated × IsMoved target d) (Answers env d0 r (target, refused))
            (Answers env d0 r (target, refused)) IsRefusal IsRefusal _
            (Triple-assume (IsUpdated target updated) (IsMoved target) _ _ _ λ u.
              Triple-weaken _ _ _ _ _ _ _
                (respond-Triple env session updated refused (IsMoved target) u.1) (λ d p. p)
                (λ answer d h. record {
                  status = h.0 ∙ u.0;
                  refusal = h.1;
                  keeps = h.2.0;
                  headers = λ _. h.2.1;
                  unchanged = λ e. cc;
                })
                (λ e h. h))
            (λ d m. ((m.2, m.3), (m.0, m.1))) (λ _ d p. p) (λ e h. h)

  or_expire-Answers :
      (target : Status) (refusal : Error) (m : Action Database Reservation)
      → status_eq r.status reserved ≡ true
      → IsReady d0 r
      → Triple (λ d. d ≡ d0) m (MovedTo env r.id d0 inv target) (λ e. e ≡ failure)
      → Triple
          (λ d. d ≡ d0)
          (or_expire env session refusal now r m)
          (Answers env d0 r
            (if reservation_expired r now then (expired, some refusal) else (target, none)))
          IsRefusal
  unfolding or_expire
  or_expire-Answers target refusal m s ready h = elim (Bool-cases (reservation_expired r now)) [
    | inl past ↦
        rw past (moved_row expired (some refusal) _ s (expire_locked-Triple env d0 inv r ready))
    | inr ahead ↦ rw ahead (moved_row target none m s h)
  ]

  after_cancel-reserved :
      (past : Bool)
      → (if past then (expired, some reservation_cannot_cancel) else (cancelled, none))
        ≡ after_cancel reserved past
  after_cancel-reserved true = refl
  after_cancel-reserved false = refl

  after_confirm-reserved :
      (past : Bool)
      → (if past then (expired, some reservation_cannot_confirm) else (confirmed, none))
        ≡ after_confirm reserved past
  after_confirm-reserved true = refl
  after_confirm-reserved false = refl

  cancel_by_status-Answers :
      (s : Status)
      → r.status ≡ s
      → IsSelected env d0 inv r
      → Triple
          (λ d. d ≡ d0)
          (cancel_by_status env session s now r)
          (Answers env d0 r (after_cancel s (reservation_expired r now)))
          IsRefusal
  unfolding cancel_by_status status_eq
  cancel_by_status-Answers reserved e (t, ready) =
      rw (sym (after_cancel-reserved (reservation_expired r now))) (
        or_expire-Answers cancelled reservation_cannot_cancel _ (rw e refl) (ready (rw e refl))
          (cancel_locked-Triple env d0 inv r (ready (rw e refl))))
  cancel_by_status-Answers confirmed e (t, ready) = settled_row _ t.1 (rw e refl) e
  cancel_by_status-Answers cancelled e (t, ready) = settled_row _ t.1 (rw e refl) e
  cancel_by_status-Answers expired e (t, ready) = settled_row _ t.1 (rw e refl) e
  cancel_by_status-Answers (other_status _) e (t, ready) =
      let broken : known_status r.status ≡ false = ap known_status e in cc

  confirm_by_status-Answers :
      (s : Status)
      → r.status ≡ s
      → IsSelected env d0 inv r
      → Triple
          (λ d. d ≡ d0)
          (confirm_by_status env session s now r)
          (Answers env d0 r (after_confirm s (reservation_expired r now)))
          IsRefusal
  unfolding confirm_by_status status_eq
  confirm_by_status-Answers reserved e (t, ready) =
      rw (sym (after_confirm-reserved (reservation_expired r now))) (
        or_expire-Answers confirmed reservation_cannot_confirm _ (rw e refl) (ready (rw e refl))
          (confirm_locked-Triple env d0 inv r (ready (rw e refl))))
  confirm_by_status-Answers confirmed e (t, ready) = settled_row _ t.1 (rw e refl) e
  confirm_by_status-Answers cancelled e (t, ready) = settled_row _ t.1 (rw e refl) e
  confirm_by_status-Answers expired e (t, ready) = settled_row _ t.1 (rw e refl) e
  confirm_by_status-Answers (other_status _) e (t, ready) =
      let broken : known_status r.status ≡ false = ap known_status e in cc

module _ (env : Env) (session : VisitorSession) (d0 : Database) (inv : Inv d0) (now : ℕ)
    (id : Uuid) where
  -- The answer of the machine on the row that the request finds.
  abbrev pub AnswersFound :
      (Status → Bool → Status × Option Error)
      → ReservationResponse × Option Error
      → Database
      → Type 0
  AnswersFound after answer d =
      (r : Reservation) × Found session id d0 r
      × Answers env d0 r (after r.status (reservation_expired r now)) answer d

  by_row :
      (after : Status → Bool → Status × Option Error)
      (step : Reservation → Action Database (ReservationResponse × Option Error))
      → ((r : Reservation)
          → IsSelected env d0 inv r
          → Triple
              (λ d. d ≡ d0)
              (step r)
              (Answers env d0 r (after r.status (reservation_expired r now)))
              IsRefusal)
      → Transacts
          (λ d. d ≡ d0)
          (with_tx env (do r ← lock_accessible env session id; step r))
          (AnswersFound after)
          IsRefusal
  by_row after step h =
      Transacts-with_tx env _
        (Triple-bind _ _ (lock-Triple env d0 inv session id) λ r.
          Triple-assume (Found session id d0 r × IsSelected env d0 inv r) (λ d. d ≡ d0) _ _ _
            λ (found, selected).
              Triple-weaken _ _ _ _ _ _ _ (h r selected) (λ d e. e) (λ _ d a. (r, found, a))
                (λ e p. p))
        (inl refl)

  -- A request to cancel that finds its reservation answers as the machine does and keeps the
  -- invariant; any other reports that the server failed or that there is no such reservation, and
  -- leaves the database as it was.
  pub cancel_reservation-Transacts :
      Transacts
        (λ d. d ≡ d0)
        (cancel_reservation env session now id)
        (AnswersFound after_cancel)
        IsRefusal
  unfolding cancel_reservation
  cancel_reservation-Transacts =
      by_row after_cancel _ λ r. cancel_by_status-Answers env session d0 inv r now r.status refl

  -- The same of a request to confirm.
  pub confirm_reservation-Transacts :
      Transacts
        (λ d. d ≡ d0)
        (confirm_reservation env session now id)
        (AnswersFound after_confirm)
        IsRefusal
  unfolding confirm_reservation
  confirm_reservation-Transacts =
      by_row after_confirm _ λ r. confirm_by_status-Answers env session d0 inv r now r.status refl
