-- ===== src/Inventory/Replies.antt =====
-- The lifecycle handlers on a database that keeps the invariant.
use mathlib.Core.Option.{some-injective}
use study_ticket_reservation.Base.{
  ℕ, ◌≡◌, ◌⊎◌, refl, ap, ◌∙◌, Bool, true, false, Option, none, some, inl, inr,
}
use study_ticket_reservation.Base.Text.{Text, text, text_eq}
use study_ticket_reservation.Db.Types.{Uuid}
use study_ticket_reservation.Db.Parse.{parse_uuid}
use study_ticket_reservation.Db.Tx.{
  Error, reservation_cannot_cancel, reservation_cannot_confirm, session_required, Result, ok, err,
  Env, Action, pure, attempt, ◌>>=◌,
}
use study_ticket_reservation.Db.Triples.{Triple, Triple-bind, Triple-pure, Triple-each}
use study_ticket_reservation.Db.Transactions.{Transacts}
use study_ticket_reservation.Db.Attempts.{Triple-attempt_keeps, Tried, Triple-attempt_tx}
use study_ticket_reservation.Sqlc.Models.{
  Status, reserved, confirmed, cancelled, expired, other_status, VisitorSession,
}
use study_ticket_reservation.Sqlc.Database.{Database}
use study_ticket_reservation.Reservations.Dto.{ReservationResponse}
use study_ticket_reservation.Reservations.Service.{Service}
use study_ticket_reservation.Reservations.Lifecycle.{
  Outcome, cancel_reservation, confirm_reservation,
}
use study_ticket_reservation.Http.{Reply, answered, refused}
use study_ticket_reservation.Reservations.Handler.{
  cancel_error, confirm_error, for_session, for_id, reply_outcome, with_session_and_id,
  handle_cancel_reservation, handle_confirm_reservation,
}
use study_ticket_reservation.Inventory.Invariant.{Inv}
use study_ticket_reservation.Inventory.Requests.{IsRefusal}
use study_ticket_reservation.Inventory.SessionLookup.{get_current_session-Keeps}
use study_ticket_reservation.Inventory.Lifecycle.{
  after_cancel, after_confirm, AnswersFound, cancel_reservation-Transacts,
  confirm_reservation-Transacts,
}

-- A payload is sent with 200 and the status that was asked for, and no request ends as
-- RESERVATION_INCONSISTENT.
abbrev pub IsConsistent : Status → Reply ReservationResponse → Type 0
IsConsistent target (answered status_code response) =
    (status_code ≡ 200) × (response.status ≡ target)
IsConsistent target (refused status_code code message) =
    text_eq code (text "RESERVATION_INCONSISTENT") ≡ false

-- A machine reports no refusal only when it reaches `target`, and one kind of refusal otherwise.
abbrev Reaches : Status → Error → Status × Option Error → Type 0
Reaches target refusal next = (next ≡ (target, none)) ⊎ (next.1 ≡ some refusal)

cancel-Reaches :
    (s : Status) (past : Bool) → Reaches cancelled reservation_cannot_cancel (after_cancel s past)
cancel-Reaches reserved true = inr refl
cancel-Reaches reserved false = inl refl
cancel-Reaches confirmed past = inr refl
cancel-Reaches cancelled past = inl refl
cancel-Reaches expired past = inr refl
cancel-Reaches (other_status _) past = inr refl

confirm-Reaches :
    (s : Status) (past : Bool) → Reaches confirmed reservation_cannot_confirm (after_confirm s past)
confirm-Reaches reserved true = inr refl
confirm-Reaches reserved false = inl refl
confirm-Reaches confirmed past = inl refl
confirm-Reaches cancelled past = inr refl
confirm-Reaches expired past = inr refl
confirm-Reaches (other_status _) past = inr refl

module _ (env : Env) (session : VisitorSession) (d0 : Database) (inv : Inv d0) (now : ℕ)
    (id : Uuid) where
  -- The reply to what a transition returned.
  module _ (after : Status → Bool → Status × Option Error) (target : Status) (refusal : Error)
      (on_failure : Error → Reply ReservationResponse)
      (reaches : (s : Status) (past : Bool) → Reaches target refusal (after s past))
      (fine : (e : Error)
        → (IsRefusal e ⊎ (e ≡ refusal))
        → IsConsistent target (on_failure e)) where
    answer-IsConsistent :
        (r : ReservationResponse) (refused_by : Option Error) (next : Status × Option Error)
        → Reaches target refusal next
        → r.status ≡ next.0
        → refused_by ≡ next.1
        → IsConsistent target (reply_outcome on_failure (ok (r, refused_by)))
    unfolding reply_outcome
    answer-IsConsistent r none next (inl e) s f = (refl, s ∙ ap (λ x. x.0) e)
    answer-IsConsistent r none next (inr e) s f = cc
    answer-IsConsistent r (some x) next (inl e) s f =
        let nothing : next.1 ≡ none = ap (λ x. x.1) e in cc
    answer-IsConsistent r (some x) next (inr e) s f = fine x (inr (some-injective _ _ (f ∙ e)))

    reply-IsConsistent :
        (result : Result Outcome) (d : Database)
        → Tried (AnswersFound env session d0 inv now id after) IsRefusal d0 result d
        → Inv d × IsConsistent target (reply_outcome on_failure result)
    unfolding reply_outcome
    reply-IsConsistent (ok (response, refused_by)) d (r, found, answers) = (
      answers.keeps,
      answer-IsConsistent response refused_by _ (reaches r.status _) answers.status answers.refusal,
    )
    reply-IsConsistent (err e) d (f, same) = (rw same inv, fine e (inl f))

module _ (env : Env) (s : Service) (hash : Text → Text) (seen now : ℕ) (cookie : Option Text)
    (raw : Text) where
  -- From the session and the id on, a handler is its transition and the reply.
  by_transition :
      (target : Status) (on_failure : Error → Reply ReservationResponse)
      (transition : VisitorSession → Uuid → Action Database Outcome)
      (Q : (d0 : Database) → Inv d0 → VisitorSession → Uuid → Outcome → Database → Type 0)
      → ((session : VisitorSession) (id : Uuid) (d0 : Database) (inv : Inv d0)
          → Transacts (λ d. d ≡ d0) (transition session id) (Q d0 inv session id) IsRefusal)
      → ((session : VisitorSession) (id : Uuid) (d0 : Database) (inv : Inv d0)
            (result : Result Outcome) (d : Database)
          → Tried (Q d0 inv session id) IsRefusal d0 result d
          → Inv d × IsConsistent target (reply_outcome on_failure result))
      → Triple Inv
          (with_session_and_id env s hash seen cookie raw λ session id. do
            result ← attempt (transition session id)
            pure (reply_outcome on_failure result))
          (λ reply d. Inv d × IsConsistent target reply)
          (λ _. ⊥)
  unfolding with_session_and_id for_session for_id text_eq
  by_transition target on_failure transition Q runs replies =
      Triple-bind {R = λ _ d. Inv d} _ _
        (Triple-attempt_keeps _ (get_current_session-Keeps env hash seen cookie)) by_session
    where
      by_id :
          (session : VisitorSession) (id : Result Uuid)
          → Triple Inv
              (for_id id λ id. do
                result ← attempt (transition session id)
                pure (reply_outcome on_failure result))
              (λ reply d. Inv d × IsConsistent target reply)
              (λ _. ⊥)
      by_id session (ok id) = Triple-each _ _ _ _ λ d0 inv.
          Triple-bind _ _ (Triple-attempt_tx _ (runs session id d0 inv))
            λ result. Triple-pure _ (λ d t. replies session id d0 inv result d t)
      by_id session (err e) = Triple-pure _ (λ d inv. (inv, refl))

      by_session :
          (found : Result VisitorSession)
          → Triple Inv
              (for_session found λ session. for_id (parse_uuid s.scan raw) λ id. do
                result ← attempt (transition session id)
                pure (reply_outcome on_failure result))
              (λ reply d. Inv d × IsConsistent target reply)
              (λ _. ⊥)
      by_session (ok session) = by_id session (parse_uuid s.scan raw)
      by_session (err session_required) = Triple-pure _ (λ d inv. (inv, refl))
      by_session (err _) = Triple-pure _ (λ d inv. (inv, refl))

  cancel-fine :
      (e : Error)
      → (IsRefusal e ⊎ (e ≡ reservation_cannot_cancel))
      → IsConsistent cancelled (cancel_error e)
  unfolding cancel_error text_eq
  cancel-fine e (inl (inl h)) = rw h refl
  cancel-fine e (inl (inr h)) = rw h refl
  cancel-fine e (inr h) = rw h refl

  confirm-fine :
      (e : Error)
      → (IsRefusal e ⊎ (e ≡ reservation_cannot_confirm))
      → IsConsistent confirmed (confirm_error e)
  unfolding confirm_error text_eq
  confirm-fine e (inl (inl h)) = rw h refl
  confirm-fine e (inl (inr h)) = rw h refl
  confirm-fine e (inr h) = rw h refl

  -- The cancel handler always replies and keeps the invariant: a payload comes with 200 and the status
  -- `cancelled`, and no reply is RESERVATION_INCONSISTENT.
  pub handle_cancel_reservation-IsConsistent :
      Triple Inv
        (handle_cancel_reservation env s hash seen cookie now raw)
        (λ reply d. Inv d × IsConsistent cancelled reply)
        (λ _. ⊥)
  unfolding handle_cancel_reservation
  handle_cancel_reservation-IsConsistent =
      by_transition cancelled cancel_error (λ session id. cancel_reservation env session now id)
        (λ d0 inv session id. AnswersFound env session d0 inv now id after_cancel)
        (λ session id d0 inv. cancel_reservation-Transacts env session d0 inv now id)
        (λ session id d0 inv.
          reply-IsConsistent env session d0 inv now id after_cancel cancelled
            reservation_cannot_cancel cancel_error cancel-Reaches cancel-fine)

  -- The confirm handler always replies and keeps the invariant: a payload comes with 200 and the status
  -- `confirmed`, and no reply is RESERVATION_INCONSISTENT.
  pub handle_confirm_reservation-IsConsistent :
      Triple Inv
        (handle_confirm_reservation env s hash seen cookie now raw)
        (λ reply d. Inv d × IsConsistent confirmed reply)
        (λ _. ⊥)
  unfolding handle_confirm_reservation
  handle_confirm_reservation-IsConsistent =
      by_transition confirmed confirm_error (λ session id. confirm_reservation env session now id)
        (λ d0 inv session id. AnswersFound env session d0 inv now id after_confirm)
        (λ session id d0 inv. confirm_reservation-Transacts env session d0 inv now id)
        (λ session id d0 inv.
          reply-IsConsistent env session d0 inv now id after_confirm confirmed
            reservation_cannot_confirm confirm_error confirm-Reaches confirm-fine)
