-- ===== src/Inventory/SessionLookup.antt =====
-- GetCurrentSession on a database that keeps the invariant of the inventory.
use study_ticket_reservation.Base.{
  ℕ, ◌≡◌, refl, Bool, Option, none, some, select, length, ltb, ◌==◌,
}
use study_ticket_reservation.Base.Text.{Text, text_eq}
use study_ticket_reservation.Db.Types.{Uuid, Timestamptz, same_uuid, timestamptz_to_time}
use study_ticket_reservation.Db.Tx.{session_required, Result, ok, err, Env}
use study_ticket_reservation.Db.Triples.{
  BodyPost, BodyPost-mono, Keeps, Keeps-raise, Keeps-if, Keeps-bind, Keeps-on_error,
}
use study_ticket_reservation.Db.Attempts.{Keeps-statement}
use study_ticket_reservation.Sqlc.Models.{VisitorSession}
use study_ticket_reservation.Sqlc.Database.{Database, update_where, one}
use study_ticket_reservation.Sqlc.Sessions.{
  one_session, touched, touch_session, get_visitor_session_by_token_hash, touch_visitor_session,
}
use study_ticket_reservation.Sessions.{get_current_session}
use study_ticket_reservation.Inventory.Invariant.{Inv}

-- The session lookup changes no inventory.
sessions-Inv :
    (d d' : Database) → Inv d → d' ≡ record d { visitor_sessions = d'.visitor_sessions } → Inv d'
sessions-Inv d d' inv e = rw e (record {
  counted = inv.counted;
  distinct_tickets = inv.distinct_tickets;
  positive = inv.positive;
  known = inv.known;
  owned = inv.owned;
  owned_seats = inv.owned_seats;
  distinct_reservations = inv.distinct_reservations;
  typed = inv.typed;
  covered = inv.covered;
  exclusive = inv.exclusive;
})

one_session-Post :
    (test : VisitorSession → Bool) (d : Database)
    → BodyPost (λ _ d'. d' ≡ d) (λ _. Unit {0}) (one_session test d)
one_session-Post test d = by_result (one (select test d.visitor_sessions)) refl
  where
    by_result :
        (r : Result VisitorSession)
        → one (select test d.visitor_sessions) ≡ r
        → BodyPost (λ _ d'. d' ≡ d) (λ _. Unit {0}) (one_session test d)
    by_result (ok s) e = rw (e, one_session) refl
    by_result (err x) e = rw (e, one_session) tt

touched-Inv :
    (now : Timestamptz) (id : Uuid) (d : Database)
    → Inv d
    → BodyPost (λ _ d'. Inv d') (λ _. Unit {0}) (touch_session now id d)
unfolding touch_session
touched-Inv now id d inv =
    let d1 : Database = record d {
      visitor_sessions = update_where (λ s. same_uuid s.id id) (touched now) d.visitor_sessions;
    } in
    BodyPost-mono (λ _ d'. d' ≡ d1) _ _ _ (touch_session now id d)
      (λ _ d' e. rw e (sessions-Inv d d1 inv refl)) (λ e h. h)
      (one_session-Post (λ s. same_uuid s.id id) d1)

-- It keeps the invariant, whatever comes of it.
pub get_current_session-Keeps :
    (env : Env) (hash : Text → Text) (now : ℕ) (cookie : Option Text)
    → Keeps Inv (get_current_session env hash now cookie)
unfolding get_current_session get_visitor_session_by_token_hash touch_visitor_session
get_current_session-Keeps env hash now none = Keeps-raise session_required
get_current_session-Keeps env hash now (some cookie) =
    Keeps-if (length cookie == 0) _ _ (Keeps-raise session_required) (
      Keeps-bind _ _
        (Keeps-on_error _ _
          (Keeps-statement env (λ _. one_session λ s. text_eq s.anonymous_token_hash (hash cookie))
            (λ _ d inv.
              BodyPost-mono _ _ _ _
                (one_session (λ s. text_eq s.anonymous_token_hash (hash cookie)) d)
                (λ _ d' e. rw e inv) (λ e h. h) (one_session-Post _ d)))
          (λ e. Keeps-raise _))
        λ session.
          Keeps-if (ltb (timestamptz_to_time session.expires_at) now) _ _
            (Keeps-raise session_required)
            (Keeps-statement env (λ _. touch_session env.now session.id)
              (λ _ d inv. touched-Inv env.now session.id d inv)))
