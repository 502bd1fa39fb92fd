-- ===== src/Sqlc/Sessions.antt =====
-- The queries on visitor_sessions (internal/sqlc/sessions.sql.go).
use study_ticket_reservation.Base.{Bool, not, ◌&&◌, ◌||◌, ◌∷◌, any, select, if◌then◌else◌}
use study_ticket_reservation.Base.Text.{Text, text_eq}
use study_ticket_reservation.Db.Types.{Uuid, Timestamptz, null_uuid, same_uuid}
use study_ticket_reservation.Db.Tx.{
  unique_violation, constraint_violation, Result, ok, err, Env, Action, statement,
}
use study_ticket_reservation.Sqlc.Models.{VisitorSession}
use study_ticket_reservation.Sqlc.Database.{Database, update_where, one}

abbrev pub one_session : (VisitorSession → Bool) → Database → Result (VisitorSession × Database)
one_session test d = elim (one (select test d.visitor_sessions)) [
  | ok s ↦ ok (s, d)
  | err e ↦ err e
]

abbrev pub touched : Timestamptz → VisitorSession → VisitorSession
touched now s = record s { last_seen_at = now; updated_at = now }

-- `UPDATE visitor_sessions SET last_seen_at = now(), updated_at = now() WHERE id`, with the row that
-- it returns.
unfoldable pub touch_session : Timestamptz → Uuid → Database → Result (VisitorSession × Database)
touch_session now id d =
    one_session (λ s. same_uuid s.id id)
      (record d {
        visitor_sessions = update_where (λ s. same_uuid s.id id) (touched now) d.visitor_sessions;
      })

pub record CreateVisitorSessionParams : Type 0 where
  pub anonymous_token_hash : Text
  pub last_seen_at : Timestamptz
  pub expires_at : Timestamptz

abbrev pub new_session : Timestamptz → Uuid → CreateVisitorSessionParams → VisitorSession
new_session now id arg = record {
  id = id;
  user_id = null_uuid;
  anonymous_token_hash = arg.anonymous_token_hash;
  created_at = now;
  updated_at = now;
  last_seen_at = arg.last_seen_at;
  expires_at = arg.expires_at;
}

-- NOT NULL, the primary key, and UNIQUE (anonymous_token_hash).
unfoldable pub insert_session :
    Timestamptz → CreateVisitorSessionParams → Uuid → Database → Result (VisitorSession × Database)
insert_session now arg id d =
    if not (id.valid && arg.last_seen_at.valid && arg.expires_at.valid)
    then err constraint_violation
    else if any (λ s. same_uuid s.id id || text_eq s.anonymous_token_hash arg.anonymous_token_hash)
        d.visitor_sessions
    then err unique_violation
    else (let row = new_session now id arg in
        ok (row, record d { visitor_sessions = row ∷ d.visitor_sessions }))

pub record AttachUserToVisitorSessionParams : Type 0 where
  pub id : Uuid
  pub user_id : Uuid

abbrev pub attached : Timestamptz → Uuid → VisitorSession → VisitorSession
attached now user_id s = record s { user_id = user_id; updated_at = now }

-- `UPDATE visitor_sessions SET user_id WHERE id`, with the row that it returns; FOREIGN KEY (user_id)
-- refuses a user that does not exist, if there is a row to change.
unfoldable pub attach_session :
    Timestamptz → AttachUserToVisitorSessionParams → Database → Result (VisitorSession × Database)
attach_session now arg d =
    if any (λ s. same_uuid s.id arg.id) d.visitor_sessions
      && arg.user_id.valid
      && not (any (λ u. same_uuid u.id arg.user_id) d.users)
    then err constraint_violation
    else one_session (λ s. same_uuid s.id arg.id)
        (record d {
          visitor_sessions =
              update_where (λ s. same_uuid s.id arg.id) (attached now arg.user_id)
                d.visitor_sessions;
        })

module _ (env : Env) where
  unfoldable pub attach_user_to_visitor_session :
      AttachUserToVisitorSessionParams → Action Database VisitorSession
  unfolding statement attach_session
  attach_user_to_visitor_session arg = statement env λ _. attach_session env.now arg

  unfoldable pub create_visitor_session :
      CreateVisitorSessionParams → Action Database VisitorSession
  unfolding statement insert_session
  create_visitor_session arg = statement env (insert_session env.now arg)

  unfoldable pub get_visitor_session_by_id : Uuid → Action Database VisitorSession
  unfolding statement
  get_visitor_session_by_id id = statement env λ _. one_session λ s. same_uuid s.id id

  unfoldable pub get_visitor_session_by_token_hash : Text → Action Database VisitorSession
  unfolding statement
  get_visitor_session_by_token_hash hash =
      statement env λ _. one_session λ s. text_eq s.anonymous_token_hash hash

  unfoldable pub touch_visitor_session : Uuid → Action Database VisitorSession
  unfolding statement touch_session
  touch_visitor_session id = statement env λ _. touch_session env.now id
