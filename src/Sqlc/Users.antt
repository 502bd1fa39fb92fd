-- ===== src/Sqlc/Users.antt =====
-- The queries on users (internal/sqlc/users.sql.go).
use study_ticket_reservation.Base.{not, ◌||◌, ◌∷◌, any, select, Bool, if◌then◌else◌}
use study_ticket_reservation.Base.Text.{Text, text_eq}
use study_ticket_reservation.Db.Types.{Uuid, Timestamptz, same_uuid}
use study_ticket_reservation.Db.Tx.{
  unique_violation, constraint_violation, Result, ok, err, Env, Action, statement,
}
use study_ticket_reservation.Sqlc.Models.{User}
use study_ticket_reservation.Sqlc.Database.{Database, one}

pub record CreateUserParams : Type 0 where
  pub email : Text
  pub password_hash : Text

abbrev pub new_user : Timestamptz → Uuid → CreateUserParams → User
new_user now id arg = record {
  id = id;
  email = arg.email;
  password_hash = arg.password_hash;
  created_at = now;
  updated_at = now;
}

-- The primary key, and UNIQUE (email).
unfoldable pub insert_user :
    Timestamptz → CreateUserParams → Uuid → Database → Result (User × Database)
insert_user now arg id d =
    if not id.valid
    then err constraint_violation
    else if any (λ u. same_uuid u.id id || text_eq u.email arg.email) d.users
    then err unique_violation
    else (let row = new_user now id arg in ok (row, record d { users = row ∷ d.users }))

abbrev pub one_user : (User → Bool) → Database → Result (User × Database)
one_user test d = elim (one (select test d.users)) [ ok u ↦ ok (u, d) | err e ↦ err e ]

module _ (env : Env) where
  unfoldable pub create_user : CreateUserParams → Action Database User
  unfolding statement insert_user
  create_user arg = statement env (insert_user env.now arg)

  unfoldable pub get_user_by_email : Text → Action Database User
  unfolding statement
  get_user_by_email email = statement env λ _. one_user λ u. text_eq u.email email

  unfoldable pub get_user_by_id : Uuid → Action Database User
  unfolding statement
  get_user_by_id id = statement env λ _. one_user λ u. same_uuid u.id id
