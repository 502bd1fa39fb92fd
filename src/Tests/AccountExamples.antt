-- ===== src/Tests/AccountExamples.antt =====
-- The theorems on the accounts, at one user whose password is its hash.
use study_ticket_reservation.Base.{ℕ, refl, false, Option, some, List, [], ◌∷◌}
use study_ticket_reservation.Base.Text.{text, text_eq}
use study_ticket_reservation.Db.Tx.{Tx}
use study_ticket_reservation.Db.Transactions.{Settled}
use study_ticket_reservation.Db.Outcomes.{Outcome}
use study_ticket_reservation.Sqlc.Models.{User}
use study_ticket_reservation.Sqlc.Database.{Database}
use study_ticket_reservation.Sessions.Creation.{SessionService}
use study_ticket_reservation.Auth.Service.{Auth, register, login}
use study_ticket_reservation.Accounts.Registration.{Registers, RegisterFails, register_lem}
use study_ticket_reservation.Accounts.Login.{LogsIn, LoginFails, login_lem}
use study_ticket_reservation.Tests.Samples.{uuid, at, calm, fresh}

abbrev session_service : SessionService
session_service = record { hash = λ token. token; ttl = 1000; cookie_secure = false }

-- Every text is lower case, and a hash is the password itself.
abbrev auth : Auth
auth = record {
  lower = λ c. c;
  generate = λ password. some password;
  compares = λ password_hash password. text_eq password_hash password;
  sessions = session_service;
}

abbrev user : User
user = record {
  id = uuid b'U';
  email = text "a@b";
  password_hash = text "password";
  created_at = at 0;
  updated_at = at 0;
}

abbrev from_user : Tx Database
from_user = record { db = record fresh { users = user ∷ [] }; calls = 0 }

register_lem_example :
    Settled
      (Registers (calm 200) auth (text " c@d ") (text "long enough") from_user)
      (RegisterFails (calm 200) auth (text " c@d ") (text "long enough") from_user)
      from_user.db
      (register (calm 200) auth (text " c@d ") (text "long enough") from_user)
register_lem_example =
    register_lem (calm 200) auth (text " c@d ") (text "long enough") from_user (refl, tt)

abbrev drawn : Option (List ℕ)
drawn = some (1 ∷ 2 ∷ 3 ∷ [])

-- The cookie hashes to the token hash of the session in the database.
login_lem_example :
    Outcome
      (LogsIn auth (text "a@b") (text "password") from_user.db)
      (LoginFails auth (text "a@b") (text "password") from_user.db)
      (login (calm 200) auth drawn 5 6 (some (text "h")) (text "a@b") (text "password") from_user)
login_lem_example =
    login_lem (calm 200) auth drawn 5 6 (some (text "h")) (text "a@b") (text "password") from_user
