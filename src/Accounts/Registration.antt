-- ===== src/Accounts/Registration.antt =====
-- Register (internal/modules/auth/service.go) adds one user, and emails stay unique.
use study_ticket_reservation.Base.{
  ℕ, ◌+◌, ◌/◌, ◌%◌, ◌++◌, length, Bool, map, ◌≤◌, ◌≡◌, ◌≢◌, refl, true, false, not, ◌||◌, Option,
  none, some, List, [], ◌∷◌, any, ltb, ◌⊎◌, inl, inr, Bool-cases, arith, if◌then◌else◌,
}
use study_ticket_reservation.Base.Text.{Text, text_eq, eq_of_text_eq, trim_space}
use study_ticket_reservation.Db.Types.{Uuid, same_uuid}
use study_ticket_reservation.Db.Tx.{
  Error, constraint_violation, failure, invalid_register_request, email_already_registered,
  is_unique_violation, Env, Tx, raise, on_error, lift, statement, settle, answer, ◌>>=◌,
}
use study_ticket_reservation.Db.Transactions.{Settled}
use study_ticket_reservation.Sqlc.Models.{User}
use study_ticket_reservation.Sqlc.Database.{Database}
use study_ticket_reservation.Sqlc.Users.{insert_user, create_user}
use study_ticket_reservation.Auth.Service.{Auth, normalized, byte_length, hashed, register}

abbrev pub EmailsApart : List User → Type 0
EmailsApart [] = Unit
EmailsApart (u ∷ us) = (any (λ o. text_eq o.email u.email) us ≡ false) × EmailsApart us

-- The bytes of a text in UTF-8.
abbrev utf8_of : ℕ → List ℕ
utf8_of c =
    if ltb c 0x80
    then c ∷ []
    else if ltb c 0x800
    then (0xc0 + c / 64) ∷ (0x80 + c % 64) ∷ []
    else if ltb c 0x10000
    then (0xe0 + c / 4096) ∷ (0x80 + c / 64 % 64) ∷ (0x80 + c % 64) ∷ []
    else (0xf0 + c / 262144) ∷ (0x80 + c / 4096 % 64) ∷ (0x80 + c / 64 % 64) ∷ (0x80 + c % 64) ∷ []

abbrev pub utf8 : Text → List ℕ
utf8 [] = []
utf8 (c ∷ cs) = utf8_of c ++ utf8 cs

length-append : (xs ys : List ℕ) → length (xs ++ ys) ≡ length xs + length ys
length-append [] ys = omega arith
length-append (x ∷ xs) ys = omega (arith, length-append xs ys)

byte_length_lem : (s : Text) → byte_length s ≡ length (utf8 s)
unfolding byte_length
byte_length_lem [] = refl
byte_length_lem (c ∷ cs) =
    let rest = byte_length_lem cs in let both = length-append (utf8_of c) (utf8 cs) in ground arith

-- A trimmed email in lower case that is not empty, and a password of eight bytes or more.
abbrev pub IsAccount : Auth → (email password : Text) → Type 0
IsAccount a email password = (map a.lower (trim_space email) ≢ []) × (8 ≤ length (utf8 password))

-- Some user has the email, in lower case and trimmed.
abbrev pub IsKnown : Auth → (email : Text) → Database → Type 0
IsKnown a email d = any (λ u. text_eq u.email (map a.lower (trim_space email))) d.users ≡ true

-- Some user has the id.
abbrev pub IsUsed : Uuid → Database → Type 0
IsUsed id d = any (λ u. same_uuid u.id id) d.users ≡ true

-- One new user, with every column written out; the id is the one that the server draws in the call.
pub record Registers (env : Env) (a : Auth) (email password : Text) (w : Tx Database) (user : User)
    (d : Database) : Type 0 where
  pub accepted : IsAccount a email password
  pub password_hash : Text
  pub hashes : a.generate password ≡ some password_hash
  pub row : user ≡ record {
    id = env.uuid w.calls;
    email = map a.lower (trim_space email);
    password_hash = password_hash;
    created_at = env.now;
    updated_at = env.now;
  }
  pub unknown : ¬ IsKnown a email w.db
  pub unused : ¬ IsUsed (env.uuid w.calls) w.db
  pub added : d ≡ record w.db { users = user ∷ w.db.users }
  pub apart : EmailsApart d.users

-- A reason of each error.
abbrev pub RegisterFails : Env → Auth → (email password : Text) → Tx Database → Error → Type 0
RegisterFails env a email password w e =
    ((e ≡ invalid_register_request) × ¬ IsAccount a email password)
    ⊎ (IsAccount a email password
        × (((e ≡ email_already_registered)
              × (IsKnown a email w.db ⊎ IsUsed (env.uuid w.calls) w.db))
            ⊎ ((e ≡ constraint_violation) × ((env.uuid w.calls).valid ≡ false))
            ⊎ ((e ≡ failure) × ((a.generate password ≡ none) ⊎ (env.fails w.calls ≡ true)))))

any_or :
    (email : Text) (id : Uuid) (us : List User)
    → any (λ u. same_uuid u.id id || text_eq u.email email) us
      ≡ any (λ u. same_uuid u.id id) us || any (λ u. text_eq u.email email) us
any_or email id [] = refl
any_or email id (u ∷ us) = ground (arith, any_or email id us)

not_empty : (s : Text) → text_eq s [] ≡ false → s ≢ []
unfolding text_eq
not_empty s h e = let shown : text_eq s [] ≡ true = rw e refl in cc

module _ (env : Env) (a : Auth) (email password : Text) (w : Tx Database)
    (unique : EmailsApart w.db.users) (good : IsAccount a email password) where
  abbrev key : Text
  key = map a.lower (trim_space email)

  abbrev taken : Bool
  taken = any (λ u. same_uuid u.id (env.uuid w.calls) || text_eq u.email key) w.db.users

  taken_by : taken ≡ true → IsKnown a email w.db ⊎ IsUsed (env.uuid w.calls) w.db
  taken_by h =
      let split = any_or key (env.uuid w.calls) w.db.users in
      elim (Bool-cases (any (λ u. text_eq u.email key) w.db.users)) [
        | inl known ↦ inl known
        | inr unknown ↦ inr (ground arith)
      ]

  free_of :
      taken ≡ false
      → (any (λ u. text_eq u.email key) w.db.users ≡ false)
        × (any (λ u. same_uuid u.id (env.uuid w.calls)) w.db.users ≡ false)
  free_of h = let split = any_or key (env.uuid w.calls) w.db.users in (ground arith, ground arith)

  -- What is left once the password is hashed.
  inserts_user :
      (password_hash : Text)
      → a.generate password ≡ some password_hash
      → Settled (Registers env a email password w) (RegisterFails env a email password w) w.db (
          on_error
            (create_user env (record { email = key; password_hash = password_hash }))
            (λ e. raise (if is_unique_violation e then email_already_registered else e))
            w)
  unfolding create_user insert_user statement settle on_error answer raise
  inserts_user password_hash hashes = elim (Bool-cases (env.fails w.calls)) [
    | inl bad ↦ rw bad (inr (good, inr (inr (refl, inr bad))), refl)
    | inr runs ↦ elim (Bool-cases (not (env.uuid w.calls).valid)) [
      | inl null ↦ rw (runs, null) (inr (good, inr (inl (refl, ground arith))), refl)
      | inr valid ↦ elim (Bool-cases taken) [
        | inl old ↦ rw (runs, valid, old) (inr (good, inl (refl, taken_by old)), refl)
        | inr new ↦
            rw (runs, valid, new)
              (record {
                accepted = good;
                password_hash = password_hash;
                hashes = hashes;
                row = refl;
                unknown = λ known. let free = (free_of new).0 in cc;
                unused = λ used. let free = (free_of new).1 in cc;
                added = refl;
                apart = ((free_of new).0, unique);
              })
      ]
    ]
  ]

-- From users with different emails, a request to register either succeeds or fails. If it succeeds, the
-- trimmed email in lower case is not empty and no user's, the password has at least eight bytes, and
-- exactly one user is added, with the id that the server drew, which no user had, this email, a hash of
-- the password and the server's time, and emails are different again. If it fails, the database is as it
-- was, and either the error is `invalid_register_request` and the input is bad, or the input is good, and
-- the error is `email_already_registered` and a user has this email or the id that the server drew,
-- `constraint_violation` and this id is NULL, or `failure` and the password could not be hashed or the
-- call failed.
pub register_lem :
    (env : Env) (a : Auth) (email password : Text) (w : Tx Database)
    → EmailsApart w.db.users
    → Settled
        (Registers env a email password w)
        (RegisterFails env a email password w)
        w.db
        (register env a email password w)
unfolding register normalized hashed lift raise ◌>>=◌
register_lem env a email password w unique =
    let size = byte_length_lem password in
    elim (Bool-cases test) [
      | inl bad ↦
          rw bad
            (inl (refl, λ good. ground (arith, eq_of_text_eq (normalized a.lower email) [])), refl)
      | inr fine ↦ rw fine (
          hashing (not_empty (normalized a.lower email) (ground arith), ground arith)
            (a.generate password) refl)
    ]
  where
    test : Bool
    test = text_eq (normalized a.lower email) [] || ltb (byte_length password) 8

    hashing :
        IsAccount a email password
        → (h : Option Text) → a.generate password ≡ h
        → Settled (Registers env a email password w) (RegisterFails env a email password w) w.db (
            (do
              password_hash ← lift (hashed h)
              on_error
                  (create_user env
                    (record { email = normalized a.lower email; password_hash = password_hash }))
                  (λ e. raise (if is_unique_violation e then email_already_registered else e)))
              w)
    hashing good none same = (inr (good, inr (inr (refl, inl same))), refl)
    hashing good (some password_hash) same =
        inserts_user env a email password w unique good password_hash same
