-- ===== src/Accounts/Holders.antt =====
-- The session rows that GetCurrentSession, CreateAnonymousSession and AttachUser leave
-- (internal/modules/sessions/service.go).
use study_ticket_reservation.Base.{
  ◌≡◌, refl, ap, Bool, true, not, ◌&&◌, ◌||◌, List, [], ◌∷◌, any, select, ◌⊎◌, inl, inr, Bool-cases,
  arith, if◌then◌else◌,
}
use study_ticket_reservation.Base.Text.{Text, text_eq, eq_of_text_eq}
use study_ticket_reservation.Db.Types.{Uuid, Timestamptz, same_uuid}
use study_ticket_reservation.Db.Equality.{same_uuid_refl, same_uuid_symm}
use study_ticket_reservation.Db.Tx.{no_rows, unique_violation, constraint_violation, ok, err}
use study_ticket_reservation.Db.Triples.{BodyPost, BodyPost-mono}
use study_ticket_reservation.Sqlc.Models.{VisitorSession}
use study_ticket_reservation.Sqlc.Database.{Database, update_where, one}
use study_ticket_reservation.Sqlc.Sessions.{
  one_session, touched, touch_session, CreateVisitorSessionParams, insert_session,
  AttachUserToVisitorSessionParams, attached, attach_session,
}

abbrev pub Some : {A : Type 0} → (A → Type 0) → List A → Type 0
Some P [] = ⊥
Some P (x ∷ xs) = P x ⊎ Some P xs

-- A row with this hash and id.
abbrev pub IsHolder : (hash : Text) (id : Uuid) → VisitorSession → Type 0
IsHolder hash id s = (s.anonymous_token_hash ≡ hash) × (same_uuid s.id id ≡ true)

-- Only sessions differ.
abbrev pub SameButSessions : Database → Database → Type 0
SameButSessions d d' = d' ≡ record d { visitor_sessions = d'.visitor_sessions }

pub Some-update_where :
    {A : Type 0} (P Q : A → Type 0) (test : A → Bool) (change : A → A) (xs : List A)
    → ((x : A) → P x → Q (if test x then change x else x))
    → Some P xs
    → Some Q (update_where test change xs)
Some-update_where P Q test change [] h p = p
Some-update_where P Q test change (x ∷ xs) h (inl p) = inl (h x p)
Some-update_where P Q test change (x ∷ xs) h (inr p) =
    inr (Some-update_where P Q test change xs h p)

-- The first row that a test selects.
pub Some-selected :
    {A : Type 0} (test : A → Bool) (xs : List A) (y : A)
    → one (select test xs) ≡ ok y
    → Some (λ x. (x ≡ y) × (test x ≡ true)) xs
Some-selected test [] y h = cc
Some-selected test (x ∷ xs) y h = elim (Bool-cases (test x)) [
  | inl hit ↦ let same : x ≡ y = ground arith in inl (same, hit)
  | inr miss ↦ inr (Some-selected test xs y (rw miss at h))
]

pub Some-mono :
    {A : Type 0} (P Q : A → Type 0) (xs : List A) → ((x : A) → P x → Q x) → Some P xs → Some Q xs
Some-mono P Q [] h p = p
Some-mono P Q (x ∷ xs) h (inl p) = inl (h x p)
Some-mono P Q (x ∷ xs) h (inr p) = inr (Some-mono P Q xs h p)

pub one-selected :
    {A : Type 0} (test : A → Bool) (xs : List A) (y : A)
    → one (select test xs) ≡ ok y
    → test y ≡ true
one-selected test [] y h = cc
one-selected test (x ∷ xs) y h = elim (Bool-cases (test x)) [
  | inl hit ↦ let same : x ≡ y = ground arith in rw (← same) hit
  | inr miss ↦ one-selected test xs y (rw miss at h)
]

-- What a query for one session returns.
pub one_session-Post :
    (test : VisitorSession → Bool) (d : Database)
    → BodyPost
        (λ s d'. (one (select test d.visitor_sessions) ≡ ok s) × (d' ≡ d))
        (λ e. e ≡ no_rows)
        (one_session test d)
one_session-Post test d = found d.visitor_sessions
  where
    found :
        (ss : List VisitorSession)
        → BodyPost
            (λ s d'. (one (select test ss) ≡ ok s) × (d' ≡ d))
            (λ e. e ≡ no_rows)
            (elim (one (select test ss)) [ ok s ↦ ok (s, d) | err e ↦ err e ])
    found [] = refl
    found (s ∷ ss) = elim (Bool-cases (test s)) [
      | inl hit ↦ rw hit (refl, refl)
      | inr miss ↦ rw miss (found ss)
    ]

module _ (now : Timestamptz) where
  -- A touch keeps the row's hash, and returns the row of that id.
  pub touch_session-Post :
      (hash : Text) (s : VisitorSession) (d : Database)
      → Some (λ x. (x ≡ s) × (text_eq x.anonymous_token_hash hash ≡ true)) d.visitor_sessions
      → BodyPost
          (λ t d'. SameButSessions d d' × Some (IsHolder hash t.id) d'.visitor_sessions)
          (λ e. e ≡ no_rows)
          (touch_session now s.id d)
  unfolding touch_session
  touch_session-Post hash s d found =
      BodyPost-mono _ _ _ _ (touch_session now s.id d)
        (λ t d' h.
          let same : same_uuid t.id s.id ≡ true =
            one-selected (λ x. same_uuid x.id s.id)
              (update_where (λ x. same_uuid x.id s.id) (touched now) d.visitor_sessions) t h.0 in
          rw h.1 (
            refl,
            Some-update_where (λ x. (x ≡ s) × (text_eq x.anonymous_token_hash hash ≡ true))
                (IsHolder hash t.id) (λ x. same_uuid x.id s.id) (touched now) d.visitor_sessions
                (λ x p. holds t x same p) found,
          ))
        (λ e h. h) (one_session-Post (λ x. same_uuid x.id s.id) _)
    where
      holds :
          (t x : VisitorSession)
          → same_uuid t.id s.id ≡ true
          → (x ≡ s) × (text_eq x.anonymous_token_hash hash ≡ true)
          → IsHolder hash t.id (if same_uuid x.id s.id then touched now x else x)
      holds t x same p =
          let is : same_uuid x.id t.id ≡ true =
            rw (ap (λ y. y.id) p.0) (same_uuid_symm t.id s.id same) in
          let hashes = eq_of_text_eq x.anonymous_token_hash hash p.1 in
          elim (Bool-cases (same_uuid x.id s.id)) [
            | inl hit ↦ rw hit (hashes, is)
            | inr miss ↦ rw miss (hashes, is)
          ]

  pub attach_session-Post :
      (hash : Text) (arg : AttachUserToVisitorSessionParams) (d : Database)
      → Some (IsHolder hash arg.id) d.visitor_sessions
      → BodyPost
          (λ _ d'.
            SameButSessions d d'
            × Some
                (λ s. (s.anonymous_token_hash ≡ hash) × (s.user_id ≡ arg.user_id))
                d'.visitor_sessions)
          (λ e. (e ≡ no_rows) ⊎ (e ≡ constraint_violation))
          (attach_session now arg d)
  unfolding attach_session
  attach_session-Post hash arg d found =
      elim (Bool-cases (
        any (λ s. same_uuid s.id arg.id) d.visitor_sessions
        && arg.user_id.valid
        && not (any (λ u. same_uuid u.id arg.user_id) d.users))) [
          | inl bad ↦ rw bad (inr refl)
          | inr good ↦ rw good (
              BodyPost-mono _ _ _ _ (one_session (λ s. same_uuid s.id arg.id) changed)
                (λ _ d' h. rw h.1 (
                  refl,
                  Some-update_where (IsHolder hash arg.id)
                      (λ s. (s.anonymous_token_hash ≡ hash) × (s.user_id ≡ arg.user_id))
                      (λ s. same_uuid s.id arg.id) (attached now arg.user_id) d.visitor_sessions
                      (λ s p. rw p.1 (p.0, refl)) found,
                ))
                (λ e h. inl h) (one_session-Post (λ s. same_uuid s.id arg.id) changed))
        ]
    where
      changed : Database
      changed = record d {
        visitor_sessions =
            update_where (λ s. same_uuid s.id arg.id) (attached now arg.user_id) d.visitor_sessions;
      }

  -- A new session has the hash of its token.
  pub insert_session-Post :
      (arg : CreateVisitorSessionParams) (id : Uuid) (d : Database)
      → BodyPost
          (λ s d'.
            SameButSessions d d'
            × Some (IsHolder arg.anonymous_token_hash s.id) d'.visitor_sessions)
          (λ e. (e ≡ unique_violation) ⊎ (e ≡ constraint_violation))
          (insert_session now arg id d)
  unfolding insert_session
  insert_session-Post arg id d =
      elim (Bool-cases (not (id.valid && arg.last_seen_at.valid && arg.expires_at.valid))) [
        | inl bad ↦ rw bad (inr refl)
        | inr checked ↦
            elim (Bool-cases (
              any
                (λ s. same_uuid s.id id || text_eq s.anonymous_token_hash arg.anonymous_token_hash)
                d.visitor_sessions)) [
                  | inl taken ↦ rw (checked, taken) (inl refl)
                  | inr free ↦
                      rw (checked, free) (refl, inl (refl, same_uuid_refl id (ground arith)))
                ]
      ]
