-- ===== src/Inventory/Requests.antt =====
-- The row that a lifecycle request locks, and the response that it builds.
use study_ticket_reservation.Base.{
  ◌⊎◌, ◌≡◌, refl, Bool, true, not, Option, List, [], ◌∷◌, select, arith, inl, inr,
}
use study_ticket_reservation.Db.Types.{Uuid, same_uuid}
use study_ticket_reservation.Db.Equality.{eq_of_same_uuid}
use study_ticket_reservation.Db.Tx.{Error, failure, no_rows, reservation_not_found, ok, Env}
use study_ticket_reservation.Db.Triples.{
  BodyPost, BodyPost-mono, Triple, Triple-statement, Triple-reading, Triple-bind, Triple-pure,
  Triple-on_error, Triple-if, Triple-raise, Triple-assume,
}
use study_ticket_reservation.Sqlc.Models.{
  Reservation, ReservationItem, ReservationType, by_quantity, by_seats, other_type, reserved,
  status_eq, is_quantity, VisitorSession,
}
use study_ticket_reservation.Sqlc.Database.{Database, known_type, one}
use study_ticket_reservation.Sqlc.Reservations.Headers.{select_one, lock_reservation_for_update}
use study_ticket_reservation.Sqlc.Reservations.Items.{items_of, list_reservation_items}
use study_ticket_reservation.Sqlc.Reservations.Holds.{seats_of, list_reservation_seats}
use study_ticket_reservation.Reservations.Responses.{
  can_access_reservation, details_response, details_by_type, build_reservation_response,
}
use study_ticket_reservation.Reservations.Lifecycle.{lock_accessible, respond}
use study_ticket_reservation.Inventory.Tables.{All-selected, any-selected, All-both}
use study_ticket_reservation.Inventory.Invariant.{Inv, IsTyped, IsCovered, has_item}
use study_ticket_reservation.Inventory.Transitions.{IsReady}

-- The errors that a lifecycle request reports when it changes nothing.
abbrev pub IsRefusal : Error → Type 0
IsRefusal e = (e ≡ failure) ⊎ (e ≡ reservation_not_found)

-- The row that the request finds and may touch.
abbrev pub Found : VisitorSession → Uuid → Database → Reservation → Type 0
Found session id d r =
    (one (select (λ r. same_uuid r.id id) d.reservations) ≡ ok r)
    × (can_access_reservation r session ≡ true)

ready-covered :
    (items : List ReservationItem) (r : Reservation)
    → IsCovered items r
    → status_eq r.status reserved ≡ true
    → is_quantity r.reservation_type ≡ true
    → has_item r.id items ≡ true
ready-covered items r c s q = ground arith

-- A `:one` query: the first row, or no row.
module _ (test : Reservation → Bool) (d : Database) where
  pub select_one-Post :
      BodyPost
        (λ r d'. ((rs : List Reservation) × (select test d.reservations ≡ r ∷ rs)) × (d' ≡ d))
        (λ e. e ≡ no_rows)
        (select_one test d)
  select_one-Post = by_rows (select test d.reservations) refl
    where
      by_rows :
          (rows : List Reservation)
          → select test d.reservations ≡ rows
          → BodyPost
              (λ r d'. ((rs : List Reservation) × (select test d.reservations ≡ r ∷ rs)) × (d' ≡ d))
              (λ e. e ≡ no_rows)
              (select_one test d)
      by_rows [] e = rw (e, select_one) refl
      by_rows (r ∷ rs) e = rw (e, select_one) ((rs, refl), refl)

module _ (env : Env) (d0 : Database) (inv : Inv d0) where
  abbrev Locked : Uuid → Reservation → Type 0
  Locked id r = (rs : List Reservation) × (select (λ r. same_uuid r.id id) d0.reservations ≡ r ∷ rs)

  -- A selected row is well-typed, and ready for a transition if it is reserved.
  abbrev pub IsSelected : Reservation → Type 0
  IsSelected r = IsTyped r × (status_eq r.status reserved ≡ true → IsReady d0 r)

  first-IsSelected :
      (id : Uuid) (r : Reservation) (rs : List Reservation)
      → select (λ r. same_uuid r.id id) d0.reservations ≡ r ∷ rs
      → IsSelected r
  first-IsSelected id r rs e =
      let row =
        All-selected (λ r. IsTyped r × IsCovered d0.reservation_items r) (λ r. same_uuid r.id id)
          d0.reservations r rs e
          (All-both IsTyped (IsCovered d0.reservation_items) d0.reservations inv.typed
            inv.covered) in
      let found = any-selected (λ r. same_uuid r.id id) d0.reservations r rs e in
      let same : r.id ≡ id = eq_of_same_uuid r.id id row.1 in
      (row.0.0, λ s. (rw same found, row.0.0.1, ready-covered d0.reservation_items r row.0.1 s))

  pub lock-Triple :
      (session : VisitorSession) (id : Uuid)
      → Triple
          (λ d. d ≡ d0)
          (lock_accessible env session id)
          (λ r d. (Found session id d0 r × IsSelected r) × (d ≡ d0))
          IsRefusal
  unfolding lock_accessible lock_reservation_for_update
  lock-Triple session id =
      Triple-bind _ _
        (Triple-on_error {Q = λ r d. Locked id r × (d ≡ d0)}
          {F = λ e. (e ≡ failure) ⊎ (e ≡ no_rows)} _ _
          (Triple-statement env (λ _. select_one λ r. same_uuid r.id id)
            (λ _ d e. rw e (
              BodyPost-mono _ _ _ _ (select_one (λ r. same_uuid r.id id) d0) (λ r d' h. (h.0, h.1))
                (λ e h. inr h) (select_one-Post (λ r. same_uuid r.id id) d0)))
            (inl refl))
          (λ e h. elim h [ inl f ↦ rw f (inl refl) | inr n ↦ rw n (inr refl) ]))
        λ r.
          Triple-assume (Locked id r) (λ d. d ≡ d0) _ _ _
            λ (rs, e).
              Triple-if (not (can_access_reservation r session)) _ _
                (λ no. Triple-raise reservation_not_found (inr refl))
                (λ yes.
                  Triple-pure r
                    (λ d h. (((rw e refl, ground arith), first-IsSelected id r rs e), h)))

-- The answer of a request: the row's status, and the error that goes with it.
module _ (env : Env) (session : VisitorSession) (r : Reservation) (refused : Option Error)
    (P : Database → Type 0) where
  details-Triple :
      (rt : ReservationType)
      → known_type rt ≡ true
      → Triple P
          (details_by_type env rt r)
          (λ response d. (response.status ≡ r.status) × P d)
          IsRefusal
  unfolding details_by_type details_response list_reservation_items list_reservation_seats
  details-Triple by_quantity k =
      Triple-bind {R = λ _ d. P d} _ _ (Triple-reading env (items_of r.id) (λ d p. p) (inl refl))
        λ items. Triple-pure _ (λ d p. (refl, p))
  details-Triple by_seats k =
      Triple-bind {R = λ _ d. P d} _ _ (Triple-reading env (seats_of r.id) (λ d p. p) (inl refl))
        λ items. Triple-pure _ (λ d p. (refl, p))
  details-Triple (other_type _) k = cc

  pub respond-Triple :
      known_type r.reservation_type ≡ true
      → Triple P
          (respond env session refused r)
          (λ (response, refusal) d. (response.status ≡ r.status) × (refusal ≡ refused) × P d)
          IsRefusal
  unfolding respond build_reservation_response
  respond-Triple k =
      Triple-bind _ _ (details-Triple r.reservation_type k)
        λ response. Triple-pure _ (λ d h. (h.0, refl, h.1))
