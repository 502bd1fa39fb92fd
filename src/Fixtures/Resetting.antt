-- ===== src/Fixtures/Resetting.antt =====
-- What Reset removes (internal/modules/stressadmin): the events whose name matches, and all that belongs
-- to them.
use study_ticket_reservation.Base.{
  ℕ, ◌≡◌, refl, sym, ap, ◌∙◌, Bool, true, false, List, [], ◌∷◌, length, select, ◌⊎◌, inl, inr,
  Bool-cases, ◌==◌, arith,
}
use study_ticket_reservation.Base.Text.{Text}
use study_ticket_reservation.Db.Types.{Uuid}
use study_ticket_reservation.Db.Tx.{
  Error, failure, constraint_violation, ok, Env, Action, statement, ◌>>◌,
}
use study_ticket_reservation.Db.Triples.{
  BodyPost, Triple, Triple-statement, Triple-reading, Triple-bind, Triple-pure, Triple-assume,
  Triple-if,
}
use study_ticket_reservation.Db.Transactions.{Transacts, Transacts-with_tx}
use study_ticket_reservation.Sqlc.Models.{Event, Reservation}
use study_ticket_reservation.Sqlc.Database.{Database, any_id}
use study_ticket_reservation.Sqlc.StressAdmin.{
  stress_event_ids, delete_where, of_events, among, delete_reservation_seats,
  delete_reservation_items, delete_reservations, events_in_use, delete_events, delete_stress_events,
  delete_stress_reservation_items, delete_stress_reservation_seats, delete_stress_reservations,
  list_stress_event_ids,
}
use study_ticket_reservation.StressAdmin.Repository

-- The database without the events `ids` and what belongs to them.
abbrev pub without : List Uuid → Database → Database
without ids d = record d {
  events = delete_where (λ e. any_id e.id ids) d.events;
  ticket_types = delete_where (λ t. any_id t.event_id ids) d.ticket_types;
  seats = delete_where (λ s. any_id s.event_id ids) d.seats;
  reservations = delete_where (of_events ids) d.reservations;
  reservation_items =
      delete_where (λ i. among i.reservation_id ids d.reservations) d.reservation_items;
  reservation_seats =
      delete_where (λ row. among row.reservation_id ids d.reservations) d.reservation_seats;
}

module _ {A : Type 0} where
  -- A cascade after an explicit DELETE finds nothing.
  delete_where-twice :
      (test : A → Bool) (xs : List A)
      → delete_where test (delete_where test xs) ≡ delete_where test xs
  delete_where-twice test [] = refl
  delete_where-twice test (x ∷ xs) = ground (arith, delete_where-twice test xs)

  delete_where-none :
      (test : A → Bool) (xs : List A) → ((x : A) → test x ≡ false) → delete_where test xs ≡ xs
  delete_where-none test [] h = refl
  delete_where-none test (x ∷ xs) h = rw (h x, delete_where-none test xs h) refl

among-none : (id : Uuid) (rs : List Reservation) → among id [] rs ≡ false
among-none id [] = refl
among-none id (r ∷ rs) = ground (arith, among-none id rs)

without-none : (d : Database) → without [] d ≡ d
without-none d =
    rw
      (
        delete_where-none (λ e. any_id e.id []) d.events (λ _. refl),
        delete_where-none (λ t. any_id t.event_id []) d.ticket_types (λ _. refl),
        delete_where-none (λ s. any_id s.event_id []) d.seats (λ _. refl),
        delete_where-none (of_events []) d.reservations (λ _. refl),
        delete_where-none (λ i. among i.reservation_id [] d.reservations) d.reservation_items
            (λ i. among-none i.reservation_id d.reservations),
        delete_where-none (λ row. among row.reservation_id [] d.reservations) d.reservation_seats
            (λ row. among-none row.reservation_id d.reservations),
      )
      refl

-- After the DELETEs of the rows that belong to the events, and their cascades.
abbrev unreserved : List Uuid → Database → Database
unreserved ids d =
    delete_reservations ids (delete_reservation_items ids (delete_reservation_seats ids d))

abbrev pub IsRefused : Error → Type 0
IsRefused e = (e ≡ constraint_violation) ⊎ (e ≡ failure)

-- The number of deleted events, and what is left.
abbrev pub Removes : List Uuid → Database → ℕ → Database → Type 0
Removes ids d0 deleted d =
    (d ≡ without ids d0) × (deleted ≡ length (select (λ e. any_id e.id ids) d0.events))

delete_events-Post :
    (ids : List Uuid) (d0 : Database)
    → BodyPost (Removes ids d0) IsRefused (delete_events ids (unreserved ids d0))
unfolding delete_events delete_reservations delete_reservation_items delete_reservation_seats
delete_events-Post ids d0 = elim (Bool-cases (events_in_use ids (unreserved ids d0))) [
  | inl used ↦ rw used (inl refl)
  | inr free ↦
      rw
        (
          free,
          delete_where-twice (λ i. among i.reservation_id ids d0.reservations) d0.reservation_items,
          delete_where-twice (λ row. among row.reservation_id ids d0.reservations)
              d0.reservation_seats,
        )
        (refl, refl)
]

empty_of_length : (ids : List Uuid) → length ids == 0 ≡ true → ids ≡ []
empty_of_length [] h = refl
empty_of_length (id ∷ ids) h = absurd (ground arith)

none_deleted : (es : List Event) → length (select (λ e. any_id e.id []) es) ≡ 0
none_deleted [] = refl
none_deleted (e ∷ es) = none_deleted es

module _ (env : Env) (pattern : Text) (d0 : Database) where
  -- A DELETE whose result the next step does not use.
  deletes :
      {A : Type 0} {Q : A → Database → Type 0}
      → (change : Database → Database) (d : Database) (next : Action Database A)
      → Triple (λ x. x ≡ change d) next Q IsRefused
      → Triple (λ x. x ≡ d) (do statement env (λ _ x. ok (tt {0}, change x)); next) Q IsRefused
  deletes change d next h =
      Triple-bind {R = λ (_ : Unit {0}) x. x ≡ change d} _ _
        (Triple-statement env (λ _ x. ok (tt, change x)) (λ _ x e. ap change e) (inr refl)) λ _. h

  pub reset-Transacts :
      Transacts
        (λ d. d ≡ d0)
        (Repository.reset env pattern)
        (Removes (stress_event_ids pattern d0) d0)
        IsRefused
  unfolding Repository.reset list_stress_event_ids delete_stress_events
      delete_stress_reservation_items delete_stress_reservation_seats delete_stress_reservations
  reset-Transacts =
      Transacts-with_tx env _
        (Triple-bind {R = λ ids d. (ids ≡ stress_event_ids pattern d0) × (d ≡ d0)} _ _
          (Triple-reading env (stress_event_ids pattern)
            (λ d e. (ap (stress_event_ids pattern) e, e)) (inr refl))
          λ ids.
            Triple-assume (ids ≡ stress_event_ids pattern d0) (λ d. d ≡ d0) _ _ _
              λ found.
                Triple-if (length ids == 0) _ _
                  (λ empty. Triple-pure 0 (λ d e.
                    let nil : stress_event_ids pattern d0 ≡ [] =
                      sym found ∙ empty_of_length ids empty in
                    rw nil (e ∙ sym (without-none d0), sym (none_deleted d0.events))))
                  (λ _. rw (← found) (
                    deletes (delete_reservation_seats ids) d0 _ (
                      deletes (delete_reservation_items ids) _ _ (
                        deletes (delete_reservations ids) _ _ (
                          Triple-statement env (λ _. delete_events ids)
                            (λ _ d e. rw e (delete_events-Post ids d0)) (inr refl)))))))
        (inr refl)
