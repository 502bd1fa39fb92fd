-- ===== src/Inventory/Batch.antt =====
-- ExpireExpiredReservations: the batch expires as a whole, and every reservation in it is ready.
use study_ticket_reservation.Base.{
  ℕ, suc, ◌<◌, ◌≡◌, refl, ap, ◌∙◌, true, false, not, List, [], ◌∷◌, map, any, select, take, length,
  sort_by, All, All-select, All-sort_by, All-take, arith,
}
use study_ticket_reservation.Base.Int.{pos, leb_ℤ}
use study_ticket_reservation.Db.Types.{Timestamptz, same_uuid}
use study_ticket_reservation.Db.Equality.{same_uuid_comm}
use study_ticket_reservation.Db.Tx.{failure, Env}
use study_ticket_reservation.Db.Triples.{
  Triple, Triple-statement, Triple-bind, Triple-pure, Triple-each, Triple-assume,
}
use study_ticket_reservation.Db.Transactions.{Transacts, Transacts-with_tx}
use study_ticket_reservation.Sqlc.Models.{Reservation, reserved, expired, status_eq}
use study_ticket_reservation.Sqlc.Database.{Database}
use study_ticket_reservation.Sqlc.Reservations.Headers.{
  set_status, expiry_le, is_overdue, overdue_batch, list_expired_reservations_for_update,
}
use study_ticket_reservation.Reservations.Service.{timestamp}
use study_ticket_reservation.Reservations.Lifecycle.{expire_all, expire_expired_reservations}
use study_ticket_reservation.Inventory.Tables.{
  All-mono, All-both, All-select_test, any-update_where,
}
use study_ticket_reservation.Inventory.Invariant.{Inv, IsTyped, IsCovered}
use study_ticket_reservation.Inventory.Distinct.{
  Distinct-select, Distinct-take, Distinct-sort_by, All-found,
}
use study_ticket_reservation.Inventory.Counters.{Distinct}
use study_ticket_reservation.Inventory.Headers.{retitled}
use study_ticket_reservation.Inventory.Transitions.{MovedTo, IsReady, expire_locked-Triple}

-- The headers after each row of the batch took the status `expired`.
abbrev pub all_expired : Timestamptz → List Reservation → List Reservation → List Reservation
all_expired now [] headers = headers
all_expired now (r ∷ rows) headers = all_expired now rows (retitled now r.id expired headers)

module _ (env : Env) where
  -- A transition of one reservation leaves the others ready.
  still-IsReady :
      (d0 d : Database) (inv : Inv d0) (r u : Reservation) (rows : List Reservation)
      → MovedTo env r.id d0 inv expired u d
      → any (same_uuid r.id) (map (λ s. s.id) rows) ≡ false
      → All (IsReady d0) rows
      → All (IsReady d) rows
  still-IsReady d0 d inv r u [] m n ready = tt
  still-IsReady d0 d inv r u (s ∷ rows) m n ready = (
    (
      rw m.1 (
          any-update_where (λ t. same_uuid t.id s.id) (λ t. same_uuid t.id r.id)
            (set_status env.now expired) d0.reservations (λ t. refl)
          ∙ ready.0.0),
      ready.0.1,
      λ q. m.4 s.id (same_uuid_comm s.id r.id ∙ ground arith) ∙ ready.0.2 q,
    ),
    still-IsReady d0 d inv r u rows m (ground arith) ready.1,
  )

  -- The loop counts its rows, and leaves each of them expired.
  abbrev pub Expired : List Reservation → Database → ℕ → Database → Type 0
  Expired rows d0 n d =
      (n ≡ length rows) × Inv d × (d.reservations ≡ all_expired env.now rows d0.reservations)

  expire_all-Triple :
      (rows : List Reservation) (d0 : Database)
      → Inv d0
      → All (IsReady d0) rows
      → Distinct (map (λ r. r.id) rows)
      → Triple (λ d. d ≡ d0) (expire_all env rows) (Expired rows d0) (λ e. e ≡ failure)
  unfolding expire_all
  expire_all-Triple [] d0 inv ready apart = Triple-pure 0 (λ d e. (refl, rw e inv, rw e refl))
  expire_all-Triple (r ∷ rows) d0 inv ready apart =
      Triple-bind _ _ (expire_locked-Triple env d0 inv r ready.0) λ u. Triple-each _ _ _ _ λ d1 m.
        Triple-bind _ _
          (expire_all-Triple rows d1 m.0 (still-IsReady d0 d1 inv r u rows m apart.0 ready.1)
            apart.1)
          λ n.
            Triple-pure (suc n) (λ d h. (ap suc h.0, h.1, h.2 ∙ ap (all_expired env.now rows) m.1))

  -- The rows that the query returns.
  abbrev pub batch : Timestamptz → ℕ → Database → List Reservation
  batch now limit d = take limit (
      select (λ r. not (env.locked r.id))
        (sort_by expiry_le (select (is_overdue now) d.reservations)))

  module _ (now : Timestamptz) (limit : ℕ) (d : Database) (inv : Inv d) where
    All-IsReady : All (λ r. status_eq r.status reserved ≡ true → IsReady d r) d.reservations
    All-IsReady =
        All-mono
          (λ r.
            (any (λ s. same_uuid s.id r.id) d.reservations ≡ true)
            × (IsTyped r × IsCovered d.reservation_items r))
          _ d.reservations (λ r (found, (t, c)) s. (found, t.1, λ q. ground arith))
          (All-both _ _ d.reservations
            (All-found (λ r. r.id) d.reservations
              (All-mono IsTyped _ d.reservations (λ r t. t.2) inv.typed))
            (All-both IsTyped (IsCovered d.reservation_items) d.reservations inv.typed inv.covered))

    batch-IsReady : All (IsReady d) (batch now limit d)
    batch-IsReady = All-take (IsReady d) limit _ (
        All-select (IsReady d) _ _ (
          All-sort_by (IsReady d) expiry_le _ (
            All-select_test _ (IsReady d) (is_overdue now) d.reservations
              (λ r h o. h (ground arith)) All-IsReady)))

    pub batch-Distinct : Distinct (map (λ r. r.id) (batch now limit d))
    batch-Distinct =
        Distinct-take (λ r. r.id) limit _
          (Distinct-select (λ r. r.id) _ _
            (Distinct-sort_by (λ r. r.id) expiry_le _
              (Distinct-select (λ r. r.id) (is_overdue now) d.reservations
                inv.distinct_reservations)))

  -- With a positive limit, the batch expires as a whole, and its length is the answer; or the server
  -- fails, and the database is as it was.
  pub expire_expired_reservations-Transacts :
      (now : ℕ) (limit : ℕ) (d0 : Database)
      → 0 < limit
      → Inv d0
      → Transacts
          (λ d. d ≡ d0)
          (expire_expired_reservations env now (pos limit))
          (Expired (batch (timestamp now) limit d0) d0)
          (λ e. e ≡ failure)
  unfolding expire_expired_reservations list_expired_reservations_for_update overdue_batch
  expire_expired_reservations-Transacts now limit d0 positive inv =
      let goes_on : leb_ℤ (pos limit) (pos 0) ≡ false = ground arith in
      rw goes_on (
        Transacts-with_tx env _
          (Triple-bind {R = λ rows d. (rows ≡ batch (timestamp now) limit d0) × (d ≡ d0)} _ _
            (Triple-statement env (λ _. overdue_batch env.locked (timestamp now) (pos limit))
              (λ _ d e. rw e (refl, refl)) refl)
            λ rows.
              Triple-assume _ (λ d. d ≡ d0) _ _ _
                λ e. rw e (
                  expire_all-Triple (batch (timestamp now) limit d0) d0 inv
                    (batch-IsReady (timestamp now) limit d0 inv)
                    (batch-Distinct (timestamp now) limit d0 inv)))
          refl)
