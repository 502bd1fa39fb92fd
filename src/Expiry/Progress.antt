-- ===== src/Expiry/Progress.antt =====
-- What a batch of a later time leaves of the reservations that had run out at an earlier one
-- (internal/modules/reservations/service.go).
use study_ticket_reservation.Base.{
  ℕ, ◌+◌, ◌≤◌, ◌≡◌, refl, ap, false, not, List, [], ◌∷◌, select, sort_by, All, All-select,
  All-sort_by, All-take, ◌⊎◌, inl, inr, arith,
}
use study_ticket_reservation.Db.Types.{Uuid}
use study_ticket_reservation.Db.Equality.{same_uuid_refl}
use study_ticket_reservation.Db.Tx.{Env}
use study_ticket_reservation.Sqlc.Models.{Reservation}
use study_ticket_reservation.Sqlc.Database.{Database}
use study_ticket_reservation.Sqlc.Reservations.Headers.{is_overdue, expiry_le}
use study_ticket_reservation.Reservations.Service.{timestamp}
use study_ticket_reservation.Inventory.Tables.{All-mono}
use study_ticket_reservation.Inventory.Invariant.{Inv, IsTyped}
use study_ticket_reservation.Inventory.Batch.{all_expired, batch, batch-Distinct}
use study_ticket_reservation.Expiry.Counting.{count_overdue, IsThere, count_all_expired, select-all}
use study_ticket_reservation.Expiry.Oldest.{count_oldest}

module _ (env : Env) (now later : ℕ) (after : now ≤ later) (limit : ℕ) (d : Database)
    (inv : Inv d) where
  batch-IsThere :
      All (IsThere (timestamp now) env.now d.reservations) (batch env (timestamp later) limit d)
  batch-IsThere = All-take _ limit _ (
      All-select _ _ _
        (All-sort_by _ expiry_le _ (All-select _ _ _ (at_home d.reservations inv.typed))))
    where
      at_home :
          (rs : List Reservation) → All IsTyped rs → All (IsThere (timestamp now) env.now rs) rs
      at_home [] t = tt
      at_home (r ∷ rs) t = (
        λ o. rw (same_uuid_refl r.id t.0.2, o) refl,
        All-mono _ _ rs (λ s h o. ground (arith, h o)) (at_home rs t.1),
      )

  -- Where no row is locked, a batch takes as many of the early rows as it may, or all.
  count-batch :
      ((id : Uuid) → env.locked id ≡ false)
      → (count_overdue (timestamp now) (batch env (timestamp later) limit d) ≡ limit)
        ⊎ (count_overdue (timestamp now) (batch env (timestamp later) limit d)
            ≡ count_overdue (timestamp now) d.reservations)
  count-batch free =
      rw
        (select-all (λ r. not (env.locked r.id))
          (sort_by expiry_le (select (is_overdue (timestamp later)) d.reservations))
          (λ r. ap not (free r.id)))
        (count_oldest now later after limit d.reservations)

  -- After the batch, none of the early rows is left, or as many less as the batch may take.
  pub batch_progress :
      ((id : Uuid) → env.locked id ≡ false)
      → (d' : Database)
      → d'.reservations ≡ all_expired env.now (batch env (timestamp later) limit d) d.reservations
      → (count_overdue (timestamp now) d'.reservations ≡ 0)
        ⊎ (count_overdue (timestamp now) d'.reservations + limit
            ≤ count_overdue (timestamp now) d.reservations)
  batch_progress free d' e =
      let less =
        count_all_expired (timestamp now) env.now (batch env (timestamp later) limit d)
          d.reservations (batch-Distinct env (timestamp later) limit d inv) batch-IsThere in
      rw e (elim (count-batch free) [
        | inl full ↦ inr (omega (arith, less, full))
        | inr all ↦ inl (omega (arith, less, all))
      ])
