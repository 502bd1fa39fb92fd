-- ===== src/Consistency/Reached.antt =====
-- AssertConsistency (internal/modules/stressadmin/service.go) after the requests of the service.
use study_ticket_reservation.Base.{ℕ, ◌≡◌, true, false, All, ◌↔◌, ◌∙◌, sym, arith}
use study_ticket_reservation.Base.Int.{+ℤ_parts}
use study_ticket_reservation.Base.Text.{Text}
use study_ticket_reservation.Db.Types.{Timestamptz}
use study_ticket_reservation.Db.Tx.{Env, Tx, Result, ok, err}
use study_ticket_reservation.Db.Transactions.{Settled}
use study_ticket_reservation.Sqlc.Database.{Database}
use study_ticket_reservation.Sqlc.Reservations.Headers.{is_overdue}
use study_ticket_reservation.StressAdmin.Dto.{ConsistencyResponse}
use study_ticket_reservation.StressAdmin.Service.{stale_threshold, assert_consistency}
use study_ticket_reservation.Inventory.Tables.{All-mono}
use study_ticket_reservation.Inventory.Invariant.{
  Inv, IsOwned, IsHeld, reservation_ids, ids-headers,
}
use study_ticket_reservation.Inventory.Reachable.{IsFresh, fresh-Inv, Steps, Steps-Inv}
use study_ticket_reservation.Consistency.Report.{
  IsReservation, IsConsistent, Reports, IsOff, assert_consistency_lem,
}

-- The invariant leaves only stale reservations to find.
Inv-IsConsistent :
    (threshold : Timestamptz) (d : Database)
    → Inv d
    → All (λ r. is_overdue threshold r ≡ false) d.reservations
    → IsConsistent threshold d
Inv-IsConsistent threshold d inv fresh = record {
  not_negative =
      All-mono _ _ d.ticket_types
        (λ t c. (omega (arith, +ℤ_parts t.sold_quantity t.reserved_quantity, c.2), c.2.0, c.2.1))
        inv.counted;
  not_oversold = All-mono _ _ d.ticket_types (λ t c. c.2.2) inv.counted;
  exclusive = inv.exclusive;
  owned_items =
      All-mono (IsOwned (reservation_ids d)) (λ i. IsReservation i.reservation_id d)
        d.reservation_items (λ i o. sym (ids-headers i.reservation_id d.reservations) ∙ o)
        inv.owned;
  owned_seats =
      All-mono (IsHeld (reservation_ids d)) (λ row. IsReservation row.reservation_id d)
        d.reservation_seats (λ row o. sym (ids-headers row.reservation_id d.reservations) ∙ o)
        inv.owned_seats;
  not_stale = fresh;
}

-- Whatever the requests after a fresh catalogue, a request to assert consistency changes nothing, and
-- its answer is positive exactly if no reserved reservation ran out more than a minute ago: the other
-- five checks never fail.
pub Steps-consistent :
    (d : Database) (env : Env) (app_env : Text) (now : ℕ) (w : Tx Database)
    → IsFresh d
    → Steps d w.db
    → Settled
        (λ response d'.
          ((response.ok ≡ true)
            ↔ All (λ r. is_overdue (stale_threshold now) r ≡ false) w.db.reservations)
          × (d' ≡ w.db))
        (IsOff app_env)
        w.db
        (assert_consistency env app_env now w)
Steps-consistent d env app_env now w fresh steps =
    by_result (assert_consistency env app_env now w) (assert_consistency_lem env app_env now w)
  where
    by_result :
        (r : Result ConsistencyResponse × Tx Database)
        → Settled
            (λ response d'. Reports (stale_threshold now) w.db response × (d' ≡ w.db))
            (IsOff app_env)
            w.db
            r
        → Settled
            (λ response d'.
              ((response.ok ≡ true)
                ↔ All (λ r. is_overdue (stale_threshold now) r ≡ false) w.db.reservations)
              × (d' ≡ w.db))
            (IsOff app_env)
            w.db
            r
    by_result (ok response, w') h = (
      (
        λ e. (h.0.right.0 e).not_stale,
        λ all. h.0.right.1 (
            Inv-IsConsistent (stale_threshold now) w.db (Steps-Inv d w.db (fresh-Inv d fresh) steps)
              all),
      ),
      h.1,
    )
    by_result (err e, w') h = h
