-- ===== src/Consistency/Report.antt =====
-- The report of AssertConsistency (internal/modules/stressadmin/service.go) is right on every database.
use study_ticket_reservation.Base.{
  ℕ, ◌≡◌, refl, sym, ◌∙◌, Bool, true, false, ◌&&◌, List, [], any, All, ◌↔◌, ◌⊎◌, inl, inr,
  Bool-cases, arith,
}
use study_ticket_reservation.Base.Int.{pos, ◌+ℤ◌, ◌≤ℤ◌}
use study_ticket_reservation.Base.Text.{Text}
use study_ticket_reservation.Db.Types.{Uuid, Timestamptz, same_uuid}
use study_ticket_reservation.Db.Tx.{
  Error, failure, stress_admin_disabled, Env, Tx, Action, statement, reading, ◌>>=◌,
}
use study_ticket_reservation.Db.Transactions.{
  Settled, Transacts, Transacts-statement, Transacts-bind, Transacts-pure, Transacts-raise,
}
use study_ticket_reservation.Sqlc.Database.{Database, active_seats_unique}
use study_ticket_reservation.Sqlc.Reservations.Headers.{is_overdue}
use study_ticket_reservation.Sqlc.Consistency.{
  TicketQuantityRow, DuplicateActiveSeatRow, OrphanReservationItemRow, OrphanReservationSeatRow,
  StaleReservationRow, is_negative, is_oversold, is_orphan, quantity_rows, duplicate_seats,
  orphan_items, orphan_seats, stale_rows,
}
use study_ticket_reservation.StressAdmin.Dto.{ConsistencyResponse}
use study_ticket_reservation.StressAdmin.Service.{
  is_local, none_found, report, stale_threshold, assert_consistency,
}
use study_ticket_reservation.Consistency.Rows.{
  none_found-map, none_found-All, none_found-append, none_found-nil,
}
use study_ticket_reservation.Consistency.Duplicates.{none_found-duplicates}

-- A reservation with this id exists.
abbrev pub IsReservation : Uuid → Database → Type 0
IsReservation id d = any (λ r. same_uuid r.id id) d.reservations ≡ true

-- The rules of the inventory, and that no reserved reservation is past the threshold.
pub record IsConsistent (threshold : Timestamptz) (d : Database) : Type 0 where
  pub not_negative :
      All
        (λ t.
          (pos 0 ≤ℤ t.total_quantity) × (pos 0 ≤ℤ t.sold_quantity) × (pos 0 ≤ℤ t.reserved_quantity))
        d.ticket_types
  pub not_oversold :
      All (λ t. t.sold_quantity +ℤ t.reserved_quantity ≤ℤ t.total_quantity) d.ticket_types
  pub exclusive : active_seats_unique d.reservation_seats ≡ true
  pub owned_items : All (λ i. IsReservation i.reservation_id d) d.reservation_items
  pub owned_seats : All (λ row. IsReservation row.reservation_id d) d.reservation_seats
  pub not_stale : All (λ r. is_overdue threshold r ≡ false) d.reservations

-- The report on a database.
abbrev pub report_on : Timestamptz → Database → ConsistencyResponse
report_on threshold d =
    report (quantity_rows is_negative d) (quantity_rows is_oversold d) (duplicate_seats d)
      (orphan_items d) (orphan_seats d) (stale_rows threshold d)

module _ (threshold : Timestamptz) (d : Database) where
  not_negative_iff :
      (none_found (quantity_rows is_negative d) ≡ true)
      ↔ All
          (λ t.
            (pos 0 ≤ℤ t.total_quantity)
            × (pos 0 ≤ℤ t.sold_quantity)
            × (pos 0 ≤ℤ t.reserved_quantity))
          d.ticket_types
  not_negative_iff =
      none_found-All _ _ is_negative _ d.ticket_types (λ t. (λ h. ground arith, λ h. ground arith))

  not_oversold_iff :
      (none_found (quantity_rows is_oversold d) ≡ true)
      ↔ All (λ t. t.sold_quantity +ℤ t.reserved_quantity ≤ℤ t.total_quantity) d.ticket_types
  not_oversold_iff =
      none_found-All _ _ is_oversold _ d.ticket_types (λ t. (λ h. ground arith, λ h. ground arith))

  not_orphan : (id : Uuid) → (is_orphan id d ≡ false) ↔ IsReservation id d
  not_orphan id = (λ h. ground arith, λ h. ground arith)

  owned_items_iff :
      (none_found (orphan_items d) ≡ true)
      ↔ All (λ i. IsReservation i.reservation_id d) d.reservation_items
  unfolding orphan_items
  owned_items_iff =
      none_found-All _ _ (λ i. is_orphan i.reservation_id d) _ d.reservation_items
        (λ i. not_orphan i.reservation_id)

  owned_seats_iff :
      (none_found (orphan_seats d) ≡ true)
      ↔ All (λ row. IsReservation row.reservation_id d) d.reservation_seats
  unfolding orphan_seats
  owned_seats_iff =
      none_found-All _ _ (λ row. is_orphan row.reservation_id d) _ d.reservation_seats
        (λ row. not_orphan row.reservation_id)

  not_stale_iff :
      (none_found (stale_rows threshold d) ≡ true)
      ↔ All (λ r. is_overdue threshold r ≡ false) d.reservations
  unfolding stale_rows
  not_stale_iff = none_found-All _ _ (is_overdue threshold) _ d.reservations (λ r. (λ h. h, λ h. h))

  -- The report is positive exactly on a consistent database.
  report-IsConsistent : ((report_on threshold d).ok ≡ true) ↔ IsConsistent threshold d
  unfolding report
  report-IsConsistent = (
    λ e. record {
      not_negative = not_negative_iff.0 (ground arith);
      not_oversold = not_oversold_iff.0 (ground arith);
      exclusive = rw (← none_found-duplicates d) (ground arith);
      owned_items = owned_items_iff.0 (ground arith);
      owned_seats = owned_seats_iff.0 (ground arith);
      not_stale = not_stale_iff.0 (ground arith);
    },
    λ c.
        rw
          (
            not_negative_iff.1 c.not_negative,
            not_oversold_iff.1 c.not_oversold,
            none_found-duplicates d,
            c.exclusive,
            owned_items_iff.1 c.owned_items,
            owned_seats_iff.1 c.owned_seats,
            not_stale_iff.1 c.not_stale,
          )
          refl,
  )

-- The report is positive exactly if it lists no violation.
report-details :
    (negative oversold : List TicketQuantityRow) (duplicates : List DuplicateActiveSeatRow)
    (items : List OrphanReservationItemRow) (seats : List OrphanReservationSeatRow)
    (stale : List StaleReservationRow)
    → none_found (report negative oversold duplicates items seats stale).details
      ≡ (report negative oversold duplicates items seats stale).ok
unfolding report
report-details negative oversold duplicates items seats stale =
    simp (none_found-append, none_found-map)
      (reordered (none_found negative) (none_found oversold) (none_found duplicates)
        (none_found items) (none_found seats) (none_found stale))
  where
    reordered :
        (n o d i s t : Bool) → (n && (o && (d && (i && (s && t))))) ≡ (o && n && d && i && s && t)
    reordered n o d i s t = ground arith

-- What the response says of a database.
pub record Reports (threshold : Timestamptz) (d : Database) (response : ConsistencyResponse)
    : Type 0 where
  pub right : (response.ok ≡ true) ↔ IsConsistent threshold d
  pub explained : (response.ok ≡ true) ↔ (response.details ≡ [])

report_on-Reports :
    (threshold : Timestamptz) (d : Database) → Reports threshold d (report_on threshold d)
report_on-Reports threshold d =
    let same =
      report-details (quantity_rows is_negative d) (quantity_rows is_oversold d) (duplicate_seats d)
        (orphan_items d) (orphan_seats d) (stale_rows threshold d) in
    let empty = none_found-nil (report_on threshold d).details in
    record {
      right = report-IsConsistent threshold d;
      explained = (λ e. empty.0 (same ∙ e), λ e. sym same ∙ empty.1 e);
    }

-- The errors of a request: the endpoint is off, or a call failed.
abbrev pub IsOff : (app_env : Text) → Error → Type 0
IsOff app_env e =
    ((e ≡ stress_admin_disabled) × (is_local app_env ≡ false))
    ⊎ ((e ≡ failure) × (is_local app_env ≡ true))

module _ (env : Env) (app_env : Text) (now : ℕ) (d0 : Database) where
  -- One of the queries, whose rows the next step uses.
  reads :
      {A B : Type 0} {Q : B → Database → Type 0} {E : Error → Type 0}
      → (f : Database → A) (next : A → Action Database B) → E failure
      → Transacts (λ d. d ≡ d0) (next (f d0)) Q E
      → Transacts (λ d. d ≡ d0) (do rows ← statement env (reading f); next rows) Q E
  reads f next hf h =
      Transacts-bind {R = λ rows. rows ≡ f d0} (statement env (reading f)) next
        (Transacts-statement env (reading f) (λ _. (refl, refl)) hf) (λ rows e. rw e h)

  assert_consistency-Transacts :
      Transacts
        (λ d. d ≡ d0)
        (assert_consistency env app_env now)
        (λ response d. Reports (stale_threshold now) d0 response × (d ≡ d0))
        (IsOff app_env)
  unfolding assert_consistency
  assert_consistency-Transacts = elim (Bool-cases (is_local app_env)) [
    | inr off ↦ rw off (Transacts-raise _ (inl (refl, off)))
    | inl on ↦
        let hf : IsOff app_env failure = inr (refl, on) in
        rw on (
          reads (quantity_rows is_negative) _ hf (
            reads (quantity_rows is_oversold) _ hf (
              reads duplicate_seats _ hf (
                reads orphan_items _ hf (
                  reads orphan_seats _ hf (
                    reads (stale_rows (stale_threshold now)) _ hf
                      (Transacts-pure _ (report_on-Reports (stale_threshold now) d0, refl))))))))
  ]

-- A request to assert consistency changes nothing. If it succeeds, its answer is positive exactly if
-- no quantity is negative, no ticket type is oversold, no seat has two active rows, every item and
-- every row of a seat has its reservation, and no reserved reservation ran out more than a minute
-- ago; and it is positive exactly if no violation is listed. It fails only if the environment is
-- not a local one or a call failed.
pub assert_consistency_lem :
    (env : Env) (app_env : Text) (now : ℕ) (w : Tx Database)
    → Settled
        (λ response d. Reports (stale_threshold now) w.db response × (d ≡ w.db))
        (IsOff app_env)
        w.db
        (assert_consistency env app_env now w)
assert_consistency_lem env app_env now w =
    (assert_consistency-Transacts env app_env now w.db).at w refl
