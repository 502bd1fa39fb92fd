-- ===== src/StressAdmin/Service.antt =====
-- The operations of internal/modules/stressadmin/service.go. `now` is the service's clock, and `random`
-- what `rand.Read` makes of eight bytes: the bytes, or none if it fails.
use study_ticket_reservation.Base.{
  ℕ, ◌+◌, ◌-◌, ◌*◌, Bool, true, false, not, ◌&&◌, ◌||◌, Option, none, some, List, [], ◌∷◌, ◌++◌,
  map, ltb, length, if◌then◌else◌,
}
use study_ticket_reservation.Base.Text.{Text, text, text_eq}
use study_ticket_reservation.Db.Types.{Timestamptz, hex, uuid_to_string, timestamptz_to_time}
use study_ticket_reservation.Db.Tx.{
  failure, stress_admin_disabled, Result, ok, err, Env, Action, pure, raise, lift, ◌>>=◌,
}
use study_ticket_reservation.Sqlc.Models.{Seat}
use study_ticket_reservation.Sqlc.Database.{Database}
use study_ticket_reservation.Sqlc.Events.{CreateEventParams}
use study_ticket_reservation.Sqlc.Consistency.{
  TicketQuantityRow, DuplicateActiveSeatRow, OrphanReservationItemRow, OrphanReservationSeatRow,
  StaleReservationRow, list_negative_ticket_quantity_violations,
  list_oversold_ticket_quantity_violations, list_duplicate_active_seat_violations,
  list_orphan_reservation_item_violations, list_orphan_reservation_seat_violations,
  list_stale_expired_active_reservation_violations,
}
use study_ticket_reservation.Reservations.Service.{timestamp}
use study_ticket_reservation.StressAdmin.Dto.{
  SeedResponse, ResetResponse, ticket_quantities, seat_count, orphan_item, orphan_seat,
  stale_reservation, ConsistencyDetail, ConsistencyChecks, ConsistencyResponse,
}
use study_ticket_reservation.StressAdmin.Repository

abbrev pub stress_event_prefix : Text
stress_event_prefix = text "__stress_seed__:"

-- A minute, in microseconds.
abbrev pub stale_active_reservation_tolerance : ℕ
stale_active_reservation_tolerance = 60 * 1_000_000

abbrev hours : ℕ → ℕ
hours n = n * 3_600_000_000

unfoldable pub is_local : (app_env : Text) → Bool
is_local app_env =
    text_eq app_env (text "development")
    || text_eq app_env (text "local")
    || text_eq app_env (text "test")

unfoldable pub random_hex : Option (List ℕ) → Result Text
random_hex (some bytes) = ok (hex bytes)
random_hex none = err failure

-- The event of a fixture: it starts in a day, and takes three hours.
abbrev pub fixture_event : (suffix : Text) (now : ℕ) → CreateEventParams
fixture_event suffix now = record {
  name = stress_event_prefix ++ suffix;
  starts_at = timestamp (now + hours 24);
  ends_at = timestamp (now + hours 27);
}

module _ (env : Env) (app_env : Text) where
  unfoldable pub seed : (random : Option (List ℕ)) (now : ℕ) → Action Database SeedResponse
  unfolding is_local random_hex Repository.seed
  seed random now = if not (is_local app_env) then raise stress_admin_disabled else do
    suffix ← lift (random_hex random)
    fixture ← Repository.seed env (fixture_event suffix now)
    pure (record {
      event_id = uuid_to_string fixture.0.id;
      ticket_type_id = uuid_to_string fixture.1.id;
      seat_ids = map (λ (seat : Seat). uuid_to_string seat.id) fixture.2;
    })

  unfoldable pub reset : Action Database ResetResponse
  unfolding is_local Repository.reset
  reset = if not (is_local app_env) then raise stress_admin_disabled else do
    deleted ← Repository.reset env (stress_event_prefix ++ (b'%' ∷ []))
    pure (record { events_deleted = deleted })

abbrev quantity_detail : (check message : Text) → TicketQuantityRow → ConsistencyDetail
quantity_detail check message row = record {
  check = check;
  message = message;
  values =
      ticket_quantities (uuid_to_string row.id) row.total_quantity row.sold_quantity
        row.reserved_quantity;
}

abbrev duplicate_detail : DuplicateActiveSeatRow → ConsistencyDetail
duplicate_detail row = record {
  check = text "no_duplicate_active_seats";
  message = text "Seat has more than one active reservation";
  values = seat_count (uuid_to_string row.seat_id) row.active_count;
}

abbrev orphan_item_detail : OrphanReservationItemRow → ConsistencyDetail
orphan_item_detail row = record {
  check = text "no_orphan_reservation_items";
  message = text "Reservation item points to a missing reservation";
  values = orphan_item (uuid_to_string row.reservation_item_id) (uuid_to_string row.reservation_id);
}

abbrev orphan_seat_detail : OrphanReservationSeatRow → ConsistencyDetail
orphan_seat_detail row = record {
  check = text "no_orphan_reservation_seats";
  message = text "Reservation seat points to a missing reservation";
  values = orphan_seat (uuid_to_string row.reservation_seat_id) (uuid_to_string row.reservation_id);
}

abbrev stale_detail : StaleReservationRow → ConsistencyDetail
stale_detail row = record {
  check = text "no_stale_expired_active_reservations";
  message = text "Reserved reservation is expired beyond the local processing tolerance";
  values =
      stale_reservation (uuid_to_string row.id) row.status (timestamptz_to_time row.expires_at);
}

-- A check that is false `if len(rows) > 0`.
abbrev pub none_found : {A : Type 0} → List A → Bool
none_found rows = if ltb 0 (length rows) then false else true

abbrev pub all_checks : ConsistencyChecks → Bool
all_checks checks =
    checks.ticket_quantity_not_oversold && checks.ticket_quantity_not_negative
    && checks.no_duplicate_active_seats && checks.no_orphan_reservation_items
    && checks.no_orphan_reservation_seats && checks.no_stale_expired_active_reservations

-- The checks and the details that the rows of the six queries make.
unfoldable pub report :
    (negative oversold : List TicketQuantityRow)
    → List DuplicateActiveSeatRow
    → List OrphanReservationItemRow
    → List OrphanReservationSeatRow
    → List StaleReservationRow
    → ConsistencyResponse
report negative oversold duplicates items seats stale =
    let checks : ConsistencyChecks = record {
      ticket_quantity_not_oversold = none_found oversold;
      ticket_quantity_not_negative = none_found negative;
      no_duplicate_active_seats = none_found duplicates;
      no_orphan_reservation_items = none_found items;
      no_orphan_reservation_seats = none_found seats;
      no_stale_expired_active_reservations = none_found stale;
    } in
    record {
      ok = all_checks checks;
      checks = checks;
      details =
          map
            (quantity_detail (text "ticket_quantity_not_negative")
              (text "Ticket type has a negative quantity"))
            negative
          ++ (map
                (quantity_detail (text "ticket_quantity_not_oversold")
                  (text "Ticket type has sold + reserved greater than total"))
                oversold
              ++ (map duplicate_detail duplicates
                  ++ (map orphan_item_detail items
                      ++ (map orphan_seat_detail seats ++ map stale_detail stale))));
    }

abbrev pub stale_threshold : (now : ℕ) → Timestamptz
stale_threshold now = timestamp (now - stale_active_reservation_tolerance)

module _ (env : Env) (app_env : Text) where
  unfoldable pub assert_consistency : (now : ℕ) → Action Database ConsistencyResponse
  unfolding is_local report list_negative_ticket_quantity_violations
      list_oversold_ticket_quantity_violations list_duplicate_active_seat_violations
      list_orphan_reservation_item_violations list_orphan_reservation_seat_violations
      list_stale_expired_active_reservation_violations
  assert_consistency now = if not (is_local app_env) then raise stress_admin_disabled else do
    negative ← list_negative_ticket_quantity_violations env
    oversold ← list_oversold_ticket_quantity_violations env
    duplicates ← list_duplicate_active_seat_violations env
    items ← list_orphan_reservation_item_violations env
    seats ← list_orphan_reservation_seat_violations env
    stale ← list_stale_expired_active_reservation_violations env (stale_threshold now)
    pure (report negative oversold duplicates items seats stale)
