-- ===== src/Inventory/SeatsRequest.antt =====
-- ReserveSeats as a whole: it replays the reservation of its key, holds all its seats, or changes
-- nothing.
use mathlib.Core.Path.{subst}
use study_ticket_reservation.Base.{
  ℕ, ◌+◌, ◌≡◌, ◌⊎◌, refl, sym, true, not, List, [], ◌∷◌, arith, inl, inr, if◌then◌else◌,
}
use study_ticket_reservation.Base.Text.{Text, trim_space}
use study_ticket_reservation.Db.Types.{Uuid, Timestamptz}
use study_ticket_reservation.Db.Tx.{
  Env, ok, is_unique_violation, idempotency_replay_required, pure, raise, on_error, reading,
  with_tx, ◌>>=◌,
}
use study_ticket_reservation.Db.Triples.{
  Triple, Triple-statement, Triple-reading, Triple-bind, Triple-pure, Triple-raise, Triple-if,
  Triple-each, Triple-assume, Triple-on_error,
}
use study_ticket_reservation.Db.Transactions.{
  Transacts, Transacts-with_tx, Transacts-on_error, Transacts-statement, Transacts-bind,
  Transacts-lift, Transacts-pure, Transacts-if, Transacts-raise, Transacts-weaken,
}
use study_ticket_reservation.Sqlc.Models.{
  Reservation, ReservationSeat, by_seats, reserved, is_quantity, VisitorSession,
}
use study_ticket_reservation.Sqlc.Database.{Database}
use study_ticket_reservation.Sqlc.Reservations.Headers.{
  CreateReservationParams, insert_reservation, create_reservation,
}
use study_ticket_reservation.Sqlc.Reservations.Holds.{
  SeatReservationRow, seat_rows, lockable, stale_reservations, lock_event_seats,
  get_seat_reservation_by_idempotency_key, list_expired_active_reservation_ids_for_seats,
}
use study_ticket_reservation.Reservations.Dto.{SeatReservationRequest, SeatReservationResponse}
use study_ticket_reservation.Reservations.Input.{parse_seat_input, same_uuid_set}
use study_ticket_reservation.Reservations.Responses.{
  seat_reservation_to_response, seat_rows_to_response,
}
use study_ticket_reservation.Reservations.Service.{Service, timestamp, is_replay_required}
use study_ticket_reservation.Reservations.Seats.{
  replay_rows, replay_seats, create_holds, hold_seats, seats_unless_found, reserve_seats_tx,
  reserve_seats,
}
use study_ticket_reservation.Inventory.Invariant.{Inv}
use study_ticket_reservation.Inventory.Inserts.{IsNewHeader, AddsHeader, insert_reservation-Post}
use study_ticket_reservation.Inventory.Seats.{
  made_way, made_way-Inv, expire_stale-Triple, seats_header-Inv, AddsHolds, create_holds-Triple,
}

module _ (env : Env) (session : VisitorSession) (event_id : Uuid) (seat_ids : List Uuid)
    (key : Text) (expires_at now : Timestamptz) (d0 : Database) where
  abbrev header_arg : CreateReservationParams
  header_arg = record {
    event_id = event_id;
    visitor_session_id = session.id;
    user_id = session.user_id;
    status = reserved;
    reservation_type = by_seats;
    idempotency_key = key;
    expires_at = expires_at;
  }

  -- The database when the stale holds on the seats have made way.
  abbrev pub cleared : Database
  cleared = made_way env.now (stale_reservations seat_ids now d0) d0

  -- The request made a reservation, with a row for each of its seats.
  pub record HoldsSeats (response : SeatReservationResponse) (d : Database) : Type 0 where
    pub header : Reservation
    pub rows : List ReservationSeat
    pub all_there : same_uuid_set (lockable event_id seat_ids d0) seat_ids ≡ true
    pub new : IsNewHeader env.now header_arg cleared header
    pub holds :
        AddsHolds env session header.id expires_at
          (lockable event_id seat_ids d0)
          (record cleared { reservations = header ∷ cleared.reservations })
          rows
          d
    pub answer : response ≡ seat_reservation_to_response header rows

  -- ... or the rows of the key were there.
  abbrev pub Replays : SeatReservationResponse → Database → Type 0
  Replays response d =
      (row : SeatReservationRow) × (rows : List SeatReservationRow) × (seat_rows session.id key d0
        ≡ row ∷ rows)
      × (response ≡ seat_rows_to_response row rows)
      × (d ≡ d0)

  abbrev pub Reserves : SeatReservationResponse → Database → Type 0
  Reserves response d = Inv d × (Replays response d ⊎ HoldsSeats response d)

  module _ (inv : Inv d0) where
    header-Triple :
        (d1 : Database)
        → Triple
            (λ d. d ≡ d1)
            (create_reservation env header_arg)
            (AddsHeader env.now header_arg d1)
            (λ _. Unit {0})
    unfolding create_reservation
    header-Triple d1 =
        Triple-statement env (insert_reservation env.now header_arg)
          (λ id d e. rw e (insert_reservation-Post env.now header_arg id d1)) tt

    -- The header and the rows, once the holds have made way.
    rows-Triple :
        (locked : List Uuid)
        → locked ≡ lockable event_id seat_ids d0
        → same_uuid_set locked seat_ids ≡ true
        → Triple
            (λ d. d ≡ cleared)
            (do
              reservation ←
                  on_error
                    (create_reservation env header_arg)
                    (λ e. raise (if is_unique_violation e then idempotency_replay_required else e))
              rows ← create_holds env session reservation.id expires_at locked
              pure (seat_reservation_to_response reservation rows))
            Reserves
            (λ _. Unit {0})
    unfolding is_quantity
    rows-Triple locked l same =
        let kept : Inv cleared = made_way-Inv env.now (stale_reservations seat_ids now d0) d0 inv in
        Triple-bind _ _
          (Triple-on_error {F = λ _. Unit {0}} _ _ (header-Triple cleared) (λ e p. tt))
          λ r. Triple-each _ _ _ _ λ d1 made.
            Triple-bind _ _
              (create_holds-Triple env session r.id expires_at locked d1 (
                rw made.0
                  (seats_header-Inv env.now header_arg cleared r (rw made.1.row refl) made.1 kept)))
              λ rows. Triple-pure _ (λ d h. (
                h.0,
                inr (record {
                  header = r;
                  rows = rows;
                  all_there = rw (sym l) same;
                  new = made.1;
                  holds =
                      subst
                        (λ x.
                          AddsHolds env session r.id expires_at (lockable event_id seat_ids d0) x
                            rows d)
                        made.0 (rw (sym l) h.1);
                  answer = refl;
                }),
              ))

    hold-Triple :
        Triple
          (λ d. d ≡ d0)
          (hold_seats env session event_id seat_ids key expires_at now)
          Reserves
          (λ _. Unit {0})
    unfolding hold_seats lock_event_seats list_expired_active_reservation_ids_for_seats
    hold-Triple =
        Triple-bind {R = λ locked d. (locked ≡ lockable event_id seat_ids d0) × (d ≡ d0)} _ _
          (Triple-reading env (lockable event_id seat_ids) (λ d e. (rw e refl, e)) tt)
          λ locked.
            Triple-assume (locked ≡ lockable event_id seat_ids d0) (λ d. d ≡ d0) _ _ _
              λ l.
                Triple-if (not (same_uuid_set locked seat_ids)) _ _ (λ _. Triple-raise _ tt)
                  λ same.
                    Triple-bind
                      {R = λ stale d. (stale ≡ stale_reservations seat_ids now d0) × (d ≡ d0)} _ _
                      (Triple-reading env (stale_reservations seat_ids now) (λ d e. (rw e refl, e))
                        tt)
                      λ stale.
                        Triple-assume (stale ≡ stale_reservations seat_ids now d0) (λ d. d ≡ d0) _ _
                          _
                          λ e. rw e (
                            Triple-bind _ _
                              (expire_stale-Triple env session (stale_reservations seat_ids now d0)
                                d0 inv)
                              λ _. rows-Triple locked l (ground arith))

    by_finding :
        (found : List SeatReservationRow)
        → seat_rows session.id key d0 ≡ found
        → Triple
            (λ d. d ≡ d0)
            (seats_unless_found env session found
              (hold_seats env session event_id seat_ids key expires_at now))
            Reserves
            (λ _. Unit {0})
    unfolding seats_unless_found
    by_finding [] f = hold-Triple
    by_finding (row ∷ rows) f = Triple-pure _ (λ d e. (rw e inv, inl (row, rows, f, refl, e)))

    tx-Triple :
        Triple
          (λ d. d ≡ d0)
          (reserve_seats_tx env session event_id seat_ids key expires_at now)
          Reserves
          (λ _. Unit {0})
    unfolding reserve_seats_tx get_seat_reservation_by_idempotency_key
    tx-Triple =
        Triple-bind {R = λ found d. (seat_rows session.id key d0 ≡ found) × (d ≡ d0)} _ _
          (Triple-reading env (seat_rows session.id key) (λ d e. (rw e refl, e)) tt)
          λ found.
            Triple-assume (seat_rows session.id key d0 ≡ found) (λ d. d ≡ d0) _ _ _
              (by_finding found)

    replayed :
        (found : List SeatReservationRow)
        → seat_rows session.id key d0 ≡ found
        → Transacts (λ d. d ≡ d0) (replay_rows env found) Reserves (λ _. Unit {0})
    replayed [] f = Transacts-raise _ tt
    replayed (row ∷ rows) f = Transacts-pure _ (inv, inl (row, rows, f, refl, refl))

    replay-Transacts :
        Transacts (λ d. d ≡ d0) (replay_seats env session.id key) Reserves (λ _. Unit {0})
    unfolding replay_seats get_seat_reservation_by_idempotency_key
    replay-Transacts =
        Transacts-bind {R = λ found. seat_rows session.id key d0 ≡ found} _ _
          (Transacts-statement env (reading (seat_rows session.id key)) (λ _. (refl, refl)) tt)
          replayed

    pub request-Transacts :
        Transacts
          (λ d. d ≡ d0)
          (on_error
            (with_tx env (reserve_seats_tx env session event_id seat_ids key expires_at now))
            (λ e. if is_replay_required e then replay_seats env session.id key else raise e))
          Reserves
          (λ _. Unit {0})
    request-Transacts =
        Transacts-on_error _ _ (Transacts-with_tx env _ tx-Triple tt)
          λ e. Transacts-if (is_replay_required e) _ _ replay-Transacts (Transacts-raise e tt)

module _ (env : Env) (session : VisitorSession) (s : Service) (now later : ℕ)
    (input : SeatReservationRequest) (d0 : Database) where
  -- What a request to reserve seats does when it succeeds, on the event and the seats that it names.
  abbrev pub ReservesSeats : SeatReservationResponse → Database → Type 0
  ReservesSeats response d =
      (ids : Uuid × List Uuid) × (parse_seat_input s.scan input ≡ ok ids)
      × Reserves env session ids.0 ids.1 (trim_space input.idempotency_key)
          (timestamp (now + s.reservation_ttl)) (timestamp later) d0 response d

  pub reserve_seats-Transacts :
      Inv d0
      → Transacts
          (λ d. d ≡ d0)
          (reserve_seats env session s now later input)
          ReservesSeats
          (λ _. Unit {0})
  unfolding reserve_seats
  reserve_seats-Transacts inv =
      Transacts-lift (parse_seat_input s.scan input) _
        (λ ids e.
          Transacts-weaken _ _ _ _ _
            (request-Transacts env session ids.0 ids.1 (trim_space input.idempotency_key)
              (timestamp (now + s.reservation_ttl)) (timestamp later) d0 inv)
            (λ response d h. (ids, e, h)) (λ e h. h))
        (λ e h. tt)
