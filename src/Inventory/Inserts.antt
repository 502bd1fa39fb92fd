-- ===== src/Inventory/Inserts.antt =====
-- What the INSERTs of a reservation add, when their constraints let them.
use study_ticket_reservation.Base.{
  ◌≡◌, refl, true, false, not, ◌&&◌, ◌||◌, List, [], ◌∷◌, any, arith, inl, inr, Bool-cases,
}
use study_ticket_reservation.Base.Int.{pos, leb_ℤ}
use study_ticket_reservation.Db.Types.{Uuid, Timestamptz, same_uuid}
use study_ticket_reservation.Db.Triples.{BodyPost}
use study_ticket_reservation.Sqlc.Models.{Reservation, ReservationItem}
use study_ticket_reservation.Sqlc.Database.{Database, known_status, known_type, has_key}
use study_ticket_reservation.Sqlc.Reservations.Headers.{
  CreateReservationParams, new_reservation, reservation_check, reservation_taken,
  reservation_refers, insert_reservation,
}
use study_ticket_reservation.Sqlc.Reservations.Items.{
  CreateReservationItemParams, new_item, item_check, item_refers, insert_item,
}

-- A header that the INSERT added: new, and with the columns that the request gave.
pub record IsNewHeader (now : Timestamptz) (arg : CreateReservationParams) (d0 : Database)
    (r : Reservation) : Type 0 where
  pub row : r ≡ new_reservation now r.id arg
  pub valid : r.id.valid ≡ true
  pub unused : any (λ s. same_uuid s.id r.id) d0.reservations ≡ false
  pub unused_key : any (has_key arg.visitor_session_id arg.idempotency_key) d0.reservations ≡ false
  pub typed : (known_status arg.status ≡ true) × (known_type arg.reservation_type ≡ true)

abbrev pub AddsHeader :
    Timestamptz → CreateReservationParams → Database → Reservation → Database → Type 0
AddsHeader now arg d r d' =
    (d' ≡ record d { reservations = r ∷ d.reservations }) × IsNewHeader now arg d r

abbrev pub AddsItem :
    Timestamptz → CreateReservationItemParams → Database → ReservationItem → Database → Type 0
AddsItem now arg d i d' =
    (d' ≡ record d { reservation_items = i ∷ d.reservation_items })
    × (i ≡ new_item now i.id arg)
    × (leb_ℤ (pos 1) arg.quantity ≡ true)

not_taken :
    (id : Uuid) (arg : CreateReservationParams) (rs : List Reservation)
    → any (λ r. same_uuid r.id id || has_key arg.visitor_session_id arg.idempotency_key r) rs
      ≡ false
    → (any (λ s. same_uuid s.id id) rs ≡ false)
      × (any (has_key arg.visitor_session_id arg.idempotency_key) rs ≡ false)
not_taken id arg [] h = (refl, refl)
not_taken id arg (r ∷ rs) h = ground (arith, not_taken id arg rs)

pub insert_reservation-Post :
    (now : Timestamptz) (arg : CreateReservationParams) (id : Uuid) (d : Database)
    → BodyPost (AddsHeader now arg d) (λ _. Unit {0}) (insert_reservation now arg id d)
unfolding insert_reservation reservation_check reservation_taken
insert_reservation-Post now arg id d = elim (Bool-cases (not (id.valid && reservation_check arg))) [
  | inl bad ↦ rw bad tt
  | inr checked ↦ elim (Bool-cases (reservation_taken id arg d)) [
    | inl taken ↦ rw (checked, taken) tt
    | inr free ↦ elim (Bool-cases (not (reservation_refers arg d))) [
      | inl missing ↦ rw (checked, free, missing) tt
      | inr refers ↦
          rw (checked, free, refers)
            (
              refl,
              record {
                row = refl;
                valid = ground arith;
                unused = (not_taken id arg d.reservations free).0;
                unused_key = (not_taken id arg d.reservations free).1;
                typed = ground arith;
              },
            )
    ]
  ]
]

pub insert_item-Post :
    (now : Timestamptz) (arg : CreateReservationItemParams) (id : Uuid) (d : Database)
    → BodyPost (AddsItem now arg d) (λ _. Unit {0}) (insert_item now arg id d)
unfolding insert_item item_check
insert_item-Post now arg id d = elim (Bool-cases (not (id.valid && item_check arg))) [
  | inl bad ↦ rw bad tt
  | inr checked ↦ elim (Bool-cases (any (λ i. same_uuid i.id id) d.reservation_items)) [
    | inl taken ↦ rw (checked, taken) tt
    | inr free ↦ elim (Bool-cases (not (item_refers arg d))) [
      | inl missing ↦ rw (checked, free, missing) tt
      | inr refers ↦ rw (checked, free, refers) (refl, refl, ground arith)
    ]
  ]
]
