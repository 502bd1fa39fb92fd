-- ===== src/Inventory/Reading.antt =====
-- GetReservation reads one reservation that the session may access, with its rows.
use study_ticket_reservation.Base.{
  ◌≡◌, refl, sym, ◌∙◌, ◌⊎◌, not, List, [], ◌∷◌, select, inl, inr, if◌then◌else◌,
}
use study_ticket_reservation.Db.Types.{Uuid, uuid_to_string, same_uuid}
use study_ticket_reservation.Db.Tx.{
  Error, failure, no_rows, is_no_rows, reservation_invariant_broken, ok, Env, Tx,
  reservation_not_found, raise, reading,
}
use study_ticket_reservation.Db.Triples.{BodyPost}
use study_ticket_reservation.Db.Transactions.{
  Settled, Transacts, Transacts-bind, Transacts-reported, Transacts-raise, Transacts-statement,
  Transacts-pure, Transacts-weaken,
}
use study_ticket_reservation.Sqlc.Models.{
  Reservation, ReservationItem, ReservationSeat, ReservationType, by_quantity, by_seats, other_type,
  VisitorSession,
}
use study_ticket_reservation.Sqlc.Database.{Database, one}
use study_ticket_reservation.Sqlc.Reservations.Headers.{select_one, get_reservation_by_id}
use study_ticket_reservation.Sqlc.Reservations.Items.{items_of, list_reservation_items}
use study_ticket_reservation.Sqlc.Reservations.Holds.{seats_of, list_reservation_seats}
use study_ticket_reservation.Reservations.Dto.{ReservationResponse}
use study_ticket_reservation.Reservations.Responses.{
  can_access_reservation, details_response, details_by_type, build_reservation_response,
}
use study_ticket_reservation.Reservations.Lifecycle.{get_reservation}
use study_ticket_reservation.Inventory.Access.{MayAccess, access_lem}
use study_ticket_reservation.Inventory.Listing.{Listed, Listed-sort_by}

abbrev pub own_items : Uuid → Database → List ReservationItem
own_items id d = select (λ i. same_uuid i.reservation_id id) d.reservation_items

abbrev pub own_seats : Uuid → Database → List ReservationSeat
own_seats id d = select (λ row. same_uuid row.reservation_id id) d.reservation_seats

-- The response shows the header, and exactly the rows of its reservation: its items if it is one of
-- tickets, and its seats if it is one of seats.
pub record Shows (d : Database) (r : Reservation) (response : ReservationResponse) : Type 0 where
  pub id : response.reservation_id ≡ uuid_to_string r.id
  pub status : response.status ≡ r.status
  pub known : (r.reservation_type ≡ by_quantity) ⊎ (r.reservation_type ≡ by_seats)
  pub items :
      r.reservation_type ≡ by_quantity
      → Listed
          (λ i. i.ticket_type_id)
          (λ i. i.id)
          (λ i. record {
            ticket_type_id = uuid_to_string i.ticket_type_id;
            quantity = i.quantity;
            status = i.status;
          })
          (own_items r.id d)
          response.items
        × (response.seats ≡ [])
  pub seats :
      r.reservation_type ≡ by_seats
      → Listed
          (λ s. s.seat_id)
          (λ s. s.id)
          (λ s. record { seat_id = uuid_to_string s.seat_id; status = s.status })
          (own_seats r.id d)
          response.seats
        × (response.items ≡ [])

abbrev pub IsRead : Uuid → Database → Reservation → Type 0
IsRead id d r = one (select (λ r. same_uuid r.id id) d.reservations) ≡ ok r

-- No row has the id, or the session may not access the one that has it.
abbrev pub IsHidden : VisitorSession → Uuid → Database → Type 0
IsHidden session id d = (r : Reservation) → IsRead id d r → ¬ MayAccess session r

abbrev pub GetFails : VisitorSession → Uuid → Database → Error → Type 0
GetFails session id d e =
    ((e ≡ reservation_not_found) × IsHidden session id d)
    ⊎ (e ≡ reservation_invariant_broken)
    ⊎ (e ≡ failure)

abbrev pub Gets : VisitorSession → Uuid → Database → ReservationResponse → Database → Type 0
Gets session id d0 response d =
    ((r : Reservation) × IsRead id d0 r × MayAccess session r × Shows d0 r response) × (d ≡ d0)

-- The look-up by the id.
abbrev IsMissed : Uuid → Database → Error → Type 0
IsMissed id d e = ((e ≡ no_rows) × ((r : Reservation) → ¬ IsRead id d r)) ⊎ (e ≡ failure)

IsRead-Post :
    (id : Uuid) (d : Database)
    → BodyPost
        (λ r d'. IsRead id d r × (d' ≡ d))
        (IsMissed id d)
        (select_one (λ r. same_uuid r.id id) d)
IsRead-Post id d = by_rows (select (λ r. same_uuid r.id id) d.reservations) refl
  where
    by_rows :
        (rows : List Reservation)
        → select (λ r. same_uuid r.id id) d.reservations ≡ rows
        → BodyPost
            (λ r d'. IsRead id d r × (d' ≡ d))
            (IsMissed id d)
            (select_one (λ r. same_uuid r.id id) d)
    by_rows [] e = rw (e, select_one) (inl (refl, λ r read. let none = rw e at read in cc))
    by_rows (r ∷ rs) e = rw (e, select_one) (refl, refl)

ok_injective : (a b : Reservation) → ok a ≡ ok b → a ≡ b
ok_injective a b h = cc

module _ (env : Env) (session : VisitorSession) (d0 : Database) where
  details-Shows :
      (E : Error → Type 0)
      → E failure
      → E reservation_invariant_broken
      → (r : Reservation) (rt : ReservationType) → r.reservation_type ≡ rt
      → Transacts
          (λ d. d ≡ d0)
          (details_by_type env rt r)
          (λ response d. Shows d0 r response × (d ≡ d0))
          E
  unfolding details_by_type details_response list_reservation_items list_reservation_seats
  details-Shows E fails broken r by_quantity e =
      Transacts-bind {R = λ items. items ≡ items_of r.id d0} _ _
        (Transacts-statement env (reading (items_of r.id)) (λ _. (refl, refl)) fails)
        λ items read. Transacts-pure _ (
          record {
            id = refl;
            status = refl;
            known = inl e;
            items = λ _. (rw read (Listed-sort_by _ _ _ (own_items r.id d0)), refl);
            seats = λ s. absurd (let clash : by_quantity ≡ by_seats = sym e ∙ s in cc);
          },
          refl,
        )
  details-Shows E fails broken r by_seats e =
      Transacts-bind {R = λ seats. seats ≡ seats_of r.id d0} _ _
        (Transacts-statement env (reading (seats_of r.id)) (λ _. (refl, refl)) fails)
        λ seats read. Transacts-pure _ (
          record {
            id = refl;
            status = refl;
            known = inr e;
            items = λ s. absurd (let clash : by_seats ≡ by_quantity = sym e ∙ s in cc);
            seats = λ _. (rw read (Listed-sort_by _ _ _ (own_seats r.id d0)), refl);
          },
          refl,
        )
  details-Shows E fails broken r (other_type _) e = Transacts-raise _ broken

  answer-Gets :
      (id : Uuid) (r : Reservation)
      → IsRead id d0 r
      → Transacts
          (λ d. d ≡ d0)
          (if not (can_access_reservation r session)
            then raise reservation_not_found
            else build_reservation_response env r)
          (Gets session id d0)
          (GetFails session id d0)
  unfolding build_reservation_response
  answer-Gets id r read = elim (access_lem r session) [
    | inl (granted, may) ↦ rw granted (
        Transacts-weaken _ _ _ _ _
          (details-Shows (GetFails session id d0) (inr (inr refl)) (inr (inl refl)) r
            r.reservation_type refl)
          (λ response d h. ((r, read, may, h.0), h.1)) (λ e h. h))
    | inr (shut, not_may) ↦ rw shut (
        Transacts-raise reservation_not_found (
          inl (
            refl,
            λ r' read'.
                let same : r ≡ r' = ok_injective r r' (sym read ∙ read') in rw same at not_may,
          )))
  ]

  get-Gets :
      (id : Uuid)
      → Transacts
          (λ d. d ≡ d0)
          (get_reservation env session id)
          (Gets session id d0)
          (GetFails session id d0)
  unfolding get_reservation get_reservation_by_id
  get-Gets id =
      Transacts-bind {R = IsRead id d0} _ _
        (Transacts-reported {F = IsMissed id d0} _ _
          (Transacts-statement env (λ _. select_one λ r. same_uuid r.id id) (λ _. IsRead-Post id d0)
            (inr refl))
          reported)
        (answer-Gets id)
    where
      reported :
          (e : Error)
          → IsMissed id d0 e
          → GetFails session id d0 (if is_no_rows e then reservation_not_found else e)
      reported e (inl h) = rw h.0 (inl (refl, λ r read. absurd (h.1 r read)))
      reported e (inr h) = rw h (inr (inr refl))

-- A request to get a reservation changes nothing. If it succeeds, the reservation has the id, and the
-- session made it or is logged in as its user, and the response shows its id and status, and for one of
-- tickets its items, each once, in the order of the ticket type and the id, and no seats, and for one of
-- seats its seats, each once, in the order of the seat and the id, and no items. If it fails, the error
-- is `reservation_not_found` and no reservation has the id or the session may not access it, or it is
-- `reservation_invariant_broken` or `failure`.
pub get_reservation_lem :
    (env : Env) (session : VisitorSession) (id : Uuid) (w : Tx Database)
    → Settled
        (Gets session id w.db)
        (GetFails session id w.db)
        w.db
        (get_reservation env session id w)
get_reservation_lem env session id w = (get-Gets env session w.db id).at w refl
