-- ===== src/Sqlc/StressAdmin.antt =====
-- The queries of the stress administration (internal/sqlc/stress_admin.sql.go), and the ON DELETE
-- actions of db/migrations/000001_init.up.sql that its DELETEs meet.
use study_ticket_reservation.Base.{
  ℕ, Bool, true, false, not, ◌&&◌, ◌||◌, List, [], ◌∷◌, map, length, any, select, sort_by, ◌==◌,
  if◌then◌else◌,
}
use study_ticket_reservation.Base.Text.{Text}
use study_ticket_reservation.Db.Types.{Uuid, same_uuid, uuid_le}
use study_ticket_reservation.Db.Tx.{
  constraint_violation, Result, ok, err, Env, Action, reading, statement,
}
use study_ticket_reservation.Sqlc.Models.{Reservation}
use study_ticket_reservation.Sqlc.Database.{Database, any_id}

-- A text and its ends, the empty one included.
suffixes : Text → List Text
suffixes [] = [] ∷ []
suffixes (c ∷ cs) = (c ∷ cs) ∷ suffixes cs

is_empty : Text → Bool
is_empty [] = true
is_empty (_ ∷ _) = false

-- A text whose first character passes a test, and whose rest matches.
after_one : (ℕ → Bool) → (Text → Bool) → Text → Bool
after_one test rest [] = false
after_one test rest (c ∷ cs) = test c && rest cs

-- `name LIKE pattern`: % stands for any text, _ for any character, and \ takes the next character as
-- it is. `escaped` tells that one has just been read.
unfoldable pub like_from : (escaped : Bool) → (pattern name : Text) → Bool
unfolding suffixes is_empty after_one
like_from escaped [] = is_empty
like_from escaped (p ∷ ps) =
    let rest = like_from false ps in
    let quoted = like_from true ps in
    if escaped
    then after_one (λ c. c == p) rest
    else if p == b'\\'
    then quoted
    else if p == b'%'
    then (λ name. any rest (suffixes name))
    else after_one (λ c. p == b'_' || c == p) rest

abbrev pub like : (pattern name : Text) → Bool
like = like_from false

unfoldable pub stress_event_ids : (pattern : Text) → Database → List Uuid
stress_event_ids pattern d =
    sort_by uuid_le (map (λ e. e.id) (select (λ e. like pattern e.name) d.events))

module _ {A : Type 0} where
  -- `DELETE ... WHERE test`.
  abbrev pub delete_where : (A → Bool) → List A → List A
  delete_where test = select (λ x. not (test x))

-- The reservations of the events, and the rows of these reservations.
abbrev pub of_events : List Uuid → Reservation → Bool
of_events ids r = any_id r.event_id ids

abbrev pub among : (reservation_id : Uuid) → List Uuid → List Reservation → Bool
among reservation_id ids = any (λ r. same_uuid r.id reservation_id && of_events ids r)

unfoldable pub delete_reservation_seats : List Uuid → Database → Database
delete_reservation_seats ids d = record d {
  reservation_seats =
      delete_where (λ row. among row.reservation_id ids d.reservations) d.reservation_seats;
}

unfoldable pub delete_reservation_items : List Uuid → Database → Database
delete_reservation_items ids d = record d {
  reservation_items =
      delete_where (λ i. among i.reservation_id ids d.reservations) d.reservation_items;
}

-- ON DELETE CASCADE takes the items and seats of a deleted reservation with it.
unfoldable pub delete_reservations : List Uuid → Database → Database
unfolding delete_reservation_seats delete_reservation_items
delete_reservations ids d = record (delete_reservation_items ids (delete_reservation_seats ids d)) {
  reservations = delete_where (of_events ids) d.reservations;
}

-- A row of another table refers to one of the events, or to a ticket type or a seat of one.
unfoldable pub events_in_use : List Uuid → Database → Bool
events_in_use ids d =
    any (of_events ids) d.reservations
    || any (λ i. any (λ t. same_uuid t.id i.ticket_type_id && any_id t.event_id ids) d.ticket_types)
        d.reservation_items
    || any (λ row. any (λ s. same_uuid s.id row.seat_id && any_id s.event_id ids) d.seats)
        d.reservation_seats

-- ON DELETE RESTRICT refuses to delete what is in use, and ON DELETE CASCADE takes the ticket types
-- and seats of a deleted event with it. The result is the number of deleted events.
unfoldable pub delete_events : List Uuid → Database → Result (ℕ × Database)
unfolding events_in_use
delete_events ids d =
    if events_in_use ids d
    then err constraint_violation
    else ok (
      length (select (λ e. any_id e.id ids) d.events),
      record d {
        events = delete_where (λ e. any_id e.id ids) d.events;
        ticket_types = delete_where (λ t. any_id t.event_id ids) d.ticket_types;
        seats = delete_where (λ s. any_id s.event_id ids) d.seats;
      },
    )

module _ (env : Env) where
  unfoldable pub delete_stress_events : List Uuid → Action Database ℕ
  unfolding statement delete_events
  delete_stress_events ids = statement env λ _. delete_events ids

  unfoldable pub delete_stress_reservation_items : List Uuid → Action Database (Unit {0})
  unfolding statement delete_reservation_items
  delete_stress_reservation_items ids = statement env λ _ d. ok (tt, delete_reservation_items ids d)

  unfoldable pub delete_stress_reservation_seats : List Uuid → Action Database (Unit {0})
  unfolding statement delete_reservation_seats
  delete_stress_reservation_seats ids = statement env λ _ d. ok (tt, delete_reservation_seats ids d)

  unfoldable pub delete_stress_reservations : List Uuid → Action Database (Unit {0})
  unfolding statement delete_reservations
  delete_stress_reservations ids = statement env λ _ d. ok (tt, delete_reservations ids d)

  unfoldable pub list_stress_event_ids : (pattern : Text) → Action Database (List Uuid)
  unfolding statement stress_event_ids
  list_stress_event_ids pattern = statement env (reading (stress_event_ids pattern))
