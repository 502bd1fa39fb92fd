-- ===== src/Sqlc/Reservations/Items.antt =====
-- The queries on reservation_items.
use mathlib.Core.List.{flat_map}
use study_ticket_reservation.Base.{
  Bool, not, ◌&&◌, ◌||◌, List, ◌∷◌, map, any, select, sort_by, if◌then◌else◌,
}
use study_ticket_reservation.Base.Int.{ℤ, pos, leb_ℤ}
use study_ticket_reservation.Base.Text.{Text}
use study_ticket_reservation.Db.Types.{Uuid, Timestamptz, same_uuid, uuid_le}
use study_ticket_reservation.Db.Tx.{
  unique_violation, constraint_violation, Result, ok, err, Env, Action, reading, statement,
}
use study_ticket_reservation.Sqlc.Models.{
  Reservation, ReservationItem, ReservationType, Status, status_eq, is_quantity,
}
use study_ticket_reservation.Sqlc.Database.{Database, update_where, known_status, has_key, one}

pub record CreateReservationItemParams : Type 0 where
  pub reservation_id : Uuid
  pub ticket_type_id : Uuid
  pub quantity : ℤ
  pub status : Status

abbrev pub new_item : Timestamptz → Uuid → CreateReservationItemParams → ReservationItem
new_item now id arg = record {
  id = id;
  reservation_id = arg.reservation_id;
  ticket_type_id = arg.ticket_type_id;
  quantity = arg.quantity;
  status = arg.status;
  created_at = now;
  updated_at = now;
}

-- ck_reservation_items_*.
unfoldable pub item_check : CreateReservationItemParams → Bool
item_check arg = leb_ℤ (pos 1) arg.quantity && known_status arg.status

unfoldable pub item_refers : CreateReservationItemParams → Database → Bool
item_refers arg d =
    any (λ r. same_uuid r.id arg.reservation_id) d.reservations
    && any (λ t. same_uuid t.id arg.ticket_type_id) d.ticket_types

unfoldable pub insert_item :
    Timestamptz
    → CreateReservationItemParams
    → Uuid
    → Database
    → Result (ReservationItem × Database)
unfolding item_check item_refers
insert_item now arg id d =
    if not (id.valid && item_check arg)
    then err constraint_violation
    else if any (λ i. same_uuid i.id id) d.reservation_items
    then err unique_violation
    else if not (item_refers arg d)
    then err constraint_violation
    else (let row = new_item now id arg in
        ok (row, record d { reservation_items = row ∷ d.reservation_items }))

pub record QuantityReservationRow : Type 0 where
  pub reservation_id : Uuid
  pub status : Status
  pub reservation_type : ReservationType
  pub expires_at : Timestamptz
  pub ticket_type_id : Uuid
  pub quantity : ℤ

abbrev pub joined_row : Reservation × ReservationItem → QuantityReservationRow
joined_row (r, i) = record {
  reservation_id = r.id;
  status = r.status;
  reservation_type = r.reservation_type;
  expires_at = r.expires_at;
  ticket_type_id = i.ticket_type_id;
  quantity = i.quantity;
}

-- `reservations AS r JOIN reservation_items AS ri ON ri.reservation_id = r.id WHERE ...`, ordered by
-- ri.id.
unfoldable pub quantity_rows : Uuid → Text → Database → List (Reservation × ReservationItem)
quantity_rows session key d =
    sort_by (λ a b. uuid_le a.1.id b.1.id)
      (flat_map
        (λ r. map (λ i. (r, i)) (select (λ i. same_uuid i.reservation_id r.id) d.reservation_items))
        (select (λ r. has_key session key r && is_quantity r.reservation_type) d.reservations))

unfoldable pub first_quantity_row :
    Uuid → Text → Database → Result (QuantityReservationRow × Database)
unfolding quantity_rows
first_quantity_row session key d = elim (one (quantity_rows session key d)) [
  | ok row ↦ ok (joined_row row, d)
  | err e ↦ err e
]

-- ORDER BY ticket_type_id, id.
abbrev pub item_le : ReservationItem → ReservationItem → Bool
item_le a b =
    not (uuid_le b.ticket_type_id a.ticket_type_id)
    || (uuid_le a.ticket_type_id b.ticket_type_id && uuid_le a.id b.id)

abbrev pub items_of : Uuid → Database → List ReservationItem
items_of id d = sort_by item_le (select (λ i. same_uuid i.reservation_id id) d.reservation_items)

abbrev pub set_item_status : Timestamptz → Status → ReservationItem → ReservationItem
set_item_status now status i = record i { status = status; updated_at = now }

unfoldable pub change_items :
    Timestamptz → Uuid → (status from : Status) → Database → Result (Unit {0} × Database)
change_items now id status from d =
    if not (known_status status)
    then err constraint_violation
    else ok (
      tt,
      record d {
        reservation_items =
            update_where (λ i. same_uuid i.reservation_id id && status_eq i.status from)
              (set_item_status now status) d.reservation_items;
      },
    )

module _ (env : Env) where
  unfoldable pub create_reservation_item :
      CreateReservationItemParams → Action Database ReservationItem
  unfolding statement insert_item
  create_reservation_item arg = statement env (insert_item env.now arg)

  unfoldable pub get_quantity_reservation_by_idempotency_key :
      Uuid → Text → Action Database QuantityReservationRow
  unfolding statement first_quantity_row
  get_quantity_reservation_by_idempotency_key session key =
      statement env λ _. first_quantity_row session key

  unfoldable pub list_reservation_items : Uuid → Action Database (List ReservationItem)
  unfolding statement
  list_reservation_items id = statement env (reading (items_of id))

  -- The new status of the rows of a reservation that have the status `from`.
  unfoldable pub update_reservation_items_status :
      (reservation_id : Uuid) (status from : Status) → Action Database (Unit {0})
  unfolding statement change_items
  update_reservation_items_status id status from =
      statement env λ _. change_items env.now id status from
