-- ===== src/Sqlc/Reservations/Stock.antt =====
-- The counters of ticket_types: ReserveTicketQuantity, ReleaseTicketQuantity, ConfirmTicketQuantity.
use study_ticket_reservation.Base.{Bool, not, ◌&&◌, List, [], ◌∷◌, map, any, select, if◌then◌else◌}
use study_ticket_reservation.Base.Int.{ℤ, ◌+ℤ◌, ◌-ℤ◌, leb_ℤ}
use study_ticket_reservation.Db.Types.{Uuid, Timestamptz, same_uuid}
use study_ticket_reservation.Db.Tx.{
  no_rows, constraint_violation, Result, ok, err, Env, Action, statement,
}
use study_ticket_reservation.Sqlc.Models.{TicketType}
use study_ticket_reservation.Sqlc.Database.{Database, update_where, ticket_check}

-- `RETURNING id, total_quantity, sold_quantity, reserved_quantity`.
pub record TicketQuantityRow : Type 0 where
  pub id : Uuid
  pub total_quantity : ℤ
  pub sold_quantity : ℤ
  pub reserved_quantity : ℤ

abbrev pub quantity_row : TicketType → TicketQuantityRow
quantity_row t = record {
  id = t.id;
  total_quantity = t.total_quantity;
  sold_quantity = t.sold_quantity;
  reserved_quantity = t.reserved_quantity;
}

unfoldable pub returning : List TicketType → Database → Result (TicketQuantityRow × Database)
returning [] d = err no_rows
returning (t ∷ ts) d = ok (quantity_row t, d)

-- `UPDATE ticket_types SET change WHERE test RETURNING ...`: no row may break a CHECK.
unfoldable pub change_tickets :
    (TicketType → Bool)
    → (TicketType → TicketType)
    → Database
    → Result (TicketQuantityRow × Database)
unfolding returning
change_tickets test change d =
    let changed = map change (select test d.ticket_types) in
    if any (λ t. not (ticket_check t)) changed
    then err constraint_violation
    else returning changed (record d { ticket_types = update_where test change d.ticket_types })

-- `total_quantity - sold_quantity - reserved_quantity >= $3`.
abbrev pub has_stock : ℤ → TicketType → Bool
has_stock quantity t = leb_ℤ quantity (t.total_quantity -ℤ t.sold_quantity -ℤ t.reserved_quantity)

abbrev pub add_reserved : ℤ → TicketType → TicketType
add_reserved quantity t = record t { reserved_quantity = t.reserved_quantity +ℤ quantity }

abbrev pub subtract_reserved : Timestamptz → ℤ → TicketType → TicketType
subtract_reserved now quantity t = record t {
  reserved_quantity = t.reserved_quantity -ℤ quantity;
  updated_at = now;
}

abbrev pub move_to_sold : Timestamptz → ℤ → TicketType → TicketType
move_to_sold now quantity t = record t {
  sold_quantity = t.sold_quantity +ℤ quantity;
  reserved_quantity = t.reserved_quantity -ℤ quantity;
  updated_at = now;
}

module _ (env : Env) where
  unfoldable pub reserve_ticket_quantity :
      (id event_id : Uuid) (quantity : ℤ) → Action Database TicketQuantityRow
  unfolding statement change_tickets
  reserve_ticket_quantity id event_id quantity = statement env λ _.
      change_tickets
        (λ t. same_uuid t.id id && same_uuid t.event_id event_id && has_stock quantity t)
        (add_reserved quantity)

  unfoldable pub release_ticket_quantity :
      (id : Uuid) (quantity : ℤ) → Action Database TicketQuantityRow
  unfolding statement change_tickets
  release_ticket_quantity id quantity = statement env λ _.
      change_tickets (λ t. same_uuid t.id id && leb_ℤ quantity t.reserved_quantity)
        (subtract_reserved env.now quantity)

  unfoldable pub confirm_ticket_quantity :
      (id : Uuid) (quantity : ℤ) → Action Database TicketQuantityRow
  unfolding statement change_tickets
  confirm_ticket_quantity id quantity = statement env λ _.
      change_tickets (λ t. same_uuid t.id id && leb_ℤ quantity t.reserved_quantity)
        (move_to_sold env.now quantity)
