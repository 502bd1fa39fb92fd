-- ===== src/Tests/Start.antt =====
-- The catalogue of the examples, and the database after a reservation of three of its tickets.
use study_ticket_reservation.Base.{refl, arith}
use study_ticket_reservation.Db.Tx.{Tx}
use study_ticket_reservation.Sqlc.Database.{Database}
use study_ticket_reservation.Reservations.Quantity.{reserve_quantity}
use study_ticket_reservation.Inventory.Invariant.{Inv}
use study_ticket_reservation.Inventory.Reachable.{
  after, reserves_quantity, IsFresh, fresh-Inv, Step-Inv,
}
use study_ticket_reservation.Tests.Samples.{service, calm, session, fresh, ask_quantity}

pub fresh-IsFresh : IsFresh fresh
fresh-IsFresh = record {
  unsold = ((refl, refl, omega arith, omega arith), tt);
  distinct_types = (refl, tt);
  no_reservations = refl;
  no_items = refl;
  no_holds = refl;
}

-- Three tickets are reserved.
abbrev pub three : Database
three = after (reserve_quantity (calm 100) session service 10 (ask_quantity 3)) 0 fresh

pub three-Inv : Inv three
three-Inv =
    Step-Inv fresh three (reserves_quantity (calm 100) session service 10 0 (ask_quantity 3) fresh)
      (fresh-Inv fresh fresh-IsFresh)

abbrev pub from_fresh : Tx Database
from_fresh = record { db = fresh; calls = 0 }

abbrev pub from_three : Tx Database
from_three = record { db = three; calls = 0 }
