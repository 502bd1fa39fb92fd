-- ===== src/Inventory/Release.antt =====
-- releaseReservedQuantityItems and confirmReservedQuantityItems on a database that keeps the
-- invariant: only the server can make them fail, and the counters follow the items.
use study_ticket_reservation.Base.{
  ◌≡◌, refl, ap, ◌∙◌, Bool, true, false, ◌&&◌, ◌||◌, List, [], ◌∷◌, select, All, arith, length,
  insert_by, sort_by, All-select, All-sort_by, ◌==◌,
}
use study_ticket_reservation.Base.Int.{ℤ, pos, ◌+ℤ◌, ◌≤ℤ◌, int_laws, sub_of_add}
use study_ticket_reservation.Db.Types.{Uuid, same_uuid}
use study_ticket_reservation.Db.Tx.{failure, Env}
use study_ticket_reservation.Db.Triples.{
  Triple, Triple-reading, Triple-statement, Triple-bind, Triple-weaken, Triple-assume,
}
use study_ticket_reservation.Sqlc.Models.{
  ReservationItem, TicketType, Status, reserved, confirmed, status_eq,
}
use study_ticket_reservation.Sqlc.Database.{Database, known_status}
use study_ticket_reservation.Sqlc.Reservations.Items.{
  set_item_status, change_items, items_of, list_reservation_items, update_reservation_items_status,
}
use study_ticket_reservation.Reservations.Transitions.{
  mark_items, release_reserved_quantity_items, confirm_reserved_quantity_items,
}
use study_ticket_reservation.Inventory.Tables.{All-mono, All-update_where}
use study_ticket_reservation.Inventory.Held.{
  held, held_nonneg, held-sort_by, marked, belongs, held-marked_reserved, held-marked_confirmed,
  IsPositive,
}
use study_ticket_reservation.Inventory.Counters.{Counts, ticket_ids}
use study_ticket_reservation.Inventory.Moves.{Releasing, Confirming}
use study_ticket_reservation.Inventory.Loops.{
  IsKnown, Stage, any_reserved, release_items-Triple, confirm_items-Triple,
}
use study_ticket_reservation.Inventory.Invariant.{Inv, has_item}

any_reserved-insert_by :
    (le : ReservationItem → ReservationItem → Bool) (i : ReservationItem)
    (is : List ReservationItem)
    → any_reserved (insert_by le i is) ≡ (status_eq i.status reserved || any_reserved is)
any_reserved-insert_by le i [] = refl
any_reserved-insert_by le i (j ∷ js) = ground (arith, any_reserved-insert_by le i js)

any_reserved-sort_by :
    (le : ReservationItem → ReservationItem → Bool) (is : List ReservationItem)
    → any_reserved (sort_by le is) ≡ any_reserved is
any_reserved-sort_by le [] = refl
any_reserved-sort_by le (i ∷ is) =
    rw (any_reserved-insert_by le i (sort_by le is), any_reserved-sort_by le is) refl

any_reserved-select :
    (id : Uuid) (is : List ReservationItem)
    → any_reserved (select (λ i. same_uuid i.reservation_id id) is) ≡ has_item id is
any_reserved-select id [] = refl
any_reserved-select id (i ∷ is) = ground (arith, any_reserved-select id is)

-- The items that the loop reads include a reserved one exactly if the reservation has one.
any_reserved-items_of :
    (id : Uuid) (d : Database) → any_reserved (items_of id d) ≡ has_item id d.reservation_items
any_reserved-items_of id d =
    any_reserved-sort_by _ (select (λ i. same_uuid i.reservation_id id) d.reservation_items)
    ∙ any_reserved-select id d.reservation_items

module _ (env : Env) (id : Uuid) (d0 : Database) (inv : Inv d0) where
  -- The database after the items took the status `target`.
  abbrev pub Marked : Status → (r s : Uuid → ℤ) → Database → Type 0
  Marked target r s d =
      (d ≡ record d0 {
        ticket_types = d.ticket_types;
        reservation_items = marked env.now id target d0.reservation_items;
      })
      × (ticket_ids d ≡ ticket_ids d0)
      × All (Counts r s) d.ticket_types

  list-Triple :
      Triple
        (λ d. d ≡ d0)
        (list_reservation_items env id)
        (λ items d. (items ≡ items_of id d0) × (d ≡ d0))
        (λ e. e ≡ failure)
  unfolding list_reservation_items
  list-Triple = Triple-reading env (items_of id) (λ d e. (ap (items_of id) e, e)) refl

  not_empty :
      (items : List ReservationItem) → any_reserved items ≡ true → (length items == 0) ≡ false
  not_empty [] h = cc
  not_empty (i ∷ items) h = ground arith

  mark-Triple :
      (target : Status) (r s : Uuid → ℤ) (items : List ReservationItem) (moved : Bool)
      → known_status target ≡ true
      → any_reserved items ≡ true
      → moved ≡ any_reserved items
      → Triple
          (Stage d0 (Counts r s))
          (mark_items env id target items moved)
          (λ _ d. Marked target r s d)
          (λ e. e ≡ failure)
  unfolding mark_items update_reservation_items_status
  mark-Triple target r s items moved k any_item m =
      rw (not_empty items any_item, m, any_item)
        (Triple-statement env (λ _. change_items env.now id target reserved)
          (λ _ d h. rw k (
            ap {A = Database} {B = Database}
                (λ x. record x { reservation_items = marked env.now id target x.reservation_items })
                h.0.0,
            h.0.1,
            h.1,
          ))
          refl)

  abbrev pub left : Status → Uuid → ℤ
  left target x = held reserved x (marked env.now id target d0.reservation_items)

  abbrev pub sold : Uuid → ℤ
  sold x = held confirmed x d0.reservation_items

  abbrev moving : Uuid → ℤ
  moving x = held reserved x (items_of id d0)

  reserved_split :
      (target : Status) (x : Uuid)
      → status_eq target reserved ≡ false
      → held reserved x d0.reservation_items ≡ left target x +ℤ moving x
  reserved_split target x h =
      rw (held-sort_by reserved x _ (select (belongs env.now id) d0.reservation_items))
        (held-marked_reserved env.now id target x d0.reservation_items h)

  left_nonneg : (target : Status) (x : Uuid) → pos 0 ≤ℤ left target x
  left_nonneg target x = held_nonneg reserved x (marked env.now id target d0.reservation_items) (
      All-update_where IsPositive IsPositive
        (λ i. same_uuid i.reservation_id id && status_eq i.status reserved)
        (set_item_status env.now target) d0.reservation_items (λ i p. ground arith) inv.positive)

  read-IsPositive : All IsPositive (items_of id d0)
  read-IsPositive = All-sort_by IsPositive _ _ (All-select IsPositive _ _ inv.positive)

  read-IsKnown : All (IsKnown (ticket_ids d0)) (items_of id d0)
  read-IsKnown =
      All-sort_by (IsKnown (ticket_ids d0)) _ _ (All-select (IsKnown (ticket_ids d0)) _ _ inv.known)

  -- The counters of a type before the loop, as the loop takes them.
  release_start :
      (target : Status) (t : TicketType)
      → status_eq target reserved ≡ false
      → Counts (λ x. held reserved x d0.reservation_items) sold t
      → Releasing (left target) sold (items_of id d0) t
  release_start target t h c = (c.0 ∙ reserved_split target t.id h, c.1, c.2)

  release_end :
      (target : Status) (t : TicketType)
      → Releasing (left target) sold [] t
      → Counts (left target) sold t
  unfolding held
  release_end target t c = grind int_laws

  -- The items leave the reserved ones, in their rows and in the counters; nothing is sold.
  pub release-Marked :
      (target : Status)
      → known_status target ≡ true
      → status_eq target reserved ≡ false
      → has_item id d0.reservation_items ≡ true
      → Triple
          (λ d. d ≡ d0)
          (release_reserved_quantity_items env id target)
          (λ _ d. Marked target (left target) sold d)
          (λ e. e ≡ failure)
  unfolding release_reserved_quantity_items
  release-Marked target k h covered = Triple-bind _ _ list-Triple λ items.
      Triple-assume (items ≡ items_of id d0) (λ d. d ≡ d0) _ _ _
        λ read. rw read (
          Triple-bind _ _
            (Triple-weaken (λ d. d ≡ d0) (Stage d0 (Releasing (left target) sold (items_of id d0)))
              (λ moved d.
                (moved ≡ any_reserved (items_of id d0)) × Stage d0 (Counts (left target) sold) d)
              _ _ _ _
              (release_items-Triple env (left target) sold (left_nonneg target) d0 (items_of id d0)
                read-IsPositive read-IsKnown)
              (λ d e. rw e (
                (refl, refl),
                All-mono _ _ d0.ticket_types (λ t. release_start target t h) inv.counted,
              ))
              (λ moved d p. (p.1, (p.0.0, All-mono _ _ d.ticket_types (release_end target) p.0.1)))
              (λ e p. p))
            (λ moved. Triple-assume _ (Stage d0 (Counts (left target) sold)) _ _ _ λ m.
              mark-Triple target (left target) sold (items_of id d0) moved k
                (any_reserved-items_of id d0 ∙ covered) m))

  abbrev pub sold_after : Uuid → ℤ
  sold_after x = held confirmed x (marked env.now id confirmed d0.reservation_items)

  sold_split : (x : Uuid) → sold_after x ≡ sold x +ℤ moving x
  sold_split x =
      rw (held-sort_by reserved x _ (select (belongs env.now id) d0.reservation_items))
        (held-marked_confirmed env.now id x d0.reservation_items)

  confirm_start :
      (t : TicketType)
      → Counts (λ x. held reserved x d0.reservation_items) sold t
      → Confirming (left confirmed) sold_after (items_of id d0) t
  unfolding status_eq
  confirm_start t c =
      (c.0 ∙ reserved_split confirmed t.id refl, c.1 ∙ sub_of_add _ _ _ (sold_split t.id), c.2)

  confirm_end :
      (t : TicketType)
      → Confirming (left confirmed) sold_after [] t
      → Counts (left confirmed) sold_after t
  unfolding held
  confirm_end t c = grind int_laws

  -- The items leave the reserved ones and count as sold, in their rows and in the counters.
  pub confirm-Marked :
      has_item id d0.reservation_items ≡ true
      → Triple
          (λ d. d ≡ d0)
          (confirm_reserved_quantity_items env id)
          (λ _ d. Marked confirmed (left confirmed) sold_after d)
          (λ e. e ≡ failure)
  unfolding confirm_reserved_quantity_items
  confirm-Marked covered = Triple-bind _ _ list-Triple λ items.
      Triple-assume (items ≡ items_of id d0) (λ d. d ≡ d0) _ _ _
        λ read. rw read (
          Triple-bind _ _
            (Triple-weaken (λ d. d ≡ d0)
              (Stage d0 (Confirming (left confirmed) sold_after (items_of id d0)))
              (λ moved d.
                (moved ≡ any_reserved (items_of id d0))
                × Stage d0 (Counts (left confirmed) sold_after) d)
              _ _ _ _
              (confirm_items-Triple env (left confirmed) sold_after (left_nonneg confirmed) d0
                (items_of id d0) read-IsPositive read-IsKnown)
              (λ d e. rw e ((refl, refl), All-mono _ _ d0.ticket_types confirm_start inv.counted))
              (λ moved d p. (p.1, (p.0.0, All-mono _ _ d.ticket_types confirm_end p.0.1)))
              (λ e p. p))
            (λ moved. Triple-assume _ (Stage d0 (Counts (left confirmed) sold_after)) _ _ _ λ m.
              mark-Triple confirmed (left confirmed) sold_after (items_of id d0) moved refl
                (any_reserved-items_of id d0 ∙ covered) m))
