-- ===== src/Tests/LifecycleExamples.antt =====
-- The theorems on the lifecycle at the reservation of three tickets, whose deadline is 60.
use study_ticket_reservation.Reservations.Lifecycle.{get_reservation}
use study_ticket_reservation.Inventory.Reading.{Gets, GetFails, get_reservation_lem}
use study_ticket_reservation.Base.{◌≡◌, refl, true, some, [], ◌∷◌, arith}
use study_ticket_reservation.Base.Int.{pos}
use study_ticket_reservation.Base.Text.{text}
use study_ticket_reservation.Db.Tx.{failure}
use study_ticket_reservation.Db.Transactions.{Settled}
use study_ticket_reservation.Db.Triples.{Post}
use study_ticket_reservation.Sqlc.Models.{confirmed, cancelled, status_eq}
use study_ticket_reservation.Reservations.Service.{timestamp}
use study_ticket_reservation.Reservations.Lifecycle.{
  cancel_reservation, confirm_reservation, expire_expired_reservations,
}
use study_ticket_reservation.Inventory.Invariant.{Inv, has_item}
use study_ticket_reservation.Inventory.Requests.{IsRefusal}
use study_ticket_reservation.Inventory.Lifecycle.{after_cancel, after_confirm, AnswersFound}
use study_ticket_reservation.Inventory.Batch.{Expired, batch}
use study_ticket_reservation.Reservations.Transitions.{
  release_reserved_quantity_items, confirm_reserved_quantity_items,
}
use study_ticket_reservation.Reservations.Handler.{
  handle_cancel_reservation, handle_confirm_reservation,
}
use study_ticket_reservation.Inventory.Release.{Marked, left, sold, sold_after}
use study_ticket_reservation.Inventory.Replies.{IsConsistent}
use study_ticket_reservation.Inventory.Guarantees.{
  cancel_reservation_lem, confirm_reservation_lem, expire_expired_reservations_lem,
  handle_cancel_reservation_lem, handle_confirm_reservation_lem,
  release_reserved_quantity_items_lem, confirm_reserved_quantity_items_lem,
}
use study_ticket_reservation.Tests.Runs
use study_ticket_reservation.Tests.Samples.{uuid, service, calm, session}
use study_ticket_reservation.Tests.Start.{three, three-Inv, from_three}

cancel_reservation_lem_example :
    Settled
      (AnswersFound (calm 200) session three three-Inv 20 (uuid 103) after_cancel)
      IsRefusal
      three
      (cancel_reservation (calm 200) session 20 (uuid 103) from_three)
cancel_reservation_lem_example =
    cancel_reservation_lem (calm 200) session 20 (uuid 103) from_three three-Inv

confirm_reservation_lem_example :
    Settled
      (AnswersFound (calm 200) session three three-Inv 20 (uuid 103) after_confirm)
      IsRefusal
      three
      (confirm_reservation (calm 200) session 20 (uuid 103) from_three)
confirm_reservation_lem_example =
    confirm_reservation_lem (calm 200) session 20 (uuid 103) from_three three-Inv

-- The deadline of the reservation is 60.
expire_expired_reservations_lem_example :
    Settled
      (Expired (calm 200) (batch (calm 200) (timestamp 61) 5 three) three)
      (λ e. e ≡ failure)
      three
      (expire_expired_reservations (calm 200) 61 (pos 5) from_three)
expire_expired_reservations_lem_example =
    expire_expired_reservations_lem (calm 200) 61 5 from_three (omega arith) three-Inv

-- The cookie of the session hashes to "h", and the id in the path is one code point.
handle_cancel_reservation_lem_example :
    Post
      (λ reply d. Inv d × IsConsistent cancelled reply)
      (λ _. ⊥)
      (handle_cancel_reservation
        (calm 200)
        service
        (λ c. text "h")
        19
        (some (text "c"))
        20
        (103 ∷ [])
        from_three)
handle_cancel_reservation_lem_example =
    handle_cancel_reservation_lem (calm 200) service (λ c. text "h") 19 20 (some (text "c"))
      (103 ∷ []) from_three three-Inv

handle_confirm_reservation_lem_example :
    Post
      (λ reply d. Inv d × IsConsistent confirmed reply)
      (λ _. ⊥)
      (handle_confirm_reservation
        (calm 200)
        service
        (λ c. text "h")
        19
        (some (text "c"))
        20
        (103 ∷ [])
        from_three)
handle_confirm_reservation_lem_example =
    handle_confirm_reservation_lem (calm 200) service (λ c. text "h") 19 20 (some (text "c"))
      (103 ∷ []) from_three three-Inv

-- The three tickets are an item that is still reserved.
three-has_item : has_item (uuid 103) three.reservation_items ≡ true
unfolding Runs.inventory
three-has_item = refl

release_reserved_quantity_items_lem_example :
    Post
      (λ _ d.
        Marked
          (calm 200)
          (uuid 103)
          three
          three-Inv
          cancelled
          (left (calm 200) (uuid 103) three three-Inv cancelled)
          (sold (calm 200) (uuid 103) three three-Inv)
          d)
      (λ e. e ≡ failure)
      (release_reserved_quantity_items (calm 200) (uuid 103) cancelled from_three)
unfolding status_eq
release_reserved_quantity_items_lem_example =
    release_reserved_quantity_items_lem (calm 200) (uuid 103) from_three three-Inv three-has_item
      cancelled refl refl

confirm_reserved_quantity_items_lem_example :
    Post
      (λ _ d.
        Marked
          (calm 200)
          (uuid 103)
          three
          three-Inv
          confirmed
          (left (calm 200) (uuid 103) three three-Inv confirmed)
          (sold_after (calm 200) (uuid 103) three three-Inv)
          d)
      (λ e. e ≡ failure)
      (confirm_reserved_quantity_items (calm 200) (uuid 103) from_three)
confirm_reserved_quantity_items_lem_example =
    confirm_reserved_quantity_items_lem (calm 200) (uuid 103) from_three three-Inv three-has_item

get_reservation_lem_example :
    Settled
      (Gets session (uuid 103) three)
      (GetFails session (uuid 103) three)
      three
      (get_reservation (calm 200) session (uuid 103) from_three)
get_reservation_lem_example = get_reservation_lem (calm 200) session (uuid 103) from_three
