-- ===== src/Inventory/Access.antt =====
-- Who may access a reservation (internal/modules/reservations/service.go).
use study_ticket_reservation.Base.{◌≡◌, refl, ◌⊎◌, true, false, ◌&&◌, inl, inr, Bool-cases, arith}
use study_ticket_reservation.Db.Types.{same_uuid}
use study_ticket_reservation.Sqlc.Models.{Reservation, VisitorSession}
use study_ticket_reservation.Reservations.Responses.{can_access_reservation}

-- The session made the reservation, or the same user did who is logged in to it.
abbrev pub MayAccess : VisitorSession → Reservation → Type 0
MayAccess session r =
    (same_uuid r.visitor_session_id session.id ≡ true)
    ⊎ ((r.user_id.valid ≡ true)
        × (session.user_id.valid ≡ true)
        × (same_uuid r.user_id session.user_id ≡ true))

pub access_lem :
    (r : Reservation) (session : VisitorSession)
    → ((can_access_reservation r session ≡ true) × MayAccess session r)
      ⊎ ((can_access_reservation r session ≡ false) × ¬ MayAccess session r)
unfolding can_access_reservation
access_lem r session = elim (Bool-cases (same_uuid r.visitor_session_id session.id)) [
  | inl own ↦
      let granted : can_access_reservation r session ≡ true = rw own refl in inl (granted, inl own)
  | inr other ↦
      elim (Bool-cases
        (r.user_id.valid && session.user_id.valid && same_uuid r.user_id session.user_id)) [
          | inl user ↦
              let granted : can_access_reservation r session ≡ true = rw (other, user) refl in
              inl (granted, inr (ground arith, ground arith, ground arith))
          | inr stranger ↦
              let refused : can_access_reservation r session ≡ false = rw (other, stranger) refl in
              inr (refused, λ may. neither other stranger may)
        ]
]
  where
    neither :
        same_uuid r.visitor_session_id session.id ≡ false
        → (r.user_id.valid && session.user_id.valid && same_uuid r.user_id session.user_id) ≡ false
        → ¬ MayAccess session r
    neither other stranger (inl own) = cc
    neither other stranger (inr user) = let (a, b, c) = user in ground arith
