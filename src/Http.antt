-- ===== src/Http.antt =====
-- What a handler writes (internal/httpserver/response.go), and the steps that the handlers of
-- internal/modules share.
use study_ticket_reservation.Base.{ℕ, Option, none, some}
use study_ticket_reservation.Base.Text.{Text, text}
use study_ticket_reservation.Db.Tx.{Error, Result, ok, err, Action, pure}
use study_ticket_reservation.Sqlc.Database.{Database}

-- `WriteJSON` with a payload, or `WriteError` with a code and a message.
pub data Reply (A : Type 0) : Type 0 where
  answered : (status_code : ℕ) (payload : A) → Reply A
  refused : (status_code : ℕ) (code message : Text) → Reply A

module _ {A : Type 0} where
  -- `if err != nil`, else the payload.
  unfoldable pub reply : ℕ → (Error → Reply A) → Result A → Reply A
  reply status_code on_failure (ok a) = answered status_code a
  reply status_code on_failure (err e) = on_failure e

  -- The decoded body.
  unfoldable pub for_payload :
      {B : Type 0} → Option B → (B → Action Database (Reply A)) → Action Database (Reply A)
  for_payload (some payload) next = next payload
  for_payload none next =
      pure (refused 400 (text "INVALID_JSON") (text "Request body must be valid JSON"))
