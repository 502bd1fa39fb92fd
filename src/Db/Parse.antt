-- ===== src/Db/Parse.antt =====
-- `db.ParseUUID`. `scan` stands for `pgtype.UUID.Scan` on a string, which is not part of the program.
use study_ticket_reservation.Base.{Option, none, some}
use study_ticket_reservation.Base.Text.{Text}
use study_ticket_reservation.Db.Types.{Uuid}
use study_ticket_reservation.Db.Tx.{invalid_uuid, Result, ok, err}

unfoldable pub parse_uuid : (scan : Text → Option Uuid) → Text → Result Uuid
parse_uuid scan value = elim (scan value) [ some id ↦ ok id | none ↦ err invalid_uuid ]
