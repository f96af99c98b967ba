-- ===== src/Response/Writer.antt =====
-- `ResponseWriter` of response.go. The connection's buffered writer is the list of the texts that
-- have been written to it; whether a write and a flush succeed is the environment's choice.
use gldap.Base.{
  Bool, List, Option, Text, [], false, int_eq, none, not, pos, some, true, ℤ, ◌++◌, ◌∷◌,
}
use gldap.Outcome.{Outcome, ensure, err, invalid_parameter, library, ok, ◌>>◌}
use gldap.Ber.{Ber}
use gldap.Response.{Response, response_packet}

pub record ResponseWriter : Type 0 where
  pub conn_id : ℤ
  pub request_id : ℤ

-- `newResponseWriter`; the first three arguments say whether the writer, its lock and the logger are
-- there.
unfoldable pub new_response_writer : (writer lock logger : Bool) → ℤ → ℤ → Outcome ResponseWriter
new_response_writer writer lock logger conn_id request_id = do
  ensure writer invalid_parameter
  ensure lock invalid_parameter
  ensure logger invalid_parameter
  ensure (not (int_eq conn_id (pos 0))) invalid_parameter
  ensure (not (int_eq request_id (pos 0))) invalid_parameter
  ok (record { conn_id = conn_id; request_id = request_id })

-- `(*ResponseWriter).Write`: its error, and what has been written. A failed write writes nothing.
unfoldable pub write :
    (b : Ber) (write_ok flush_ok : Bool)
    → Option Response
    → List Text
    → Outcome (Unit {0}) × List Text
write b write_ok flush_ok none sent = (err invalid_parameter, sent)
write b false flush_ok (some r) sent = (err library, sent)
write b true false (some r) sent = (err library, sent ++ b.bytes (response_packet b r) ∷ [])
write b true true (some r) sent = (ok tt, sent ++ b.bytes (response_packet b r) ∷ [])
