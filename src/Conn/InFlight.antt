-- ===== src/Conn/InFlight.antt =====
-- Requests in flight with ascending request IDs.
use gldap.Base.{List, [], arith, pos, suc, ℕ, ℤ, ◌++◌, ◌<◌, ◌∷◌, ◌≡◌, ◌≢◌, ◌≤◌}
use gldap.Request.{Request, unbind_route_operation}
use gldap.Response.Writer.{ResponseWriter}
use gldap.Route.Matching.{IsConsistent}
use gldap.Message.{extended_operation_start_tls}

-- A request in flight: its writer is the connection's, both carry the request ID `n` of the turn that
-- read it, and it is neither an unbind request nor a StartTLS request.
pub record IsTracked (conn_id : ℤ) (n : ℕ) (w : ResponseWriter) (req : Request) : Type 0 where
  pub same_conn : w.conn_id ≡ conn_id
  pub same_request : w.request_id ≡ pos n
  pub same_id : req.id ≡ pos n
  pub consistent : IsConsistent req
  pub no_unbind : req.route_op ≢ unbind_route_operation
  pub no_start_tls : req.extended_name ≢ extended_operation_start_tls

-- Requests in flight by strictly ascending request IDs above `low`, up to `high`.
abbrev pub IsOrdered : ℤ → ℕ → List (ResponseWriter × Request) → ℕ → Type 0
IsOrdered conn_id low [] high = low ≤ high
IsOrdered conn_id low ((w, req) ∷ rest) high =
    (n : ℕ) × IsTracked conn_id n w req × (low < n) × IsOrdered conn_id n rest high

IsOrdered-lower :
    (conn_id : ℤ) (low low' : ℕ) (xs : List (ResponseWriter × Request)) (high : ℕ)
    → low' ≤ low
    → IsOrdered conn_id low xs high
    → IsOrdered conn_id low' xs high
IsOrdered-lower conn_id low low' [] high h o = omega arith
IsOrdered-lower conn_id low low' ((w, req) ∷ xs) high h (n, t, l, o) = (n, t, omega arith, o)

pub IsOrdered-later :
    (conn_id : ℤ) (low : ℕ) (xs : List (ResponseWriter × Request)) (high : ℕ)
    → IsOrdered conn_id low xs high
    → IsOrdered conn_id low xs (suc high)
IsOrdered-later conn_id low [] high o = omega arith
IsOrdered-later conn_id low ((w, req) ∷ xs) high (n, t, l, o) =
    (n, t, l, IsOrdered-later conn_id n xs high o)

pub IsOrdered-append :
    (conn_id : ℤ) (low : ℕ) (xs : List (ResponseWriter × Request)) (high : ℕ) (w : ResponseWriter)
    (req : Request)
    → IsOrdered conn_id low xs high
    → IsTracked conn_id (suc high) w req
    → IsOrdered conn_id low (xs ++ (w, req) ∷ []) (suc high)
IsOrdered-append conn_id low [] high w req o t = (suc high, t, omega arith, omega arith)
IsOrdered-append conn_id low ((v, q) ∷ xs) high w req (n, u, l, o) t =
    (n, u, l, IsOrdered-append conn_id n xs high w req o t)

pub IsOrdered-remove :
    (conn_id : ℤ) (low : ℕ) (before after : List (ResponseWriter × Request)) (w : ResponseWriter)
    (req : Request) (high : ℕ)
    → IsOrdered conn_id low (before ++ (w, req) ∷ after) high
    → IsOrdered conn_id low (before ++ after) high
IsOrdered-remove conn_id low [] after w req high (n, t, l, o) =
    IsOrdered-lower conn_id n low after high (omega arith) o
IsOrdered-remove conn_id low ((v, q) ∷ before) after w req high (n, t, l, o) =
    (n, t, l, IsOrdered-remove conn_id n before after w req high o)
