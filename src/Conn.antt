-- ===== src/Conn.antt =====
-- conn.go: a connection. `serveRequests` reads a request in each turn of its loop and hands it to a
-- goroutine of its own, except that an unbind request ends the loop and a StartTLS request is served
-- before the next one is read. The goroutines' order is the environment's choice, so a connection is a
-- state with a step relation: the halves of a turn of the loop, the end of one of the requests in flight, a change
-- of the network's state, and `close`.
pub mod InFlight
pub mod Invariant
pub mod Turns
use gldap.Base.{
  Bool, List, Option, Text, [], codes, false, if◌then◌else◌, int_eq, none, not, pos, some, suc,
  text_eq, true, ℕ, ℤ, ◌++◌, ◌∷◌, ◌≡◌, ◌≢◌,
}
use gldap.Outcome.{Outcome, ensure, err, invalid_parameter, library, ok, panic, ◌>>=◌, ◌>>◌}
use gldap.Options.{message}
use gldap.Options.Apply.{with_diagnostic_message, with_response_code}
use gldap.Ber.{Ber, Packet, value}
use gldap.Codes.{result_unwilling_to_perform}
use gldap.Packet.{LdapPacket, basic_validation}
use gldap.Decode.{Ldap}
use gldap.Message.{
  Message, extended_operation, extended_operation_disconnection, extended_operation_start_tls,
}
use gldap.Response.{Response, general_response}
use gldap.Response.Writer.{ResponseWriter, new_response_writer, write}
use gldap.Request.{Request, new_request, new_response, unbind_route_operation}
use gldap.Route.{Route, Session, handler}
use gldap.Mux.{Mux, call, serve}

-- What the environment gives to a turn: the shutdown context is done, with whether the read deadline
-- can be set, or else what `ber.ReadPacket` returns. An end of the input is an error that is `io.EOF`
-- or that names an unexpected EOF. Errors have no text here, so it is the environment's choice too
-- whether an error of making a request from the packet, if there is one, is or names such an end.
pub data Input : Type 0 where
  shutdown : (deadline_ok : Bool) → Input
  received : Packet → (names_eof : Bool) → Input
  end_of_input : Input
  read_failed : Input

-- Whether it is the `select` that finds the server stopping.
abbrev pub is_shutdown : Input → Bool
is_shutdown (shutdown deadline_ok) = true
is_shutdown input = false

-- How `serveRequests` stands: it is before the `select` of its loop; it is behind the `select`, where
-- it waits in `ber.ReadPacket` or for a handler that it calls itself; it has returned, or panicked, with the outcome; or the
-- connection is closed. A panic in a request's goroutine, which nothing recovers, ends the process.
pub data Status : Type 0 where
  serving : Status
  reading : Status
  returned : Outcome (Unit {0}) → Status
  closed : Status
  crashed : Status

-- `conn`, with the request ID of the loop and the requests whose goroutines have not ended
-- (`requestsWg`). The logger, the buffers and the locks are left out.
pub record Conn {ℓ} (S : Type ℓ) : Type ℓ where
  pub conn_id : ℤ
  pub router : Mux S
  pub request_id : ℕ
  pub session : Session S
  pub in_flight : List (ResponseWriter × Request)
  pub status : Status

-- `initConn`, on the session of the network connection, if there is one
abbrev pub init_conn {ℓ} : {S : Type ℓ} → Option (Session S) → Outcome (Session S)
init_conn none = err invalid_parameter
init_conn (some s) = ok s

-- `newConn`: whether the context, the connection, the logger and the router are there.
unfoldable pub new_conn {ℓ} :
    {S : Type ℓ} (context : Bool)
    → ℤ
    → (net_conn : Option (Session S)) (logger : Bool) → Option (Mux S)
    → Outcome (Conn S)
new_conn context conn_id net_conn logger router = do
  ensure context invalid_parameter
  ensure (not (int_eq conn_id (pos 0))) invalid_parameter
  session ← init_conn net_conn
  ensure logger invalid_parameter
  mux ← elim router [ none ↦ err invalid_parameter | some m ↦ ok m ]
  ok (record {
    conn_id = conn_id;
    router = mux;
    request_id = 0;
    session = session;
    in_flight = [];
    status = serving;
  })

-- The request that `serveRequests` builds by hand when the server stops.
abbrev pub disconnection_request : ResponseWriter → Request
disconnection_request w = record {
  id = w.request_id;
  conn_id = w.conn_id;
  message = Message.extended_operation (record { id = pos 0; name = []; value = [] });
  route_op = extended_operation_disconnection;
  extended_name = extended_operation_disconnection;
}

abbrev pub disconnection : ResponseWriter → Response
disconnection w = general_response (
    new_response (disconnection_request w) (
      with_response_code result_unwilling_to_perform
      ∷ with_diagnostic_message (codes "server stopping")
      ∷ []))

-- `readPacket`, behind the reading itself.
unfoldable pub read_packet : Packet → Outcome LdapPacket
read_packet p = basic_validation (record { ber = p; validated = false })

-- `readRequest`
unfoldable pub read_request : Ber → Ldap → ℤ → ℤ → Packet → Outcome Request
read_request b ldap conn_id request_id p = do
  q ← read_packet p
  new_request b ldap request_id (some conn_id) (some q)

-- A turn's end: the loop goes on, maybe with a goroutine for a request, or `serveRequests` ends.
pub data Turn {ℓ} (S : Type ℓ) : Type ℓ where
  again : Session S → List (ResponseWriter × Request) → Turn S
  finish : Session S → Outcome (Unit {0}) → Turn S

module _ {ℓ} {S : Type ℓ} where
  -- A handler called within the loop.
  abbrev pub after_call : Session S → (Session S → Turn S) → Option (Session S) → Turn S
  after_call s k none = finish s panic
  after_call s k (some s') = k s'

  -- `if err != nil { return ... }` within the loop.
  abbrev pub after_outcome : {A : Type 0} → Session S → (A → Turn S) → Outcome A → Turn S
  after_outcome s k (ok a) = k a
  after_outcome s k (err e) = finish s (err e)
  after_outcome s k panic = finish s panic

  -- The end of `readRequest` within the loop: an error that is or names an end of the input ends
  -- `serveRequests` without one.
  abbrev pub after_request :
      Session S → (names_eof : Bool) → (Request → Turn S) → Outcome Request → Turn S
  after_request s names_eof k (ok req) = k req
  after_request s names_eof k (err e) = finish s (if names_eof then ok tt else err e)
  after_request s names_eof k panic = finish s panic

  -- The optional unbind route.
  abbrev pub call_unbind :
      Option (Route S) → ResponseWriter → Request → Session S → Option (Session S)
  call_unbind none w req s = some s
  call_unbind (some r) w req s = call (handler r) w req s

  abbrev pub take_turn : Conn S → ℕ → Turn S → Conn S
  take_turn c id (again s new) = record c {
    request_id = id;
    session = s;
    in_flight = c.in_flight ++ new;
    status = serving;
  }
  take_turn c id (finish s o) = record c { request_id = id; session = s; status = returned o }

  -- The goroutine of a request ends; the requests around it stay in flight.
  abbrev pub end_request :
      (before after : List (ResponseWriter × Request)) → Option (Session S) → Conn S → Conn S
  end_request before after none c = record c { status = crashed }
  end_request before after (some s) c = record c { session = s; in_flight = before ++ after }

module _ {ℓ} {S : Type ℓ} (b : Ber) (ldap : Ldap) (fold : Text → Text → Bool) where
  -- The switch of `serveRequests`.
  unfoldable pub dispatch : Mux S → ResponseWriter → Request → Session S → Turn S
  dispatch m w req s =
      if text_eq req.route_op unbind_route_operation
      then after_call s (λ s'. finish s' (ok tt)) (call_unbind m.unbind_route w req s)
      else if text_eq req.extended_name extended_operation_start_tls
      then after_call s (λ s'. again s' []) (serve b fold (some w) (some req) m s)
      else again s ((w, req) ∷ [])

  -- The end of the loop at a shutdown: one response, and a read deadline.
  unfoldable pub disconnect : ResponseWriter → (deadline_ok : Bool) → Session S → Turn S
  disconnect w deadline_ok s =
      let written = write b s.write_ok s.flush_ok (some (disconnection w)) s.sent in
      finish (record s { sent = written.1 })
        (do written.0; if deadline_ok then ok tt else err library)

  -- A turn of the loop of `serveRequests`, behind the making of its writer.
  unfoldable pub turn_with : ℤ → Mux S → ResponseWriter → Input → Session S → Turn S
  turn_with conn_id m w (shutdown deadline_ok) s = disconnect w deadline_ok s
  turn_with conn_id m w end_of_input s = finish s (ok tt)
  turn_with conn_id m w read_failed s = finish s (err library)
  turn_with conn_id m w (received p names_eof) s =
      after_request s names_eof (λ req. dispatch m w req s)
        (read_request b ldap conn_id w.request_id p)

  unfoldable pub turn : ℤ → Mux S → ℤ → Input → Session S → Turn S
  turn conn_id m request_id input s =
      after_outcome s (λ w. turn_with conn_id m w input s)
        (new_response_writer true true true conn_id request_id)

  -- One turn of the loop: `requestID++` and the rest of its body.
  unfoldable pub serve_turn : Input → Conn S → Conn S
  serve_turn input c =
      take_turn c (suc c.request_id)
        (turn c.conn_id c.router (pos (suc c.request_id)) input c.session)

  unfoldable pub serve_in_flight :
      (before after : List (ResponseWriter × Request)) → ResponseWriter → Request → Conn S → Conn S
  serve_in_flight before after w req c =
      end_request before after (serve b fold (some w) (some req) c.router c.session) c

  pub data Step (c : Conn S) : Conn S → Type ℓ where
    -- The `select`, while the shutdown context is not done.
    by_wait : c.status ≡ serving → Step c (record c { status = reading })
    -- The `select`, once it is done.
    by_shutdown :
        (deadline_ok : Bool) → c.status ≡ serving → Step c (serve_turn (shutdown deadline_ok) c)
    -- The rest of the turn, at any time behind its `select`. The read and the handler that the loop
    -- calls itself are one step, at the handler's end: until then the loop changes nothing that
    -- another goroutine sees.
    by_turn :
        (input : Input)
        → c.status ≡ reading
        → is_shutdown input ≡ false
        → Step c (serve_turn input c)
    by_request :
        (before after : List (ResponseWriter × Request)) (w : ResponseWriter) (req : Request)
        → c.in_flight ≡ before ++ (w, req) ∷ after
        → c.status ≢ crashed
        → Step c (serve_in_flight before after w req c)
    by_network :
        (write_ok flush_ok : Bool)
        → Step c
            (record c { session = record c.session { write_ok = write_ok; flush_ok = flush_ok } })
    -- `close`, which waits for the requests' goroutines.
    by_close :
        (o : Outcome (Unit {0}))
        → c.status ≡ returned o
        → c.in_flight ≡ []
        → Step c (record c { status = closed })

  pub data Reachable (c : Conn S) : Conn S → Type ℓ where
    start : Reachable c c
    more : (d e : Conn S) → Reachable c d → Step d e → Reachable c e
