-- ===== src/Conn/Turns.antt =====
-- Single turns of the loop of `serveRequests`.
use gldap.Base.{
  Bool, Bool-cases, Text, [], arith, codes, false, if◌then◌else◌, inl, inr, int_eq, pos, some, suc,
  text_eq, text_eq_iff, true, ℕ, ℤ, ◌&&◌, ◌++◌, ◌↔◌, ◌∷◌, ◌≡◌, ◌≢◌, ◌⊎◌,
}
use gldap.Outcome.{Error, Outcome-cases, err, library, ok, panic}
use gldap.Ber.{Ber, IsBer, Packet}
use gldap.Codes.{application_extended_response, result_unwilling_to_perform}
use gldap.Decode.{Ldap}
use gldap.Message.{Message, extended_operation_start_tls, get_id}
use gldap.Request.{Request, extended_name_of, new_response, operation_of, unbind_route_operation}
use gldap.Response.{general_response, response_packet}
use gldap.Response.Reading.{IsResponse}
use gldap.Response.Shape.{response_packet-IsResponse}
use gldap.Response.Writer.{ResponseWriter, new_response_writer, write}
use gldap.Route.{Session}
use gldap.Mux.{Mux, serve}
use gldap.Conn.{
  Conn, Input, after_call, again, call_unbind, disconnect, disconnection, dispatch, finish,
  read_request, received, returned, serve_turn, serving, shutdown, take_turn, turn, turn_with,
}
use gldap.Conn.Invariant.{read_request-IsConsistent}

-- The writer of a turn.
abbrev pub turn_writer : ℤ → ℕ → ResponseWriter
turn_writer conn_id n = record { conn_id = conn_id; request_id = pos n }

new_response_writer-ok :
    (conn_id : ℤ) (n : ℕ)
    → int_eq conn_id (pos 0) ≡ false
    → new_response_writer true true true conn_id (pos (suc n)) ≡ ok (turn_writer conn_id (suc n))
unfolding new_response_writer
new_response_writer-ok conn_id n h = ground arith

-- Only an unbind request has its operation.
operation_of-unbind :
    (m : Message)
    → (text_eq (operation_of m) unbind_route_operation ≡ true) ↔ (m ≡ Message.unbind (get_id m))
unfolding operation_of text_eq
operation_of-unbind m = ground arith

module _ {ℓ} {S : Type ℓ} (b : Ber) (ldap : Ldap) (fold : Text → Text → Bool) where
  turn-eq-turn_with :
      (conn_id : ℤ) (n : ℕ) (m : Mux S) (input : Input) (s : Session S)
      → int_eq conn_id (pos 0) ≡ false
      → turn b ldap fold conn_id m (pos (suc n)) input s
        ≡ turn_with b ldap fold conn_id m (turn_writer conn_id (suc n)) input s
  unfolding turn
  turn-eq-turn_with conn_id n m input s h = rw (new_response_writer-ok conn_id n h)

  -- On a connection whose ID is not 0, a turn that finds the server stopping ends the loop, reads
  -- nothing and starts nothing. If the network takes the write, the bytes of one response are
  -- written: message ID 0, the tag of an extended response, the code "unwilling to perform" and the
  -- diagnostic message "server stopping"; otherwise nothing is written. `serveRequests` returns nil
  -- if the write and the flush succeed and the read deadline can be set, and otherwise an error.
  pub serve_turn-shutdown :
      (deadline_ok : Bool) (c : Conn S)
      → IsBer b
      → int_eq c.conn_id (pos 0) ≡ false
      → (p : Packet) × (serve_turn b ldap fold (shutdown deadline_ok) c ≡ record c {
        request_id = suc c.request_id;
        session = record c.session {
          sent = if c.session.write_ok then c.session.sent ++ b.bytes p ∷ [] else c.session.sent;
        };
        status = returned (
            if c.session.write_ok && c.session.flush_ok && deadline_ok then ok tt else err library);
      })
        × IsResponse b
            (general_response (record {
              base = record {
                message_id = pos 0;
                code = result_unwilling_to_perform;
                diag_message = codes "server stopping";
                matched_dn = codes "Unused";
              };
              application_code = pos application_extended_response;
            }))
            p
  unfolding serve_turn turn_with disconnect write new_response
  serve_turn-shutdown deadline_ok c l hc =
      let w = turn_writer c.conn_id (suc c.request_id) in
      let enter =
        turn-eq-turn_with c.conn_id c.request_id c.router (shutdown deadline_ok) c.session hc in
      (
        response_packet b (disconnection w),
        elim (Bool-cases c.session.write_ok) [
          | inl hw ↦ elim (Bool-cases c.session.flush_ok) [
            | inl hf ↦ rw (enter, hw, hf)
            | inr hf ↦ rw (enter, hw, hf)
          ]
          | inr hw ↦ rw (enter, hw)
        ],
        response_packet-IsResponse b l (disconnection w),
      )

  -- On a connection whose ID is not 0, a packet of which no request can be made ends the loop,
  -- writes nothing and starts nothing. If making the request returns an error, `serveRequests`
  -- returns nil where that error is or names an unexpected end of the input, and the error
  -- otherwise; if it panics, so does `serveRequests`.
  pub serve_turn-unreadable :
      (p : Packet) (names_eof : Bool) (c : Conn S)
      → int_eq c.conn_id (pos 0) ≡ false
      → ((req : Request) → read_request b ldap c.conn_id (pos (suc c.request_id)) p ≢ ok req)
      → ((e : Error) × (read_request b ldap c.conn_id (pos (suc c.request_id)) p ≡ err e)
          × (serve_turn b ldap fold (received p names_eof) c ≡ record c {
            request_id = suc c.request_id;
            status = returned (if names_eof then ok tt else err e);
          }))
        ⊎ ((read_request b ldap c.conn_id (pos (suc c.request_id)) p ≡ panic)
            × (serve_turn b ldap fold (received p names_eof) c
                ≡ record c { request_id = suc c.request_id; status = returned panic }))
  unfolding serve_turn turn_with
  serve_turn-unreadable p names_eof c hc h =
      let enter =
        turn-eq-turn_with c.conn_id c.request_id c.router (received p names_eof) c.session hc in
      elim (Outcome-cases (read_request b ldap c.conn_id (pos (suc c.request_id)) p)) [
        | inl (req, e) ↦ absurd (h req e)
        | inr (inl (e, failed)) ↦ inl (e, failed, rw (enter, failed))
        | inr (inr panicked) ↦ inr (panicked, rw (enter, panicked))
      ]

  -- A turn that reads a request ends the loop at an unbind request, behind the unbind route's
  -- handler; serves a StartTLS request within the turn; and leaves any other request in flight
  -- behind those that are.
  pub serve_turn-readable :
      (p : Packet) (names_eof : Bool) (c : Conn S) (req : Request)
      → int_eq c.conn_id (pos 0) ≡ false
      → read_request b ldap c.conn_id (pos (suc c.request_id)) p ≡ ok req
      → ((req.message ≡ Message.unbind (get_id req.message))
          × (serve_turn b ldap fold (received p names_eof) c
              ≡ take_turn c (suc c.request_id) (
                  after_call c.session
                    (λ s. finish s (ok tt))
                    (call_unbind c.router.unbind_route
                      (turn_writer c.conn_id (suc c.request_id))
                      req
                      c.session))))
        ⊎ ((extended_name_of req.message ≡ extended_operation_start_tls)
            × (serve_turn b ldap fold (received p names_eof) c
                ≡ take_turn c (suc c.request_id) (
                    after_call c.session
                      (λ s. again s [])
                      (serve b fold
                        (some (turn_writer c.conn_id (suc c.request_id)))
                        (some req)
                        c.router
                        c.session))))
        ⊎ ((req.message ≢ Message.unbind (get_id req.message))
            × (extended_name_of req.message ≢ extended_operation_start_tls)
            × (serve_turn b ldap fold (received p names_eof) c ≡ record c {
              request_id = suc c.request_id;
              in_flight = c.in_flight ++ (turn_writer c.conn_id (suc c.request_id), req) ∷ [];
              status = serving;
            }))
  unfolding serve_turn turn_with dispatch
  serve_turn-readable p names_eof c req hc h =
      let w = turn_writer c.conn_id (suc c.request_id) in
      let i = (read_request-IsConsistent b ldap c.conn_id (pos (suc c.request_id)) p req h).1 in
      let enter =
        turn-eq-turn_with c.conn_id c.request_id c.router (received p names_eof) c.session hc in
      let is_unbind = operation_of-unbind req.message in
      let is_tls = text_eq_iff (extended_name_of req.message) extended_operation_start_tls in
      elim (Bool-cases (text_eq (operation_of req.message) unbind_route_operation)) [
        | inl on ↦ inl (is_unbind.0 on, rw (enter, h, i.has_operation, on))
        | inr off ↦
            elim (Bool-cases
              (text_eq (extended_name_of req.message) extended_operation_start_tls)) [
                | inl tls ↦
                    inr (inl (is_tls.0 tls, rw (enter, h, i.has_operation, off, i.has_name, tls)))
                | inr plain_name ↦ inr (
                    inr (
                      λ e. cc (off, is_unbind.1 e),
                      λ e. cc (plain_name, is_tls.1 e),
                      rw (enter, h, i.has_operation, off, i.has_name, plain_name),
                    ))
              ]
      ]
