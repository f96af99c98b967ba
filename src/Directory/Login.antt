-- ===== src/Directory/Login.antt =====
-- A simple bind from the packet on the connection to the answer of the directory for tests.
use gldap.Base.{
  All, Bool, List, Option, Text, [], false, inl, inr, int_eq, pos, refl, some, suc, sym,
  text_eq_iff, ℤ, ◌++◌, ◌↔◌, ◌∙◌, ◌∷◌, ◌≡◌,
}
use gldap.Outcome.{ok, ok_injective}
use gldap.Ber.{Ber, IsBer}
use gldap.Control.RoundTrip.{IsReadable}
use gldap.Decode.{Ldap}
use gldap.Message.{SimpleBindMessage, simple_auth_choice, simple_bind}
use gldap.Testing.{test_simple_bind_request_packet}
use gldap.Testing.Received.{read_request-simple_bind}
use gldap.Request.{Request, extended_name_of, get_simple_bind_message, operation_of}
use gldap.Route.Matching.{request_of}
use gldap.Response.{Response, base_of}
use gldap.Response.Writer.{ResponseWriter}
use gldap.Mux.{serve, write_response}
use gldap.Conn.{Conn, received, serve_in_flight, serve_turn, serving}
use gldap.Conn.Turns.{serve_turn-readable, turn_writer}
use gldap.Codes.{result_success}
use gldap.Directory.{Directory}
use gldap.Directory.Handlers.{handle_bind}
use gldap.Directory.Authentication.{Authenticates, handle_bind-Authenticates}
use gldap.Directory.Start.{start_mux}
use gldap.Directory.Start.Routing.{serve-handler_for}

module _ (b : Ber) (ldap : Ldap) (fold : Text → Text → Bool) (l : IsBer b) where
  -- The request that the connection's next turn makes of a bind.
  abbrev pub bind_request_on : Conn Directory → SimpleBindMessage → Request
  bind_request_on c m = request_of (pos (suc c.request_id)) c.conn_id (simple_bind m)

  bind_turn :
      (names_eof : Bool) (c : Conn Directory) (m : SimpleBindMessage)
      → int_eq c.conn_id (pos 0) ≡ false
      → m.auth_choice ≡ simple_auth_choice
      → All IsReadable m.controls
      → serve_turn b ldap fold (received (test_simple_bind_request_packet b m).ber names_eof) c
        ≡ record c {
          request_id = suc c.request_id;
          in_flight =
              c.in_flight ++ (turn_writer c.conn_id (suc c.request_id), bind_request_on c m) ∷ [];
          status = serving;
        }
  unfolding operation_of extended_name_of
  bind_turn names_eof c m n a h =
      elim (serve_turn-readable b ldap fold (test_simple_bind_request_packet b m).ber names_eof c
        (bind_request_on c m) n
        (read_request-simple_bind b ldap l c.conn_id (pos (suc c.request_id)) m a h)) [
          | inl (e, x) ↦ cc e
          | inr (inl (e, x)) ↦ cc e
          | inr (inr (x, y, e)) ↦ e
        ]

  bind_end :
      (handshake : Option Text) (d : Directory) (e : Conn Directory) (w : ResponseWriter)
      (id conn_id : ℤ) (m : SimpleBindMessage)
      → m.auth_choice ≡ simple_auth_choice
      → start_mux b handshake d ≡ ok e.router
      → serve b fold (some w) (some (request_of id conn_id (simple_bind m))) e.router e.session
        ≡ handle_bind b w (request_of id conn_id (simple_bind m)) e.session
  bind_end handshake d e w id conn_id m a h =
      let req = request_of id conn_id (simple_bind m) in
      let (mux, made, served) =
        serve-handler_for b fold handshake d w req e.session
          (record { has_operation = refl; has_name = refl }) in
      let same : mux ≡ e.router = ok_injective (sym made ∙ h) in
      let simple = (text_eq_iff simple_auth_choice m.auth_choice).1 (sym a) in
      rw (← same) (served ∙ rw simple)

  -- On a connection with a connection ID, the packet that testing.go builds of a simple bind with
  -- readable controls is read, checked and decoded by one turn of the loop, which leaves one
  -- request in flight, behind the others, and does nothing else. Whenever that request's goroutine
  -- is scheduled on a connection whose router is that of a started directory, it writes one
  -- response and leaves the directory as it is; the response has the bind's message ID, and its
  -- code is success exactly if the directory, as it is then, authenticates the bind.
  pub bind_packet-Authenticates :
      (handshake : Option Text) (d : Directory) (names_eof : Bool) (c e : Conn Directory)
      (m : SimpleBindMessage)
      → int_eq c.conn_id (pos 0) ≡ false
      → m.auth_choice ≡ simple_auth_choice
      → All IsReadable m.controls
      → start_mux b handshake d ≡ ok e.router
      → (w : ResponseWriter) × (req : Request) × (serve_turn b ldap fold
            (received (test_simple_bind_request_packet b m).ber names_eof)
            c
          ≡ record c {
            request_id = suc c.request_id;
            in_flight = c.in_flight ++ (w, req) ∷ [];
            status = serving;
          })
        × ((before after : List (ResponseWriter × Request))
            → (resp : Response) × (serve_in_flight b ldap fold before after w req e ≡ record e {
              session = write_response b resp e.session;
              in_flight = before ++ after;
            })
              × ((base_of resp).message_id ≡ m.id)
              × (((base_of resp).code ≡ result_success) ↔ Authenticates e.session.state m))
  unfolding serve_in_flight get_simple_bind_message
  bind_packet-Authenticates handshake d names_eof c e m n a h s =
      let w = turn_writer c.conn_id (suc c.request_id) in
      let req = bind_request_on c m in
      let (resp, written, same_id, code) = handle_bind-Authenticates b w req m e.session refl in
      (
        w,
        req,
        bind_turn names_eof c m n a h,
        λ before after.
            (resp, rw (bind_end handshake d e w req.id req.conn_id m a s, written), same_id, code),
      )
