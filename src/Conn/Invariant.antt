-- ===== src/Conn/Invariant.antt =====
-- The requests in flight of a connection, in every state that its steps reach.
use gldap.Base.{
  Bool, Bool-cases, List, Option, Text, [], append-nil, arith, inl, inr, none, pos, refl, some,
  subst, suc, sym, text_eq, text_eq_refl, true, ℕ, ℤ, ◌++◌, ◌∙◌, ◌∷◌, ◌≡◌, ◌≢◌,
}
use gldap.Outcome.{>>=-eq-ok, Outcome, err, ok, panic}
use gldap.Ber.{Ber, Packet}
use gldap.Decode.{Ldap}
use gldap.Request.{Request, new_request, unbind_route_operation}
use gldap.Response.Writer.{ResponseWriter, new_response_writer}
use gldap.Route.{Session}
use gldap.Route.Matching.{IsConsistent, new_request-IsConsistent}
use gldap.Mux.{Mux, serve}
use gldap.Conn.{
  Conn, Input, Reachable, Step, Turn, after_call, after_outcome, after_request, again, by_close,
  by_network, by_request, by_shutdown, by_turn, by_wait, call_unbind, closed, disconnect, dispatch,
  end_of_input, end_request, finish, more, new_conn, read_failed, read_packet, read_request,
  received, serve_in_flight, serve_turn, serving, shutdown, start, take_turn, turn, turn_with,
}
use gldap.Conn.InFlight.{IsOrdered, IsOrdered-append, IsOrdered-later, IsOrdered-remove, IsTracked}
use gldap.Message.{extended_operation_start_tls}

pub record IsSound {ℓ} {S : Type ℓ} (c : Conn S) : Type ℓ where
  pub ordered : IsOrdered c.conn_id 0 c.in_flight c.request_id
  pub closed_is_idle : c.status ≡ closed → c.in_flight ≡ []

-- What a turn may put in flight.
abbrev OnlyTracks {ℓ} : {S : Type ℓ} → ℤ → ℕ → Turn S → Type 0
OnlyTracks conn_id n (finish s o) = Unit
OnlyTracks conn_id n (again s []) = Unit
OnlyTracks conn_id n (again s ((w, req) ∷ new)) = IsTracked conn_id n w req × (new ≡ [])

pub read_request-IsConsistent :
    (b : Ber) (ldap : Ldap) (conn_id id : ℤ) (p : Packet) (req : Request)
    → read_request b ldap conn_id id p ≡ ok req
    → (req.id ≡ id) × IsConsistent req
unfolding read_request
read_request-IsConsistent b ldap conn_id id p req h =
    let (q, hq, h1) =
      >>=-eq-ok (read_packet p) (λ q. new_request b ldap id (some conn_id) (some q)) h in
    let made = new_request-IsConsistent b ldap id (some conn_id) (some q) req h1 in (made.1, made.0)

new_response_writer-fields :
    (conn_id id : ℤ) (w : ResponseWriter)
    → new_response_writer true true true conn_id id ≡ ok w
    → (w.conn_id ≡ conn_id) × (w.request_id ≡ id)
unfolding new_response_writer
new_response_writer-fields conn_id id w h = ground arith

append-not-nil :
    (before after : List (ResponseWriter × Request)) (x : ResponseWriter × Request)
    → before ++ x ∷ after ≢ []
append-not-nil [] after x e = cc e
append-not-nil (y ∷ before) after x e = cc e

new_conn-is_new {ℓ} :
    {S : Type ℓ} (context logger : Bool) (conn_id : ℤ) (net_conn : Option (Session S))
    (router : Option (Mux S)) (c : Conn S)
    → new_conn context conn_id net_conn logger router ≡ ok c
    → (c.in_flight ≡ []) × (c.status ≡ serving)
unfolding new_conn
new_conn-is_new context logger conn_id net_conn router c h = ground arith

module _ {ℓ} {S : Type ℓ} (b : Ber) (ldap : Ldap) (fold : Text → Text → Bool) where
  after_call-OnlyTracks :
      (conn_id : ℤ) (n : ℕ) (s : Session S) (k : Session S → Turn S) (o : Option (Session S))
      → ((t : Session S) → OnlyTracks conn_id n (k t))
      → OnlyTracks conn_id n (after_call s k o)
  after_call-OnlyTracks conn_id n s k none h = tt
  after_call-OnlyTracks conn_id n s k (some t) h = h t

  dispatch-OnlyTracks :
      (conn_id : ℤ) (n : ℕ) (m : Mux S) (w : ResponseWriter) (req : Request) (s : Session S)
      → w.conn_id ≡ conn_id
      → w.request_id ≡ pos n
      → req.id ≡ pos n
      → IsConsistent req
      → OnlyTracks conn_id n (dispatch b ldap fold m w req s)
  unfolding dispatch
  dispatch-OnlyTracks conn_id n m w req s hc hw hr i =
      elim (Bool-cases (text_eq req.route_op unbind_route_operation)) [
        | inl yes_unbind ↦ rw yes_unbind (
            after_call-OnlyTracks conn_id n s (λ t. finish t (ok tt))
              (call_unbind m.unbind_route w req s) (λ t. tt))
        | inr not_unbind ↦
            rw not_unbind
              (elim (Bool-cases (text_eq req.extended_name extended_operation_start_tls)) [
                | inl yes_tls ↦ rw yes_tls (
                    after_call-OnlyTracks conn_id n s (λ t. again t [])
                      (serve b fold (some w) (some req) m s) (λ t. tt))
                | inr not_tls ↦ rw not_tls (
                  record {
                    same_conn = hc;
                    same_request = hw;
                    same_id = hr;
                    consistent = i;
                    no_unbind = λ e. cc (not_unbind, text_eq_refl req.route_op, e);
                    no_start_tls = λ e. cc (not_tls, text_eq_refl req.extended_name, e);
                  },
                  refl,
                )
              ])
      ]

  after_outcome-OnlyTracks :
      {A : Type 0} (conn_id : ℤ) (n : ℕ) (s : Session S) (k : A → Turn S) (o : Outcome A)
      → ((a : A) → o ≡ ok a → OnlyTracks conn_id n (k a))
      → OnlyTracks conn_id n (after_outcome s k o)
  after_outcome-OnlyTracks conn_id n s k (ok a) h = h a refl
  after_outcome-OnlyTracks conn_id n s k (err e) h = tt
  after_outcome-OnlyTracks conn_id n s k panic h = tt

  after_request-OnlyTracks :
      (conn_id : ℤ) (n : ℕ) (s : Session S) (names_eof : Bool) (k : Request → Turn S)
      (o : Outcome Request)
      → ((req : Request) → o ≡ ok req → OnlyTracks conn_id n (k req))
      → OnlyTracks conn_id n (after_request s names_eof k o)
  after_request-OnlyTracks conn_id n s names_eof k (ok req) h = h req refl
  after_request-OnlyTracks conn_id n s names_eof k (err e) h = tt
  after_request-OnlyTracks conn_id n s names_eof k panic h = tt

  turn_with-OnlyTracks :
      (conn_id : ℤ) (n : ℕ) (m : Mux S) (w : ResponseWriter) (input : Input) (s : Session S)
      → w.conn_id ≡ conn_id
      → w.request_id ≡ pos n
      → OnlyTracks conn_id n (turn_with b ldap fold conn_id m w input s)
  unfolding turn_with disconnect
  turn_with-OnlyTracks conn_id n m w (shutdown deadline_ok) s hc hw = tt
  turn_with-OnlyTracks conn_id n m w end_of_input s hc hw = tt
  turn_with-OnlyTracks conn_id n m w read_failed s hc hw = tt
  turn_with-OnlyTracks conn_id n m w (received p names_eof) s hc hw =
      after_request-OnlyTracks conn_id n s names_eof (λ req. dispatch b ldap fold m w req s)
        (read_request b ldap conn_id w.request_id p)
        (λ req e.
          let made = read_request-IsConsistent b ldap conn_id w.request_id p req e in
          dispatch-OnlyTracks conn_id n m w req s hc hw (made.0 ∙ hw) made.1)

  turn-OnlyTracks :
      (conn_id : ℤ) (n : ℕ) (m : Mux S) (input : Input) (s : Session S)
      → OnlyTracks conn_id n (turn b ldap fold conn_id m (pos n) input s)
  unfolding turn
  turn-OnlyTracks conn_id n m input s =
      after_outcome-OnlyTracks conn_id n s (λ w. turn_with b ldap fold conn_id m w input s)
        (new_response_writer true true true conn_id (pos n))
        (λ w e.
          let made = new_response_writer-fields conn_id (pos n) w e in
          turn_with-OnlyTracks conn_id n m w input s made.0 made.1)

  take_turn-IsSound :
      (c : Conn S) (t : Turn S)
      → IsSound c
      → OnlyTracks c.conn_id (suc c.request_id) t
      → IsSound (take_turn c (suc c.request_id) t)
  take_turn-IsSound c (finish s o) i h = record {
    ordered = IsOrdered-later c.conn_id 0 c.in_flight c.request_id i.ordered;
    closed_is_idle = λ f. cc f;
  }
  take_turn-IsSound c (again s []) i h = record {
    ordered =
        subst (λ xs. IsOrdered c.conn_id 0 xs (suc c.request_id)) (sym (append-nil c.in_flight))
          (IsOrdered-later c.conn_id 0 c.in_flight c.request_id i.ordered);
    closed_is_idle = λ f. cc f;
  }
  take_turn-IsSound c (again s ((w, req) ∷ new)) i (t, none_more) = record {
    ordered =
        rw none_more (IsOrdered-append c.conn_id 0 c.in_flight c.request_id w req i.ordered t);
    closed_is_idle = λ f. cc f;
  }

  serve_turn-IsSound :
      (c : Conn S) (input : Input) → IsSound c → IsSound (serve_turn b ldap fold input c)
  unfolding serve_turn
  serve_turn-IsSound c input i =
      take_turn-IsSound c
        (turn b ldap fold c.conn_id c.router (pos (suc c.request_id)) input c.session) i
        (turn-OnlyTracks c.conn_id (suc c.request_id) c.router input c.session)

  end_request-IsSound :
      (c : Conn S) (before after : List (ResponseWriter × Request)) (w : ResponseWriter)
      (req : Request) (o : Option (Session S))
      → c.in_flight ≡ before ++ (w, req) ∷ after
      → IsSound c
      → IsSound (end_request before after o c)
  end_request-IsSound c before after w req none e i = record {
    ordered = i.ordered;
    closed_is_idle = λ f. cc f;
  }
  end_request-IsSound c before after w req (some s) e i = record {
    ordered =
        IsOrdered-remove c.conn_id 0 before after w req c.request_id
          (subst (λ xs. IsOrdered c.conn_id 0 xs c.request_id) e i.ordered);
    closed_is_idle =
        λ f. absurd (append-not-nil before after (w, req) (sym e ∙ i.closed_is_idle f));
  }

  -- Every step keeps a connection sound.
  pub Step-IsSound : (c d : Conn S) → Step b ldap fold c d → IsSound c → IsSound d
  unfolding serve_in_flight
  Step-IsSound c _ (by_wait e) i = record { ordered = i.ordered; closed_is_idle = λ f. cc f }
  Step-IsSound c _ (by_shutdown deadline_ok e) i = serve_turn-IsSound c (shutdown deadline_ok) i
  Step-IsSound c _ (by_turn input e s) i = serve_turn-IsSound c input i
  Step-IsSound c _ (by_request before after w req e alive) i =
      end_request-IsSound c before after w req (serve b fold (some w) (some req) c.router c.session)
        e i
  Step-IsSound c _ (by_network write_ok flush_ok) i = record {
    ordered = i.ordered;
    closed_is_idle = i.closed_is_idle;
  }
  Step-IsSound c _ (by_close o e idle) i = record {
    ordered = i.ordered;
    closed_is_idle = λ f. idle;
  }

  -- In every state that a new connection reaches, in any interleaving of its loop and its requests'
  -- goroutines, the requests in flight carry strictly ascending request IDs that the loop gave out,
  -- each with a writer of the same connection and request, none is an unbind or a StartTLS request,
  -- and a closed connection has none in flight.
  pub Reachable-IsSound :
      (context logger : Bool) (conn_id : ℤ) (net_conn : Option (Session S))
      (router : Option (Mux S)) (c d : Conn S)
      → new_conn context conn_id net_conn logger router ≡ ok c
      → Reachable b ldap fold c d
      → IsSound d
  Reachable-IsSound context logger conn_id net_conn router c _ h start =
      let new = new_conn-is_new context logger conn_id net_conn router c h in
      record { ordered = rw new.0 (omega arith); closed_is_idle = λ f. new.0 }
  Reachable-IsSound context logger conn_id net_conn router c _ h (more d e path step) =
      Step-IsSound d e step (Reachable-IsSound context logger conn_id net_conn router c d h path)
