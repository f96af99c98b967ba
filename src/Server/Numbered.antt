-- ===== src/Server/Numbered.antt =====
-- The steps of a server, by the connection IDs that they give out.
use gldap.Base.{
  Bool, List, Option, Text, arith, false, none, pos, refl, some, subst, suc, true, ◌≡◌,
}
use gldap.Outcome.{ok, ok_injective}
use gldap.Options.{GoOption}
use gldap.Ber.{Ber}
use gldap.Decode.{Ldap}
use gldap.Mux.{Mux, serve}
use gldap.Conn.{
  Conn, Input, Step, by_close, by_network, by_request, by_shutdown, by_turn, by_wait, new_conn,
  serve_in_flight, serve_turn, shutdown, turn,
}
use gldap.Server.{
  Listener, Server, ServerReachable, ServerStep, accept, accept_error, at_start, by_accept,
  by_accept_error, by_conn, by_conn_close, by_crash, by_done, by_listen, by_router, by_select,
  by_start, by_step, by_stop, by_stopped, closed_listener, listen, new_server, no_listener,
  open_listener, select_turn, set_router, stop, stop_returned, stop_with, with_goroutine,
}
use gldap.Server.Numbering.{
  AreNumbered-later, IsNumbered, accepted-IsNumbered, end_request-conn_id, new_conn-conn_id,
  same-IsNumbered, start_goroutine-IsNumbered, take_turn-conn_id, with_goroutine-IsNumbered,
}

module _ {ℓ} {S : Type ℓ} where
  set_router-IsNumbered :
      (m : Option (Mux S)) (s t : Server S) → set_router m s ≡ ok t → IsNumbered s → IsNumbered t
  unfolding set_router
  set_router-IsNumbered none s t e i = cc e
  set_router-IsNumbered (some m) s t e i =
      subst (λ r. IsNumbered r) (ok_injective e)
        (same-IsNumbered s (record s { router = m }) refl refl (λ a. a) (λ c a. a) i)

  listen-IsNumbered :
      (listen_ok : Bool) (s : Server S) → IsNumbered s → IsNumbered (listen listen_ok s)
  unfolding listen
  listen-IsNumbered true s i =
      same-IsNumbered s (listen true s) refl refl (λ a. cc a) (λ c a. cc a) i
  listen-IsNumbered false s i =
      same-IsNumbered s (listen false s) refl refl (λ a. cc a) (λ c a. cc a) i

  select_turn-IsNumbered : (s : Server S) → IsNumbered s → IsNumbered (select_turn s)
  unfolding select_turn
  select_turn-IsNumbered s i = record {
    numbers = AreNumbered-later 0 s.goroutines s.conn_id i.numbers;
    fresh = λ a. (s.conn_id, refl, i.numbers);
    fresh_added = λ c a. ground (arith, a);
  }

  stop_with-IsNumbered :
      (l : Listener) (close_ok : Bool) (s : Server S)
      → IsNumbered s
      → IsNumbered (stop_with l close_ok s)
  stop_with-IsNumbered open_listener true s i =
      same-IsNumbered s (stop_with open_listener true s) refl refl (λ a. a) (λ c a. a) i
  stop_with-IsNumbered open_listener false s i =
      same-IsNumbered s (stop_with open_listener false s) refl refl (λ a. a) (λ c a. a) i
  stop_with-IsNumbered no_listener close_ok s i =
      same-IsNumbered s (stop_with no_listener close_ok s) refl refl (λ a. a) (λ c a. a) i
  stop_with-IsNumbered closed_listener close_ok s i =
      same-IsNumbered s (stop_with closed_listener close_ok s) refl refl (λ a. a) (λ c a. a) i

  module _ (b : Ber) (ldap : Ldap) (fold : Text → Text → Bool) where
    serve_turn-conn_id :
        (c : Conn S) (input : Input) → (serve_turn b ldap fold input c).conn_id ≡ c.conn_id
    unfolding serve_turn
    serve_turn-conn_id c input =
        take_turn-conn_id c (suc c.request_id)
          (turn b ldap fold c.conn_id c.router (pos (suc c.request_id)) input c.session)

    Step-conn_id : (c d : Conn S) → Step b ldap fold c d → d.conn_id ≡ c.conn_id
    unfolding serve_in_flight
    Step-conn_id c _ (by_wait e) = refl
    Step-conn_id c _ (by_shutdown deadline_ok e) = serve_turn-conn_id c (shutdown deadline_ok)
    Step-conn_id c _ (by_turn input e s) = serve_turn-conn_id c input
    Step-conn_id c _ (by_request before after w req e alive) =
        end_request-conn_id before after (serve b fold (some w) (some req) c.router c.session) c
    Step-conn_id c _ (by_network write_ok flush_ok) = refl
    Step-conn_id c _ (by_close o e idle) = refl

    ServerStep-IsNumbered :
        (s t : Server S) → ServerStep b ldap fold s t → IsNumbered s → IsNumbered t
    unfolding accept accept_error stop
    ServerStep-IsNumbered s t (by_router m _ e) i = set_router-IsNumbered m s t e i
    ServerStep-IsNumbered s _ (by_listen listen_ok e) i = listen-IsNumbered listen_ok s i
    ServerStep-IsNumbered s _ (by_select e) i = select_turn-IsNumbered s i
    ServerStep-IsNumbered s _ (by_accept session e o) i =
        accepted-IsNumbered s (new_conn true (pos s.conn_id) (some session) true (some s.router))
          (λ c. new_conn-conn_id (pos s.conn_id) session s.router c) e i
    ServerStep-IsNumbered s _ (by_start read_ok write_ok c e) i =
        start_goroutine-IsNumbered read_ok write_ok c s e i
    ServerStep-IsNumbered s _ (by_accept_error listener_closed e) i =
        same-IsNumbered s (accept_error listener_closed s) refl refl (λ a. cc a) (λ c a. cc a) i
    ServerStep-IsNumbered s _ (by_stop close_ok e) i = stop_with-IsNumbered s.listener close_ok s i
    ServerStep-IsNumbered s _ (by_stopped e a) i =
        same-IsNumbered s (record s { stop_status = stop_returned (ok tt) }) refl refl (λ x. x)
          (λ c x. x) i
    ServerStep-IsNumbered s _ (by_conn before after g d e step sees live no_crash) i =
        with_goroutine-IsNumbered s before after g (record g { conn = d }) e
          (Step-conn_id g.conn d step) i
    ServerStep-IsNumbered s _ (by_crash before after g d e step crash) i =
        same-IsNumbered s (record s { crashed = true }) refl refl (λ x. x) (λ c x. x) i
    ServerStep-IsNumbered s _ (by_done before after g o e r) i =
        with_goroutine-IsNumbered s before after g (record g { counted = false }) e refl i
    ServerStep-IsNumbered s t (by_conn_close before after g o d e done r step cl) i =
        same-IsNumbered (with_goroutine before after (record g { conn = d }) s) t refl refl (λ x. x)
          (λ c x. x)
          (with_goroutine-IsNumbered s before after g (record g { conn = d }) e
            (Step-conn_id g.conn d step) i)

    -- In every state that a new server reaches, the connections of its goroutines carry strictly
    -- ascending connection IDs above 0 and up to the number of the loop's turn, and in `Accept` the
    -- ID of the turn has not been given out.
    pub ServerReachable-IsNumbered :
        (opt : List GoOption) (s t : Server S)
        → new_server opt ≡ ok s
        → ServerReachable b ldap fold s t
        → IsNumbered t
    unfolding new_server
    ServerReachable-IsNumbered opt s _ e at_start =
        subst (λ r. IsNumbered r) (ok_injective e)
          (record { numbers = omega arith; fresh = λ a. cc a; fresh_added = λ c a. cc a })
    ServerReachable-IsNumbered opt s _ e (by_step t u path step) =
        ServerStep-IsNumbered t u step (ServerReachable-IsNumbered opt s t e path)
