-- ===== src/Server/Stopping.antt =====
-- What `Stop` has waited for when it returns.
use gldap.Base.{
  All-append, Bool, List, Text, [], arith, false, pos, refl, some, subst, sym, true, ◌+◌, ◌∷◌, ◌≡◌,
  ◌≢◌, ◌≤◌,
}
use gldap.Outcome.{Outcome, err, ok, ok_injective, panic}
use gldap.Options.{GoOption}
use gldap.Ber.{Ber}
use gldap.Decode.{Ldap}
use gldap.Mux.{serve}
use gldap.Conn.{
  Conn, Step, by_close, by_network, by_request, by_shutdown, by_turn, by_wait, new_conn,
  serve_in_flight,
}
use gldap.Server.{
  Goroutine, Listener, Server, ServerReachable, ServerStep, accept, accepted, accepting, adding,
  at_start, by_accept, by_accept_error, by_conn, by_conn_close, by_crash, by_done, by_listen,
  by_router, by_select, by_start, by_step, by_stop, by_stopped, closed_listener, new_server,
  no_listener, open_listener, start_goroutine, stop, stop_with, waiting, with_deadlines,
}
use gldap.Server.Stoppable.{
  HasCancelled, IsCounted, IsLive, IsStoppable, accept_error-IsStoppable, count, count-all_done,
  count-append, count_adding, count_adding-bound, end_request-status, listen-IsStoppable,
  select_turn-IsStoppable, set_router-IsStoppable, with_goroutine-IsStoppable,
}

module _ {ℓ} {S : Type ℓ} where
  accepted-IsStoppable :
      (s : Server S) (o : Outcome (Conn S))
      → s.run_status ≡ accepting
      → s.listener ≡ open_listener
      → IsStoppable s
      → IsStoppable (accepted s o)
  accepted-IsStoppable s (ok c) e o i = record {
    counts = i.counts;
    cancelled = i.cancelled;
    no_late_accept = λ e'. cc e';
    waited = λ w. absurd (i.no_late_accept e (i.cancelled (subst HasCancelled (sym w) tt)) o);
  }
  accepted-IsStoppable s (err x) e o i = record {
    counts = i.counts;
    cancelled = i.cancelled;
    no_late_accept = λ e'. cc e';
    waited = λ w. omega (arith, i.waited w);
  }
  accepted-IsStoppable s panic e o i = record {
    counts = i.counts;
    cancelled = i.cancelled;
    no_late_accept = i.no_late_accept;
    waited = i.waited;
  }

  -- The goroutine of the connection that `Accept` returned is counted, at whatever time.
  start_goroutine-IsStoppable :
      (read_ok write_ok : Bool) (c : Conn S) (s : Server S)
      → s.run_status ≡ adding c
      → IsStoppable s
      → IsStoppable (start_goroutine read_ok write_ok c s)
  unfolding start_goroutine
  start_goroutine-IsStoppable read_ok write_ok c s e i =
      let d = with_deadlines read_ok write_ok s c in
      let g : Goroutine S = record { conn = d; counted = true } in
      record {
        counts = All-append IsCounted s.goroutines (g ∷ []) i.counts ((λ off. cc off), tt);
        cancelled = i.cancelled;
        no_late_accept = λ e'. cc e';
        waited = λ w.
            let one = count-append s.goroutines d in
            let old : count s.goroutines + 1 ≤ 1 =
              subst (λ r. count s.goroutines + count_adding r ≤ 1) e (i.waited w) in
            omega (arith, one, old);
      }

  idle-IsStoppable :
      (s : Server S)
      → s.listener ≢ open_listener
      → IsStoppable s
      → IsStoppable (record s { shutdown_done = true; stop_status = waiting })
  idle-IsStoppable s l i = record {
    counts = i.counts;
    cancelled = λ x. refl;
    no_late_accept = λ e done. l;
    waited = λ w. cc w;
  }

  stop_with-IsStoppable :
      (l : Listener) (close_ok : Bool) (s : Server S)
      → s.listener ≡ l
      → IsStoppable s
      → IsStoppable (stop_with l close_ok s)
  stop_with-IsStoppable open_listener false s e i = record {
    counts = i.counts;
    cancelled = λ x. absurd x;
    no_late_accept = i.no_late_accept;
    waited = λ w. cc w;
  }
  stop_with-IsStoppable open_listener true s e i = record {
    counts = i.counts;
    cancelled = λ x. refl;
    no_late_accept = λ e' done o. cc o;
    waited = λ w. cc w;
  }
  stop_with-IsStoppable no_listener close_ok s e i = idle-IsStoppable s (λ o. cc (e, o)) i
  stop_with-IsStoppable closed_listener close_ok s e i = idle-IsStoppable s (λ o. cc (e, o)) i

  stop-IsStoppable :
      (close_ok : Bool) (s : Server S) → IsStoppable s → IsStoppable (stop close_ok s)
  unfolding stop
  stop-IsStoppable close_ok s i = stop_with-IsStoppable s.listener close_ok s refl i

  module _ (b : Ber) (ldap : Ldap) (fold : Text → Text → Bool) where
    -- A connection whose `serveRequests` has ended does not serve again.
    Step-IsLive :
        (c d : Conn S) → Step b ldap fold c d → (IsLive c.status → ⊥) → IsLive d.status → ⊥
    unfolding serve_in_flight
    Step-IsLive c _ (by_wait e) h l = h (subst IsLive (sym e) tt)
    Step-IsLive c _ (by_shutdown deadline_ok e) h l = h (subst IsLive (sym e) tt)
    Step-IsLive c _ (by_turn input e s) h l = h (subst IsLive (sym e) tt)
    Step-IsLive c _ (by_request before after w req e alive) h l =
        end_request-status before after (serve b fold (some w) (some req) c.router c.session) c h l
    Step-IsLive c _ (by_network write_ok flush_ok) h l = h l
    Step-IsLive c _ (by_close o e idle) h l = l

    ServerStep-IsStoppable :
        (s t : Server S) → ServerStep b ldap fold s t → IsStoppable s → IsStoppable t
    unfolding accept
    ServerStep-IsStoppable s t (by_router m _ e) i = set_router-IsStoppable m s t e i
    ServerStep-IsStoppable s _ (by_listen listen_ok e) i = listen-IsStoppable listen_ok s i
    ServerStep-IsStoppable s _ (by_select e) i = select_turn-IsStoppable s i
    ServerStep-IsStoppable s _ (by_accept session e o) i =
        accepted-IsStoppable s (new_conn true (pos s.conn_id) (some session) true (some s.router)) e
          o i
    ServerStep-IsStoppable s _ (by_start read_ok write_ok c e) i =
        start_goroutine-IsStoppable read_ok write_ok c s e i
    ServerStep-IsStoppable s _ (by_accept_error listener_closed e) i =
        accept_error-IsStoppable listener_closed s i
    ServerStep-IsStoppable s _ (by_stop close_ok e) i = stop-IsStoppable close_ok s i
    ServerStep-IsStoppable s _ (by_stopped e a) i = record {
      counts = i.counts;
      cancelled = λ x. i.cancelled (subst HasCancelled (sym e) tt);
      no_late_accept = i.no_late_accept;
      waited = λ w. omega (arith, count-all_done s.goroutines a, count_adding-bound s.run_status);
    }
    ServerStep-IsStoppable s _ (by_conn before after g d e step sees live no_crash) i =
        with_goroutine-IsStoppable s before after g (record g { conn = d }) e
          (λ counted done. Step-IsLive g.conn d step (counted done)) (λ done. done) i
    ServerStep-IsStoppable s _ (by_crash before after g d e step crash) i = record {
      counts = i.counts;
      cancelled = i.cancelled;
      no_late_accept = i.no_late_accept;
      waited = i.waited;
    }
    ServerStep-IsStoppable s _ (by_done before after g o e r) i =
        with_goroutine-IsStoppable s before after g (record g { counted = false }) e
          (λ counted done l. subst IsLive r l) (λ done. refl) i
    ServerStep-IsStoppable s _ (by_conn_close before after g o d e done r step cl) i =
        let next =
          with_goroutine-IsStoppable s before after g (record g { conn = d }) e
            (λ counted off l. subst IsLive cl l) (λ off. off) i in
        record {
          counts = next.counts;
          cancelled = next.cancelled;
          no_late_accept = next.no_late_accept;
          waited = next.waited;
        }

    -- In every state that a new server reaches, in any interleaving of `Run`, `Stop`, the
    -- connections and their requests, between `Accept` and `connWg.Add(1)` too: a `Stop` that waits
    -- or has returned nil has cancelled the shutdown context, `Run` then does not accept from an
    -- open listener, and a goroutine in the list is counted as long as its `serveRequests` runs.
    -- Once `Stop` has returned nil, at most one connection is left that is counted or about to be.
    pub ServerReachable-IsStoppable :
        (opt : List GoOption) (s t : Server S)
        → new_server opt ≡ ok s
        → ServerReachable b ldap fold s t
        → IsStoppable t
    unfolding new_server
    ServerReachable-IsStoppable opt s _ e at_start =
        subst (λ r. IsStoppable r) (ok_injective e)
          (record {
            counts = tt;
            cancelled = λ x. absurd x;
            no_late_accept = λ e'. cc e';
            waited = λ w. omega arith;
          })
    ServerReachable-IsStoppable opt s _ e (by_step t u path step) =
        ServerStep-IsStoppable t u step (ServerReachable-IsStoppable opt s t e path)
