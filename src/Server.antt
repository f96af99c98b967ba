-- ===== src/Server.antt =====
-- server.go: the server. `Run` listens and accepts connections, each served by a goroutine of its own;
-- `Stop` closes the listener, cancels the shutdown context and waits for the goroutines. They take
-- their steps in any order, so a server is a state with a step relation, for one call of `Run` and one
-- of `Stop`. The server's lock is left out, and so are logging and TLS.
pub mod Stoppable
pub mod Stopping
pub mod Numbering
pub mod Numbered
use gldap.Base.{
  Bool, List, Option, Text, [], false, if◌then◌else◌, int_eq, none, not, pos, some, suc, true, ℕ, ℤ,
  ◌&&◌, ◌++◌, ◌||◌, ◌∷◌, ◌≡◌, ◌≢◌,
}
use gldap.Outcome.{Outcome, err, invalid_parameter, library, ok, panic}
use gldap.Options.{GoOption}
use gldap.Options.Apply.{
  get_config_opts, with_disable_panic_recovery, with_on_close, with_read_timeout,
  with_write_timeout,
}
use gldap.Ber.{Ber}
use gldap.Decode.{Ldap}
use gldap.Route.{Session}
use gldap.Mux.{Mux}
use gldap.Conn.{Conn, Status, Step, by_shutdown, by_wait, closed, new_conn, returned}

pub data Listener : Type 0 where
  no_listener open_listener closed_listener : Listener

-- Where `Run` stands: not called, before the `select` of its loop, in `Accept`, between `Accept` and
-- `connWg.Add(1)` with a new connection, or returned.
pub data RunStatus {ℓ} (S : Type ℓ) : Type ℓ where
  not_run selecting accepting : RunStatus S
  adding : Conn S → RunStatus S
  run_returned : Outcome (Unit {0}) → RunStatus S

-- Where `Stop` stands: not called, at `connWg.Wait()`, or returned.
pub data StopStatus : Type 0 where
  not_stopped waiting : StopStatus
  stop_returned : Outcome (Unit {0}) → StopStatus

-- The goroutine of a connection, and whether `connWg` counts it. It calls `connWg.Done()` before it
-- closes the connection.
pub record Goroutine {ℓ} (S : Type ℓ) : Type ℓ where
  pub conn : Conn S
  pub counted : Bool

-- `on_close_calls` are the connection IDs that the close handler has been called with.
pub record Server {ℓ} (S : Type ℓ) : Type ℓ where
  pub router : Mux S
  pub listener : Listener
  pub listener_ready : Bool
  pub read_timeout : ℤ
  pub write_timeout : ℤ
  pub disable_panic_recovery : Bool
  pub on_close_handler : Option ℕ
  pub shutdown_done : Bool
  pub conn_id : ℕ
  pub run_status : RunStatus S
  pub stop_status : StopStatus
  pub goroutines : List (Goroutine S)
  pub on_close_calls : List ℤ
  pub crashed : Bool

-- A timeout that is set and whose deadline cannot be set ends the goroutine.
abbrev deadline_fails : ℤ → Bool → Bool
deadline_fails timeout deadline_ok = not (int_eq timeout (pos 0)) && not deadline_ok

-- The end of a connection's goroutine behind `connWg.Done()` and `close`: the close handler, and, if
-- `serveRequests` panicked and nothing recovers, the end of the process.
abbrev pub after_close : Option ℕ → ℤ → List ℤ → List ℤ
after_close none conn_id calls = calls
after_close (some on_close) conn_id calls = calls ++ conn_id ∷ []

abbrev pub is_panic : Outcome (Unit {0}) → Bool
is_panic panic = true
is_panic o = false

module _ {ℓ} {S : Type ℓ} where
  -- `NewServer`, with the router `&Mux{}`
  unfoldable pub new_server : List GoOption → Outcome (Server S)
  new_server opt =
      let opts = get_config_opts opt in
      ok (record {
        router = record { routes = []; default_route = none; unbind_route = none };
        listener = no_listener;
        listener_ready = false;
        read_timeout = opts.with_read_timeout;
        write_timeout = opts.with_write_timeout;
        disable_panic_recovery = opts.with_disable_panic_recovery;
        on_close_handler = opts.with_on_close;
        shutdown_done = false;
        conn_id = 0;
        run_status = not_run;
        stop_status = not_stopped;
        goroutines = [];
        on_close_calls = [];
        crashed = false;
      })

  -- `Router`
  unfoldable pub set_router : Option (Mux S) → Server S → Outcome (Server S)
  set_router none s = err invalid_parameter
  set_router (some m) s = ok (record s { router = m })

  -- `Ready`
  abbrev pub ready : Server S → Bool
  ready s = s.listener_ready

  -- `Run` up to its loop: `net.Listen` succeeds or not.
  unfoldable pub listen : (listen_ok : Bool) → Server S → Server S
  listen true s = record s {
    listener = open_listener;
    listener_ready = true;
    run_status = selecting;
  }
  listen false s = record s {
    listener = no_listener;
    listener_ready = true;
    run_status = run_returned (err library);
  }

  -- The head of a turn of `Run`'s loop: `connID++` and the `select`.
  unfoldable pub select_turn : Server S → Server S
  select_turn s = record s {
    conn_id = suc s.conn_id;
    run_status = if s.shutdown_done then run_returned (ok tt) else accepting;
  }

  abbrev pub with_deadlines : (read_ok write_ok : Bool) → Server S → Conn S → Conn S
  with_deadlines read_ok write_ok s c =
      if deadline_fails s.read_timeout read_ok || deadline_fails s.write_timeout write_ok
      then record c { status = returned (ok tt) }
      else c

  abbrev pub accepted : Server S → Outcome (Conn S) → Server S
  accepted s (ok c) = record s { run_status = adding c }
  accepted s (err e) = record s { run_status = run_returned (err e) }
  accepted s panic = record s { crashed = true }

  -- `Accept` returns a connection, with the session that it starts in, and `newConn` is called.
  unfoldable pub accept : Session S → Server S → Server S
  accept session s = accepted s (new_conn true (pos s.conn_id) (some session) true (some s.router))

  -- `connWg.Add(1)`, and the goroutine of the new connection.
  unfoldable pub start_goroutine : (read_ok write_ok : Bool) → Conn S → Server S → Server S
  start_goroutine read_ok write_ok c s = record s {
    run_status = selecting;
    goroutines =
        s.goroutines ++ record { conn = with_deadlines read_ok write_ok s c; counted = true } ∷ [];
  }

  -- `Accept` returns an error, which says or not that the listener is closed.
  unfoldable pub accept_error : (listener_closed : Bool) → Server S → Server S
  accept_error listener_closed s = record s {
    run_status = run_returned (if listener_closed then ok tt else err library);
  }

  -- `Stop` behind its look at the listener: an open one is closed, which succeeds or not; a closed one
  -- is passed over.
  abbrev pub stop_with : Listener → (close_ok : Bool) → Server S → Server S
  stop_with open_listener false s = record s { stop_status = stop_returned (err library) }
  stop_with open_listener true s = record s {
    listener = closed_listener;
    shutdown_done = true;
    stop_status = waiting;
  }
  stop_with no_listener close_ok s = record s { shutdown_done = true; stop_status = waiting }
  stop_with closed_listener close_ok s = record s { shutdown_done = true; stop_status = waiting }

  -- `Stop` up to its waiting.
  unfoldable pub stop : (close_ok : Bool) → Server S → Server S
  stop close_ok s = stop_with s.listener close_ok s

  abbrev pub all_done : List (Goroutine S) → Bool
  all_done [] = true
  all_done (g ∷ gs) = not g.counted && all_done gs

  abbrev pub with_goroutine :
      (before after : List (Goroutine S)) → Goroutine S → Server S → Server S
  with_goroutine before after g s = record s { goroutines = before ++ g ∷ after }

module _ {ℓ} {S : Type ℓ} (b : Ber) (ldap : Ldap) (fold : Text → Text → Bool) where
  -- A connection's `select` sees the shutdown context as it is.
  abbrev pub Sees : {c d : Conn S} → Bool → Step b ldap fold c d → Type 0
  Sees done (by_wait e) = done ≡ false
  Sees done (by_shutdown deadline_ok e) = done ≡ true
  Sees done step = Unit

  pub data ServerStep (s : Server S) : Server S → Type ℓ where
    by_router : (m : Option (Mux S)) (t : Server S) → set_router m s ≡ ok t → ServerStep s t
    by_listen : (listen_ok : Bool) → s.run_status ≡ not_run → ServerStep s (listen listen_ok s)
    by_select : s.run_status ≡ selecting → ServerStep s (select_turn s)
    by_accept :
        (session : Session S)
        → s.run_status ≡ accepting
        → s.listener ≡ open_listener
        → ServerStep s (accept session s)
    by_start :
        (read_ok write_ok : Bool) (c : Conn S)
        → s.run_status ≡ adding c
        → ServerStep s (start_goroutine read_ok write_ok c s)
    by_accept_error :
        (listener_closed : Bool)
        → s.run_status ≡ accepting
        → ServerStep s (accept_error listener_closed s)
    by_stop : (close_ok : Bool) → s.stop_status ≡ not_stopped → ServerStep s (stop close_ok s)
    by_stopped :
        s.stop_status ≡ waiting
        → all_done s.goroutines ≡ true
        → ServerStep s (record s { stop_status = stop_returned (ok tt) })
    -- A step of a connection; a panic in the goroutine of a request ends the process.
    by_conn :
        (before after : List (Goroutine S)) (g : Goroutine S) (d : Conn S)
        → s.goroutines ≡ before ++ g ∷ after
        → (step : Step b ldap fold g.conn d) → Sees s.shutdown_done step
        → d.status ≢ closed
        → d.status ≢ Status.crashed
        → ServerStep s (with_goroutine before after (record g { conn = d }) s)
    by_crash :
        (before after : List (Goroutine S)) (g : Goroutine S) (d : Conn S)
        → s.goroutines ≡ before ++ g ∷ after
        → Step b ldap fold g.conn d
        → d.status ≡ Status.crashed
        → ServerStep s (record s { crashed = true })
    -- `connWg.Done()`
    by_done :
        (before after : List (Goroutine S)) (g : Goroutine S) (o : Outcome (Unit {0}))
        → s.goroutines ≡ before ++ g ∷ after
        → g.conn.status ≡ returned o
        → ServerStep s (with_goroutine before after (record g { counted = false }) s)
    -- `conn.close()` and what follows it
    by_conn_close :
        (before after : List (Goroutine S)) (g : Goroutine S) (o : Outcome (Unit {0})) (d : Conn S)
        → s.goroutines ≡ before ++ g ∷ after
        → g.counted ≡ false
        → g.conn.status ≡ returned o
        → Step b ldap fold g.conn d
        → d.status ≡ closed
        → ServerStep s (record s {
          goroutines = before ++ record g { conn = d } ∷ after;
          on_close_calls = after_close s.on_close_handler g.conn.conn_id s.on_close_calls;
          crashed = s.crashed || (is_panic o && s.disable_panic_recovery);
        })

  pub data ServerReachable (s : Server S) : Server S → Type ℓ where
    at_start : ServerReachable s s
    by_step : (t u : Server S) → ServerReachable s t → ServerStep t u → ServerReachable s u
