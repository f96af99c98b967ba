-- ===== src/Server/Stoppable.antt =====
-- The invariant of a server that can be stopped, and the steps of `Run` that keep it without ado.
use gldap.Base.{
  All, All-middle, All-update, Bool, List, Option, [], ap, arith, false, if◌then◌else◌, none, refl,
  some, subst, suc, sym, true, ℕ, ◌++◌, ◌+◌, ◌∙◌, ◌∷◌, ◌≡◌, ◌≢◌, ◌≤◌,
}
use gldap.Outcome.{err, ok, ok_injective, panic}
use gldap.Request.{Request}
use gldap.Response.Writer.{ResponseWriter}
use gldap.Route.{Session}
use gldap.Mux.{Mux}
use gldap.Conn.{Conn, Status, closed, end_request, reading, returned, serving}
use gldap.Server.{
  Goroutine, RunStatus, Server, StopStatus, accept_error, accepting, adding, all_done, listen,
  not_run, not_stopped, open_listener, run_returned, select_turn, selecting, set_router,
  stop_returned, waiting, with_goroutine,
}

-- `serveRequests` runs.
abbrev pub IsLive : Status → Type 0
IsLive serving = Unit
IsLive reading = Unit
IsLive (returned o) = ⊥
IsLive closed = ⊥
IsLive Status.crashed = ⊥

-- How many goroutines are counted, and how many are about to be.
abbrev pub count {ℓ} : {S : Type ℓ} → List (Goroutine S) → ℕ
count [] = 0
count (g ∷ gs) = (if g.counted then 1 else 0) + count gs

abbrev pub count_adding {ℓ} : {S : Type ℓ} → RunStatus S → ℕ
count_adding not_run = 0
count_adding selecting = 0
count_adding accepting = 0
count_adding (adding c) = 1
count_adding (run_returned o) = 0

-- A goroutine is counted as long as its `serveRequests` runs.
abbrev pub IsCounted {ℓ} : {S : Type ℓ} → Goroutine S → Type 0
IsCounted g = g.counted ≡ false → IsLive g.conn.status → ⊥

-- `Stop` has cancelled the shutdown context.
abbrev pub HasCancelled : StopStatus → Type 0
HasCancelled not_stopped = ⊥
HasCancelled waiting = Unit
HasCancelled (stop_returned (ok x)) = Unit
HasCancelled (stop_returned (err e)) = ⊥
HasCancelled (stop_returned panic) = ⊥

pub record IsStoppable {ℓ} {S : Type ℓ} (s : Server S) : Type ℓ where
  pub counts : All IsCounted s.goroutines
  pub cancelled : HasCancelled s.stop_status → s.shutdown_done ≡ true
  pub no_late_accept :
      s.run_status ≡ accepting → s.shutdown_done ≡ true → s.listener ≢ open_listener
  pub waited :
      s.stop_status ≡ stop_returned (ok tt) → count s.goroutines + count_adding s.run_status ≤ 1

module _ {ℓ} {S : Type ℓ} where
  count-update :
      (before after : List (Goroutine S)) (g h : Goroutine S)
      → (g.counted ≡ false → h.counted ≡ false)
      → count (before ++ h ∷ after) ≤ count (before ++ g ∷ after)
  count-update [] after g h i = ground arith
  count-update (x ∷ before) after g h i =
      let rest = count-update before after g h i in ground (arith, rest)

  pub count-append :
      (gs : List (Goroutine S)) (c : Conn S)
      → count (gs ++ record { conn = c; counted = true } ∷ []) ≡ suc (count gs)
  count-append [] c = refl
  count-append (g ∷ gs) c = let rest = count-append gs c in omega (arith, rest)

  pub count-all_done : (gs : List (Goroutine S)) → all_done gs ≡ true → count gs ≡ 0
  count-all_done [] h = refl
  count-all_done (g ∷ gs) h = ground (arith, count-all_done gs)

  pub count_adding-bound : (r : RunStatus S) → count_adding r ≤ 1
  count_adding-bound not_run = omega arith
  count_adding-bound selecting = omega arith
  count_adding-bound accepting = omega arith
  count_adding-bound (adding c) = omega arith
  count_adding-bound (run_returned o) = omega arith

  -- One goroutine of a stoppable server changes: it is still counted as long as it serves.
  pub with_goroutine-IsStoppable :
      (s : Server S) (before after : List (Goroutine S)) (g h : Goroutine S)
      → s.goroutines ≡ before ++ g ∷ after
      → (IsCounted g → IsCounted h)
      → (g.counted ≡ false → h.counted ≡ false)
      → IsStoppable s
      → IsStoppable (with_goroutine before after h s)
  with_goroutine-IsStoppable s before after g h e keeps stays i =
      let counts = subst (All IsCounted) e i.counts in
      record {
        counts =
            All-update IsCounted before after g h counts
              (keeps (All-middle IsCounted before after g counts));
        cancelled = i.cancelled;
        no_late_accept = i.no_late_accept;
        waited = λ w.
            let old : count (before ++ g ∷ after) + count_adding s.run_status ≤ 1 =
              subst (λ gs. count gs + count_adding s.run_status ≤ 1) e (i.waited w) in
            omega (arith, old, count-update before after g h stays);
      }

  pub end_request-status :
      (before after : List (ResponseWriter × Request)) (o : Option (Session S)) (c : Conn S)
      → (IsLive c.status → ⊥)
      → IsLive (end_request before after o c).status
      → ⊥
  end_request-status before after none c h l = l
  end_request-status before after (some s) c h l = h l

  pub set_router-IsStoppable :
      (m : Option (Mux S)) (s t : Server S) → set_router m s ≡ ok t → IsStoppable s → IsStoppable t
  unfolding set_router
  set_router-IsStoppable none s t e i = cc e
  set_router-IsStoppable (some m) s t e i =
      subst (λ r. IsStoppable r) (ok_injective e)
        (record {
          counts = i.counts;
          cancelled = i.cancelled;
          no_late_accept = i.no_late_accept;
          waited = i.waited;
        })

  pub listen-IsStoppable :
      (listen_ok : Bool) (s : Server S) → IsStoppable s → IsStoppable (listen listen_ok s)
  unfolding listen
  listen-IsStoppable true s i = record {
    counts = i.counts;
    cancelled = i.cancelled;
    no_late_accept = λ e. cc e;
    waited = λ w. omega (arith, i.waited w);
  }
  listen-IsStoppable false s i = record {
    counts = i.counts;
    cancelled = i.cancelled;
    no_late_accept = λ e. cc e;
    waited = λ w. omega (arith, i.waited w);
  }

  pub select_turn-IsStoppable : (s : Server S) → IsStoppable s → IsStoppable (select_turn s)
  unfolding select_turn
  select_turn-IsStoppable s i = record {
    counts = i.counts;
    cancelled = i.cancelled;
    no_late_accept =
        λ e done o. cc (ap (λ d. if d then run_returned (ok tt) else accepting) (sym done) ∙ e);
    waited = λ w. ground (arith, i.waited w);
  }

  pub accept_error-IsStoppable :
      (listener_closed : Bool) (s : Server S)
      → IsStoppable s
      → IsStoppable (accept_error listener_closed s)
  unfolding accept_error
  accept_error-IsStoppable listener_closed s i = record {
    counts = i.counts;
    cancelled = i.cancelled;
    no_late_accept = λ e. cc e;
    waited = λ w. omega (arith, i.waited w);
  }
