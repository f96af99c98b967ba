-- ===== src/Server/Numbering.antt =====
-- The connection IDs of a server's goroutines.
use gldap.Base.{
  Bool, List, Option, [], ap, arith, none, pos, refl, some, subst, suc, sym, true, ℕ, ℤ, ◌++◌, ◌<◌,
  ◌∙◌, ◌∷◌, ◌≡◌, ◌≤◌,
}
use gldap.Outcome.{Outcome, err, ok, panic}
use gldap.Request.{Request}
use gldap.Response.Writer.{ResponseWriter}
use gldap.Route.{Session}
use gldap.Mux.{Mux}
use gldap.Conn.{Conn, Turn, again, end_request, finish, new_conn, take_turn}
use gldap.Server.{
  Goroutine, RunStatus, Server, accepted, accepting, adding, not_run, run_returned, selecting,
  start_goroutine, with_deadlines, with_goroutine,
}

-- Connections by strictly ascending connection IDs above `low`, up to `high`.
abbrev pub AreNumbered {ℓ} : {S : Type ℓ} → ℕ → List (Goroutine S) → ℕ → Type 0
AreNumbered low [] high = low ≤ high
AreNumbered low (g ∷ gs) high =
    (n : ℕ) × (g.conn.conn_id ≡ pos n) × (low < n) × AreNumbered n gs high

-- In `Accept`, the ID of the turn has not been given to a connection.
pub record IsNumbered {ℓ} {S : Type ℓ} (s : Server S) : Type ℓ where
  pub numbers : AreNumbered 0 s.goroutines s.conn_id
  pub fresh :
      s.run_status ≡ accepting → (k : ℕ) × (s.conn_id ≡ suc k) × AreNumbered 0 s.goroutines k
  pub fresh_added :
      (c : Conn S)
      → s.run_status ≡ adding c
      → (k : ℕ) × (s.conn_id ≡ suc k) × AreNumbered 0 s.goroutines k × (c.conn_id ≡ pos s.conn_id)

module _ {ℓ} {S : Type ℓ} where
  pub AreNumbered-later :
      (low : ℕ) (gs : List (Goroutine S)) (high : ℕ)
      → AreNumbered low gs high
      → AreNumbered low gs (suc high)
  AreNumbered-later low [] high o = omega (arith, o)
  AreNumbered-later low (g ∷ gs) high (n, e, l, o) = (n, e, l, AreNumbered-later n gs high o)

  AreNumbered-append :
      (low : ℕ) (gs : List (Goroutine S)) (high : ℕ) (g : Goroutine S)
      → AreNumbered low gs high
      → g.conn.conn_id ≡ pos (suc high)
      → AreNumbered low (gs ++ g ∷ []) (suc high)
  AreNumbered-append low [] high g o e = (suc high, e, omega (arith, o), omega arith)
  AreNumbered-append low (h ∷ gs) high g (n, e', l, o) e =
      (n, e', l, AreNumbered-append n gs high g o e)

  -- The connection ID of a connection that is about to be counted.
  abbrev conn_id_of : ℤ → RunStatus S → ℤ
  conn_id_of otherwise (adding c) = c.conn_id
  conn_id_of otherwise not_run = otherwise
  conn_id_of otherwise selecting = otherwise
  conn_id_of otherwise accepting = otherwise
  conn_id_of otherwise (run_returned o) = otherwise

  AreNumbered-update :
      (low : ℕ) (before after : List (Goroutine S)) (g h : Goroutine S) (high : ℕ)
      → h.conn.conn_id ≡ g.conn.conn_id
      → AreNumbered low (before ++ g ∷ after) high
      → AreNumbered low (before ++ h ∷ after) high
  AreNumbered-update low [] after g h high same (n, e, l, o) = (n, same ∙ e, l, o)
  AreNumbered-update low (x ∷ before) after g h high same (n, e, l, o) =
      (n, e, l, AreNumbered-update n before after g h high same o)

  pub take_turn-conn_id :
      (c : Conn S) (id : ℕ) (t : Turn S) → (take_turn c id t).conn_id ≡ c.conn_id
  take_turn-conn_id c id (again s new) = refl
  take_turn-conn_id c id (finish s o) = refl

  pub end_request-conn_id :
      (before after : List (ResponseWriter × Request)) (o : Option (Session S)) (c : Conn S)
      → (end_request before after o c).conn_id ≡ c.conn_id
  end_request-conn_id before after none c = refl
  end_request-conn_id before after (some s) c = refl

  with_deadlines-conn_id :
      (read_ok write_ok : Bool) (s : Server S) (c : Conn S)
      → (with_deadlines read_ok write_ok s c).conn_id ≡ c.conn_id
  with_deadlines-conn_id read_ok write_ok s c = ground arith

  pub new_conn-conn_id :
      (conn_id : ℤ) (session : Session S) (m : Mux S) (c : Conn S)
      → new_conn true conn_id (some session) true (some m) ≡ ok c
      → c.conn_id ≡ conn_id
  unfolding new_conn
  new_conn-conn_id conn_id session m c h = ground arith

  -- A server whose goroutines and numbers are another's, and whose `Run` is not farther.
  pub same-IsNumbered :
      (s t : Server S)
      → t.goroutines ≡ s.goroutines
      → t.conn_id ≡ s.conn_id
      → (t.run_status ≡ accepting → s.run_status ≡ accepting)
      → ((c : Conn S) → t.run_status ≡ adding c → s.run_status ≡ adding c)
      → IsNumbered s
      → IsNumbered t
  same-IsNumbered s t g n r r' i = record {
    numbers = rw (g, n) (i.numbers);
    fresh = λ a.
        let (k, e, o) = i.fresh (r a) in (k, n ∙ e, subst (λ gs. AreNumbered 0 gs k) (sym g) o);
    fresh_added = λ c a.
        let (k, e, o, id) = i.fresh_added c (r' c a) in
        (k, n ∙ e, subst (λ gs. AreNumbered 0 gs k) (sym g) o, id ∙ ap pos (sym n));
  }

  pub with_goroutine-IsNumbered :
      (s : Server S) (before after : List (Goroutine S)) (g h : Goroutine S)
      → s.goroutines ≡ before ++ g ∷ after
      → h.conn.conn_id ≡ g.conn.conn_id
      → IsNumbered s
      → IsNumbered (with_goroutine before after h s)
  with_goroutine-IsNumbered s before after g h e same i =
      let changed : (k : ℕ) → AreNumbered 0 s.goroutines k → AreNumbered 0 (before ++ h ∷ after) k =
        λ k o.
          AreNumbered-update 0 before after g h k same (subst (λ gs. AreNumbered 0 gs k) e o) in
      record {
        numbers = changed s.conn_id i.numbers;
        fresh = λ a. let (k, n, o) = i.fresh a in (k, n, changed k o);
        fresh_added = λ c a. let (k, n, o, id) = i.fresh_added c a in (k, n, changed k o, id);
      }

  pub accepted-IsNumbered :
      (s : Server S) (o : Outcome (Conn S))
      → ((c : Conn S) → o ≡ ok c → c.conn_id ≡ pos s.conn_id)
      → s.run_status ≡ accepting
      → IsNumbered s
      → IsNumbered (accepted s o)
  accepted-IsNumbered s (ok c) h a i =
      let (k, e, n) = i.fresh a in
      record {
        numbers = i.numbers;
        fresh = λ a'. cc a';
        fresh_added = λ d a'. (k, e, n, ap (λ r. conn_id_of (pos s.conn_id) r) (sym a') ∙ h c refl);
      }
  accepted-IsNumbered s (err x) h a i =
      same-IsNumbered s (accepted s (err x)) refl refl (λ a'. cc a') (λ c a'. cc a') i
  accepted-IsNumbered s panic h a i =
      same-IsNumbered s (accepted s panic) refl refl (λ e. e) (λ c e. e) i

  pub start_goroutine-IsNumbered :
      (read_ok write_ok : Bool) (c : Conn S) (s : Server S)
      → s.run_status ≡ adding c
      → IsNumbered s
      → IsNumbered (start_goroutine read_ok write_ok c s)
  unfolding start_goroutine
  start_goroutine-IsNumbered read_ok write_ok c s a i =
      let (k, e, n, same) = i.fresh_added c a in
      let g : Goroutine S = record { conn = with_deadlines read_ok write_ok s c; counted = true } in
      let id = with_deadlines-conn_id read_ok write_ok s c ∙ same ∙ ap pos e in
      record {
        numbers =
            subst (AreNumbered 0 (s.goroutines ++ g ∷ [])) (sym e)
              (AreNumbered-append 0 s.goroutines k g n id);
        fresh = λ a'. cc a';
        fresh_added = λ d a'. cc a';
      }
