-- ===== src/Simple/Guarded.antt =====
-- That the example server answers a search only behind a login on its connection.
use gldap.Base.{
  All, Bool, Bool-cases, List, Option, Text, [], ap, arith, false, if◌then◌else◌, inl, inr, none,
  refl, some, subst, sym, ℤ, ◌||◌, ◌∙◌, ◌∷◌, ◌≡◌,
}
use gldap.Outcome.{ok}
use gldap.Ber.{Ber}
use gldap.Codes.{result_no_such_object}
use gldap.Codes.Results.{result_authorization_denied}
use gldap.Options.Apply.{with_response_code}
use gldap.Message.{SearchMessage, search}
use gldap.Response.{set_result_code}
use gldap.Response.Writer.{ResponseWriter}
use gldap.Request.{Request, get_search_message, new_search_done_response}
use gldap.Route.{Session}
use gldap.Route.Matching.{IsConsistent, request_of, request_of-IsConsistent}
use gldap.Mux.{Mux, serve, write_response}
use gldap.Simple.{
  answer_alice, answer_people, answer_search, conclude_search, is_authenticated, search_handler,
  simple_mux, simple_mux-simple_routes, simple_routes,
}
use gldap.Simple.Access.{is_login, serve-Leaves, serve_message}

abbrev pub any_login : ℤ → List Request → Bool
any_login id [] = false
any_login id (req ∷ reqs) = is_login id req || any_login id reqs

module _ (b : Ber) (ranged : List (Text × List Text) → List (Text × List Text))
    (fold : Text → Text → Bool) where
  -- The server serves requests one after another, each with a writer.
  abbrev pub serve_each :
      Mux (List ℤ) → ResponseWriter → List Request → Session (List ℤ) → Option (Session (List ℤ))
  serve_each m w [] s = some s
  serve_each m w (req ∷ reqs) s = elim (serve b fold (some w) (some req) m s) [
    | none ↦ none
    | some t ↦ serve_each m w reqs t
  ]

  -- What a search on a connection that has logged in, or has not, is answered.
  abbrev pub guarded_answer : Bool → SearchMessage → Request → Session (List ℤ) → Session (List ℤ)
  guarded_answer logged_in m req t =
      let resp = new_search_done_response req (with_response_code result_no_such_object ∷ []) in
      if logged_in
      then conclude_search b ranged
          (answer_people b ranged m req (answer_alice b ranged m req (resp, t)))
      else write_response b (set_result_code result_authorization_denied resp) t

  serve_each-authenticated :
      (w : ResponseWriter) (reqs : List Request) (s : Session (List ℤ))
      → All IsConsistent reqs
      → (t : Session (List ℤ)) × (serve_each (simple_routes b ranged) w reqs s ≡ some t)
        × ((id : ℤ)
            → is_authenticated id t.state ≡ (any_login id reqs || is_authenticated id s.state))
  serve_each-authenticated w [] s c = (s, refl, λ id. refl)
  serve_each-authenticated w (req ∷ reqs) s c =
      let one = serve-Leaves b ranged fold w req s c.0 in
      let (t, served, known) = serve_each-authenticated w reqs one.left c.1 in
      (t, rw (serve_each, one.is_left) served, λ id. ground (arith, known id, one.authenticated id))

  search_of-guarded :
      (w : ResponseWriter) (id conn_id : ℤ) (m : SearchMessage) (t : Session (List ℤ))
      → serve b fold (some w) (some (request_of id conn_id (search m))) (simple_routes b ranged) t
        ≡ some (
            guarded_answer
              (is_authenticated conn_id t.state)
              m
              (request_of id conn_id (search m))
              t)
  unfolding search_handler answer_search get_search_message
  search_of-guarded w id conn_id m t =
      serve_message b ranged fold w id conn_id (search m) t
      ∙ elim (Bool-cases (is_authenticated conn_id t.state)) [ inl e ↦ rw e | inr e ↦ rw e ]

  search-guarded :
      (w : ResponseWriter) (req : Request) (m : SearchMessage) (t : Session (List ℤ))
      → req.message ≡ search m
      → IsConsistent req
      → serve b fold (some w) (some req) (simple_routes b ranged) t
        ≡ some (guarded_answer (is_authenticated req.conn_id t.state) m req t)
  search-guarded w req m t e c =
      subst
        (λ r.
          serve b fold (some w) (some r) (simple_routes b ranged) t
          ≡ some (guarded_answer (is_authenticated r.conn_id t.state) m r t))
        (ap (request_of req.id req.conn_id) (sym e) ∙ request_of-IsConsistent req c)
        (search_of-guarded w req.id req.conn_id m t)

  -- The example server registers its routes without an error. When it has served any requests, from
  -- a start without authenticated connections, it answers a search on a connection only if one of
  -- them was a simple bind of that connection as "uid=alice"; otherwise it writes one response,
  -- with the code "authorization denied", and changes nothing else. The requests have the operation
  -- and extended name of their messages, and `range` meets the keys of a map in any order.
  pub serve_each-guarded :
      (w : ResponseWriter) (reqs : List Request) (req : Request) (m : SearchMessage)
      (s : Session (List ℤ))
      → s.state ≡ []
      → All IsConsistent reqs
      → IsConsistent req
      → req.message ≡ search m
      → (mux : Mux (List ℤ)) × (simple_mux b ranged ≡ ok mux)
        × (t : Session (List ℤ)) × (serve_each mux w reqs s ≡ some t)
        × (serve b fold (some w) (some req) mux t
            ≡ some (guarded_answer (any_login req.conn_id reqs) m req t))
  serve_each-guarded w reqs req m s new cs c e =
      let (t, served, known) = serve_each-authenticated w reqs s cs in
      let logged_in : is_authenticated req.conn_id t.state ≡ any_login req.conn_id reqs =
        known req.conn_id
        ∙ elim (Bool-cases (any_login req.conn_id reqs)) [ inl y ↦ rw y | inr n ↦ rw (n, new) ] in
      (
        simple_routes b ranged,
        simple_mux-simple_routes b ranged,
        t,
        served,
        search-guarded w req m t e c ∙ ap (λ k. some (guarded_answer k m req t)) logged_in,
      )
