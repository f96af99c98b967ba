-- ===== src/Simple/Access.antt =====
-- Which connections of the example server are answered.
use gldap.Base.{
  Bool, Bool-cases, List, Option, Text, [], false, if◌then◌else◌, inl, inr, int_eq, refl, some,
  subst, sym, text_eq, ℤ, ◌&&◌, ◌||◌, ◌∙◌, ◌∷◌, ◌≡◌,
}
use gldap.Outcome.{Outcome-cases, ok}
use gldap.Ber.{Ber}
use gldap.Codes.{result_invalid_credentials, result_no_such_object, result_success}
use gldap.Options.Apply.{with_response_code}
use gldap.Message.{
  Message, SearchMessage, SimpleBindMessage, add, delete, extended_operation, modify, search,
  simple_auth_choice, simple_bind, unbind,
}
use gldap.Response.{Response, set_result_code}
use gldap.Response.Writer.{ResponseWriter}
use gldap.Request.{
  Request, extended_name_of, get_search_message, get_simple_bind_message, new_bind_response,
  new_search_done_response, operation_of,
}
use gldap.Route.{HandlerFunc, Session, match_message, matches}
use gldap.Route.Matching.{IsConsistent, request_of, request_of-IsConsistent}
use gldap.Mux.{no_handler, serve, serve_loop, write_response}
use gldap.Directory.Search.{contains}
use gldap.Simple.{
  Answering, alice_entry_dn, alice_name, answer_alice, answer_people, answer_search, bind_handler,
  is_authenticated, people_dn, search_handler, simple_routes,
}

-- A simple bind as "uid=alice" on a connection.
abbrev pub logs_in_as_alice : Message → Bool
logs_in_as_alice (simple_bind m) =
    text_eq simple_auth_choice m.auth_choice && text_eq m.user_name alice_name
logs_in_as_alice m = false

abbrev pub is_login : ℤ → Request → Bool
is_login id req = logs_in_as_alice req.message && int_eq req.conn_id id

module _ (b : Ber) (ranged : List (Text × List Text) → List (Text × List Text))
    (fold : Text → Text → Bool) where
  -- What a request leaves, and which connections are authenticated then.
  pub record Leaves (req : Request) (s : Session (List ℤ)) (o : Option (Session (List ℤ)))
      : Type 0 where
    pub left : Session (List ℤ)
    pub is_left : o ≡ some left
    pub authenticated :
        (id : ℤ) → is_authenticated id left.state ≡ (is_login id req || is_authenticated id s.state)

  -- The handler that the routes give a message.
  abbrev pub simple_handler : Message → HandlerFunc (List ℤ)
  simple_handler (simple_bind m) w req s =
      if text_eq simple_auth_choice m.auth_choice
      then bind_handler b ranged w req s
      else some (write_response b (no_handler req) s)
  simple_handler (search m) w req s = search_handler b ranged w req s
  simple_handler _ w req s = some (write_response b (no_handler req) s)

  pub serve_message :
      (w : ResponseWriter) (id conn_id : ℤ) (m : Message) (s : Session (List ℤ))
      → serve b fold (some w) (some (request_of id conn_id m)) (simple_routes b ranged) s
        ≡ simple_handler m w (request_of id conn_id m) s
  unfolding serve serve_loop matches match_message operation_of extended_name_of text_eq
  serve_message w id conn_id (simple_bind m) s =
      elim (Bool-cases (text_eq simple_auth_choice m.auth_choice)) [ inl e ↦ rw e | inr e ↦ rw e ]
  serve_message w id conn_id (search m) s = refl
  serve_message w id conn_id (extended_operation m) s = refl
  serve_message w id conn_id (modify m) s = refl
  serve_message w id conn_id (add m) s = refl
  serve_message w id conn_id (delete m) s = refl
  serve_message w id conn_id (unbind m) s = refl

  write_response-state :
      (r : Response) (s : Session (List ℤ)) → (write_response b r s).state ≡ s.state
  unfolding write_response
  write_response-state r s = refl

  -- A response that is written changes no authentication.
  replies :
      (r : Response) (req : Request) (s : Session (List ℤ))
      → logs_in_as_alice req.message ≡ false
      → Leaves req s (some (write_response b r s))
  replies r req s h = record {
    left = write_response b r s;
    is_left = refl;
    authenticated = λ id. rw (h, write_response-state r s);
  }

  bind_handler-Leaves :
      (m : SimpleBindMessage) (w : ResponseWriter) (req : Request) (s : Session (List ℤ))
      → get_simple_bind_message req ≡ ok m
      → logs_in_as_alice req.message ≡ text_eq m.user_name alice_name
      → Leaves req s (bind_handler b ranged w req s)
  unfolding bind_handler write_response
  bind_handler-Leaves m w req s g login =
      let reply = new_bind_response req (with_response_code result_invalid_credentials ∷ []) in
      elim (Bool-cases (text_eq m.user_name alice_name)) [
        | inl named ↦ record {
          left =
              write_response b (set_result_code result_success reply)
                (record s { state = req.conn_id ∷ s.state });
          is_left = rw (g, named);
          authenticated = λ id. rw (login, named);
        }
        | inr unnamed ↦
            subst (Leaves req s) (rw (g, unnamed)) (replies reply req s (rw (login, unnamed)))
      ]

  answer_alice-state :
      (m : SearchMessage) (r : Request) (a : Answering)
      → (answer_alice b ranged m r a).1.state ≡ a.1.state
  unfolding answer_alice write_response
  answer_alice-state m r a =
      elim (Bool-cases (contains m.filter alice_name || text_eq m.base_dn alice_entry_dn)) [
        | inl e ↦ rw e
        | inr e ↦ rw e
      ]

  answer_people-state :
      (m : SearchMessage) (r : Request) (a : Answering)
      → (answer_people b ranged m r a).1.state ≡ a.1.state
  unfolding answer_people write_response
  answer_people-state m r a = elim (Bool-cases (text_eq m.base_dn people_dn)) [
    | inl e ↦ rw e
    | inr e ↦ rw e
  ]

  answer_search-state :
      (r : Request) (resp : Response) (s : Session (List ℤ))
      → (answer_search b ranged r resp s).state ≡ s.state
  unfolding answer_search write_response
  answer_search-state r resp s = elim (Bool-cases (is_authenticated r.conn_id s.state)) [
    | inr denied ↦ rw denied
    | inl allowed ↦ elim (Outcome-cases (get_search_message r)) [
      | inl (m, e) ↦
          rw (allowed, e)
            (answer_people-state m r (answer_alice b ranged m r (resp, s))
              ∙ answer_alice-state m r (resp, s))
      | inr (inl (x, e)) ↦ rw (allowed, e)
      | inr (inr e) ↦ rw (allowed, e)
    ]
  ]

  search_handler-Leaves :
      (w : ResponseWriter) (req : Request) (s : Session (List ℤ))
      → logs_in_as_alice req.message ≡ false
      → Leaves req s (search_handler b ranged w req s)
  unfolding search_handler
  search_handler-Leaves w req s h =
      let resp = new_search_done_response req (with_response_code result_no_such_object ∷ []) in
      record {
        left = answer_search b ranged req resp s;
        is_left = refl;
        authenticated = λ id. rw (h, answer_search-state req resp s);
      }

  simple_handler-Leaves :
      (w : ResponseWriter) (id conn_id : ℤ) (m : Message) (s : Session (List ℤ))
      → Leaves (request_of id conn_id m) s (simple_handler m w (request_of id conn_id m) s)
  unfolding get_simple_bind_message
  simple_handler-Leaves w id conn_id (simple_bind m) s =
      let req = request_of id conn_id (simple_bind m) in
      elim (Bool-cases (text_eq simple_auth_choice m.auth_choice)) [
        | inl simple ↦ rw simple (bind_handler-Leaves m w req s refl (rw simple))
        | inr off ↦ rw off (replies (no_handler req) req s (rw off))
      ]
  simple_handler-Leaves w id conn_id (search m) s =
      search_handler-Leaves w (request_of id conn_id (search m)) s refl
  simple_handler-Leaves w id conn_id (extended_operation m) s =
      let req = request_of id conn_id (extended_operation m) in replies (no_handler req) req s refl
  simple_handler-Leaves w id conn_id (modify m) s =
      let req = request_of id conn_id (modify m) in replies (no_handler req) req s refl
  simple_handler-Leaves w id conn_id (add m) s =
      let req = request_of id conn_id (add m) in replies (no_handler req) req s refl
  simple_handler-Leaves w id conn_id (delete m) s =
      let req = request_of id conn_id (delete m) in replies (no_handler req) req s refl
  simple_handler-Leaves w id conn_id (unbind m) s =
      let req = request_of id conn_id (unbind m) in replies (no_handler req) req s refl

  pub serve-Leaves :
      (w : ResponseWriter) (req : Request) (s : Session (List ℤ))
      → IsConsistent req
      → Leaves req s (serve b fold (some w) (some req) (simple_routes b ranged) s)
  serve-Leaves w req s c =
      subst (λ r. Leaves r s (serve b fold (some w) (some r) (simple_routes b ranged) s))
        (request_of-IsConsistent req c)
        (subst (Leaves (request_of req.id req.conn_id req.message) s)
          (sym (serve_message w req.id req.conn_id req.message s))
          (simple_handler-Leaves w req.id req.conn_id req.message s))
