-- ===== src/Mux/Offered.antt =====
-- What registrations offer, from the registrations themselves, and the routes that they make.
use gldap.Message.{Message, simple_auth_choice}
use gldap.Base.{
  Bool, Bool-cases, List, Option, Text, [], ap, append-nil, append_assoc, arith, false,
  if◌then◌else◌, inl, inr, none, refl, some, sym, text_eq, true, ◌&&◌, ◌++◌, ◌∙◌, ◌∷◌, ◌≡◌,
}
use gldap.Outcome.{err, invalid_parameter, ok}
use gldap.Options.Apply.{get_route_opts}
use gldap.Ber.{Ber}
use gldap.Request.{
  Request, add_route_operation, bind_route_operation, delete_route_operation,
  extended_route_operation, modify_route_operation, search_route_operation,
}
use gldap.Route.{
  HandlerFunc, Route, Session, accepts_scope, accepts_text, add_route, base_route, delete_route,
  extended_route, handler, modify_route, search_route, simple_bind_route,
}
use gldap.Response.Writer.{ResponseWriter}
use gldap.Mux.{
  Mux, add, bind, delete, extended_operation, labelled, modify, no_handler, search,
  set_default_route, unbind, write_response,
}
use gldap.Mux.Registered.{
  Registration, for_add, for_bind, for_default, for_delete, for_extended, for_modify, for_search,
  for_unbind, handler_of, register, register-none, register_all,
}

-- Whether a registration is for a message: for bind, simple binds; for search, those with the base
-- DN, filter and scope of the options, where these name one; for an extended name, that operation;
-- and for modify, add and delete, every such message.
abbrev pub wants {ℓ} : {S : Type ℓ} → (Text → Text → Bool) → Registration S → Message → Bool
wants fold (for_bind h opt) (Message.simple_bind m) = text_eq simple_auth_choice m.auth_choice
wants fold (for_search h opt) (Message.search m) =
    accepts_text fold (get_route_opts opt).with_base_dn m.base_dn
    && accepts_text fold (get_route_opts opt).with_filter m.filter
    && accepts_scope (get_route_opts opt).with_scope m.scope
wants fold (for_extended h ex_name opt) (Message.extended_operation m) = text_eq ex_name m.name
wants fold (for_modify h opt) (Message.modify m) = true
wants fold (for_add h opt) (Message.add m) = true
wants fold (for_delete h opt) (Message.delete m) = true
wants fold g m = false

module _ {ℓ} {S : Type ℓ} where
  -- A new multiplexer.
  abbrev pub empty_mux : Mux S
  empty_mux = record { routes = []; default_route = none; unbind_route = none }

  abbrev pub is_handled : Registration S → Bool
  is_handled g = elim (handler_of g) [ none ↦ false | some h ↦ true ]

  abbrev pub all_handled : List (Registration S) → Bool
  all_handled [] = true
  all_handled (g ∷ gs) = is_handled g && all_handled gs

  -- The handler of the last registration as default, and of the last one for unbind.
  abbrev pub last_default : List (Registration S) → Option (HandlerFunc S) → Option (HandlerFunc S)
  last_default [] h = h
  last_default (for_default h opt ∷ gs) old = last_default gs h
  last_default (g ∷ gs) old = last_default gs old

  abbrev pub last_unbind : List (Registration S) → Option (HandlerFunc S) → Option (HandlerFunc S)
  last_unbind [] h = h
  last_unbind (for_unbind h opt ∷ gs) old = last_unbind gs h
  last_unbind (g ∷ gs) old = last_unbind gs old

  -- The handler of the first registration for the message, or else the default.
  abbrev pub chosen :
      (Text → Text → Bool)
      → List (Registration S)
      → Message
      → (default : Option (HandlerFunc S)) → Option (HandlerFunc S)
  chosen fold [] m default = default
  chosen fold (g ∷ gs) m default = if wants fold g m then handler_of g else chosen fold gs m default

  -- The handler that a route has, if it is there.
  abbrev pub handler_at : Option (Route S) → Option (HandlerFunc S)
  handler_at none = none
  handler_at (some r) = handler r

  -- The handler answers, or else "no matching handler found" is written.
  abbrev pub answer_by :
      Ber → Option (HandlerFunc S) → ResponseWriter → Request → Session S → Option (Session S)
  answer_by b (some h) w req s = h w req s
  answer_by b none w req s = some (write_response b (no_handler req) s)

  -- The routes that registrations append, behind the ones that are there.
  abbrev pub routes_of : Registration S → List (Route S)
  routes_of (for_bind h opt) =
      simple_bind_route (labelled h bind_route_operation opt) simple_auth_choice ∷ []
  routes_of (for_unbind h opt) = []
  routes_of (for_search h opt) =
      search_route (labelled h search_route_operation opt) (get_route_opts opt).with_base_dn
        (get_route_opts opt).with_filter (get_route_opts opt).with_scope
      ∷ []
  routes_of (for_modify h opt) = modify_route (labelled h modify_route_operation opt) ∷ []
  routes_of (for_add h opt) = add_route (labelled h add_route_operation opt) ∷ []
  routes_of (for_delete h opt) = delete_route (labelled h delete_route_operation opt) ∷ []
  routes_of (for_default h opt) = []
  routes_of (for_extended h ex_name opt) =
      extended_route (labelled h extended_route_operation opt) ex_name ∷ []

  abbrev pub all_routes : List (Registration S) → List (Route S)
  all_routes [] = []
  all_routes (g ∷ gs) = routes_of g ++ all_routes gs

  abbrev append_all : Registration S → Mux S → Mux S
  append_all g m = record m { routes = m.routes ++ routes_of g }

  -- What a registration with a handler makes of a multiplexer.
  register-ok :
      (g : Registration S) (m : Mux S)
      → is_handled g ≡ true
      → (n : Mux S) × (register g m ≡ ok n)
        × (n.routes ≡ m.routes ++ routes_of g)
        × (handler_at n.default_route ≡ last_default (g ∷ []) (handler_at m.default_route))
        × (handler_at n.unbind_route ≡ last_unbind (g ∷ []) (handler_at m.unbind_route))
  unfolding bind unbind search modify add delete extended_operation set_default_route
  register-ok (for_bind none opt) m h = cc h
  register-ok (for_bind (some f) opt) m h =
      (append_all (for_bind (some f) opt) m, refl, refl, refl, refl)
  register-ok (for_search none opt) m h = cc h
  register-ok (for_search (some f) opt) m h =
      (append_all (for_search (some f) opt) m, refl, refl, refl, refl)
  register-ok (for_modify none opt) m h = cc h
  register-ok (for_modify (some f) opt) m h =
      (append_all (for_modify (some f) opt) m, refl, refl, refl, refl)
  register-ok (for_add none opt) m h = cc h
  register-ok (for_add (some f) opt) m h =
      (append_all (for_add (some f) opt) m, refl, refl, refl, refl)
  register-ok (for_delete none opt) m h = cc h
  register-ok (for_delete (some f) opt) m h =
      (append_all (for_delete (some f) opt) m, refl, refl, refl, refl)
  register-ok (for_extended none x opt) m h = cc h
  register-ok (for_extended (some f) x opt) m h =
      (append_all (for_extended (some f) x opt) m, refl, refl, refl, refl)
  register-ok (for_unbind none opt) m h = cc h
  register-ok (for_unbind (some f) opt) m h = (
    record m {
      unbind_route = some (Route.unbind_route (labelled (some f) bind_route_operation opt));
    },
    refl,
    sym (append-nil m.routes),
    refl,
    refl,
  )
  register-ok (for_default none opt) m h = cc h
  register-ok (for_default (some f) opt) m h = (
    record m {
      default_route =
          some (base_route (record { h = some f; route_op = bind_route_operation; label = [] }));
    },
    refl,
    sym (append-nil m.routes),
    refl,
    refl,
  )

  unhandled :
      (o : Option (HandlerFunc S)) → (elim o [ none ↦ false | some h ↦ true ]) ≡ false → o ≡ none
  unhandled none h = refl
  unhandled (some f) h = cc h

  register-refused :
      (g : Registration S) (m : Mux S) → is_handled g ≡ false → register g m ≡ err invalid_parameter
  register-refused g m h = register-none g m (unhandled (handler_of g) h)

  last_default-cons :
      (g : Registration S) (gs : List (Registration S)) (old : Option (HandlerFunc S))
      → last_default (g ∷ gs) old ≡ last_default gs (last_default (g ∷ []) old)
  last_default-cons (for_bind h opt) gs old = refl
  last_default-cons (for_unbind h opt) gs old = refl
  last_default-cons (for_search h opt) gs old = refl
  last_default-cons (for_modify h opt) gs old = refl
  last_default-cons (for_add h opt) gs old = refl
  last_default-cons (for_delete h opt) gs old = refl
  last_default-cons (for_default h opt) gs old = refl
  last_default-cons (for_extended h x opt) gs old = refl

  last_unbind-cons :
      (g : Registration S) (gs : List (Registration S)) (old : Option (HandlerFunc S))
      → last_unbind (g ∷ gs) old ≡ last_unbind gs (last_unbind (g ∷ []) old)
  last_unbind-cons (for_bind h opt) gs old = refl
  last_unbind-cons (for_unbind h opt) gs old = refl
  last_unbind-cons (for_search h opt) gs old = refl
  last_unbind-cons (for_modify h opt) gs old = refl
  last_unbind-cons (for_add h opt) gs old = refl
  last_unbind-cons (for_delete h opt) gs old = refl
  last_unbind-cons (for_default h opt) gs old = refl
  last_unbind-cons (for_extended h x opt) gs old = refl

  pub register_all-ok :
      (gs : List (Registration S)) (m : Mux S)
      → all_handled gs ≡ true
      → (n : Mux S) × (register_all gs m ≡ ok n)
        × (n.routes ≡ m.routes ++ all_routes gs)
        × (handler_at n.default_route ≡ last_default gs (handler_at m.default_route))
        × (handler_at n.unbind_route ≡ last_unbind gs (handler_at m.unbind_route))
  register_all-ok [] m h = (m, refl, sym (append-nil m.routes), refl, refl)
  register_all-ok (g ∷ gs) m h =
      let here : is_handled g ≡ true = ground (arith, h) in
      let later : all_handled gs ≡ true = ground (arith, h) in
      let (n, made, routes, default, unbinds) = register-ok g m here in
      let (o, made', routes', default', unbinds') = register_all-ok gs n later in
      (
        o,
        rw made made',
        routes'
            ∙ ap (λ rs. rs ++ all_routes gs) routes
            ∙ append_assoc m.routes (routes_of g) (all_routes gs),
        default'
            ∙ ap (last_default gs) default
            ∙ sym (last_default-cons g gs (handler_at m.default_route)),
        unbinds'
            ∙ ap (last_unbind gs) unbinds
            ∙ sym (last_unbind-cons g gs (handler_at m.unbind_route)),
      )

  pub register_all-refused :
      (gs : List (Registration S)) (m : Mux S)
      → all_handled gs ≡ false
      → register_all gs m ≡ err invalid_parameter
  register_all-refused [] m h = cc h
  register_all-refused (g ∷ gs) m h = elim (Bool-cases (is_handled g)) [
    | inl on ↦
        let (n, made, x, y, z) = register-ok g m on in
        rw made (register_all-refused gs n (ground (arith, h, on)))
    | inr off ↦ rw (register-refused g m off)
  ]
