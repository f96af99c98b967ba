-- ===== src/Mux/Registered.antt =====
-- The multiplexers that registrations make: every route has a handler and serves the operation of
-- its kind.
use gldap.Message.{simple_auth_choice}
use gldap.Base.{
  All, All-append, List, Option, Option-cases, Text, [], inl, inr, none, refl, some, ◌∷◌, ◌≡◌, ◌⊎◌,
}
use gldap.Outcome.{Outcome, err, invalid_parameter, ok, ◌>>=◌}
use gldap.Options.{GoOption}
use gldap.Options.Apply.{get_route_opts}
use gldap.Request.{
  add_route_operation, bind_route_operation, delete_route_operation, extended_route_operation,
  modify_route_operation, search_route_operation,
}
use gldap.Route.{
  HandlerFunc, Route, add_route, base_route, delete_route, extended_route, handler, modify_route,
  search_route, simple_bind_route,
}
use gldap.Route.Matching.{HasOperation}
use gldap.Mux.{
  Mux, add, append_route, bind, delete, extended_operation, labelled, modify, search,
  set_default_route, unbind,
}

-- A call of a registering method.
pub data Registration {ℓ} (S : Type ℓ) : Type ℓ where
  for_bind for_unbind for_search for_modify for_add for_delete for_default :
      Option (HandlerFunc S) → List GoOption → Registration S
  for_extended : Option (HandlerFunc S) → (ex_name : Text) → List GoOption → Registration S

module _ {ℓ} {S : Type ℓ} where
  abbrev pub register : Registration S → Mux S → Outcome (Mux S)
  register (for_bind h opt) = bind h opt
  register (for_unbind h opt) = unbind h opt
  register (for_search h opt) = search h opt
  register (for_modify h opt) = modify h opt
  register (for_add h opt) = add h opt
  register (for_delete h opt) = delete h opt
  register (for_default h opt) = set_default_route h opt
  register (for_extended h ex_name opt) = extended_operation h ex_name opt

  abbrev pub handler_of : Registration S → Option (HandlerFunc S)
  handler_of (for_bind h opt) = h
  handler_of (for_unbind h opt) = h
  handler_of (for_search h opt) = h
  handler_of (for_modify h opt) = h
  handler_of (for_add h opt) = h
  handler_of (for_delete h opt) = h
  handler_of (for_default h opt) = h
  handler_of (for_extended h ex_name opt) = h

  abbrev pub register_all : List (Registration S) → Mux S → Outcome (Mux S)
  register_all [] m = ok m
  register_all (g ∷ gs) m = do m ← register g m; register_all gs m

  pub record IsServable (r : Route S) : Type ℓ where
    pub served : HandlerFunc S
    pub has_handler : handler r ≡ some served
    pub has_operation : HasOperation r

  abbrev pub IsServableOption : Option (Route S) → Type ℓ
  IsServableOption none = Unit
  IsServableOption (some r) = IsServable r

  pub record IsRegistered (m : Mux S) : Type ℓ where
    pub routes_servable : All IsServable m.routes
    pub default_servable : IsServableOption m.default_route
    pub unbind_servable : IsServableOption m.unbind_route

  -- A registration that appends a route of its kind with a handler.
  appended :
      (m : Mux S) (r : Route S) (f : HandlerFunc S) {o : Outcome (Mux S)}
      → o ≡ ok (append_route r m)
      → IsRegistered m
      → handler r ≡ some f
      → HasOperation r
      → (n : Mux S) × (o ≡ ok n) × IsRegistered n
  appended m r f e i h k =
      let s : IsServable r = record { served = f; has_handler = h; has_operation = k } in
      (
        append_route r m,
        e,
        record {
          routes_servable = All-append IsServable m.routes (r ∷ []) i.routes_servable (s, tt);
          default_servable = i.default_servable;
          unbind_servable = i.unbind_servable;
        },
      )

  -- A registration with a handler is accepted and keeps the multiplexer well-formed: every route,
  -- the default route and the unbind route have a handler and the operation of their kind.
  pub register-IsRegistered :
      (g : Registration S) (f : HandlerFunc S) (m : Mux S)
      → handler_of g ≡ some f
      → IsRegistered m
      → (n : Mux S) × (register g m ≡ ok n) × IsRegistered n
  unfolding bind unbind search modify add delete extended_operation set_default_route
  register-IsRegistered (for_bind o opt) f m h i =
      appended m (simple_bind_route (labelled (some f) bind_route_operation opt) simple_auth_choice)
        f (rw h) i refl refl
  register-IsRegistered (for_search o opt) f m h i =
      appended m
        (search_route (labelled (some f) search_route_operation opt)
          (get_route_opts opt).with_base_dn (get_route_opts opt).with_filter
          (get_route_opts opt).with_scope)
        f (rw h) i refl refl
  register-IsRegistered (for_modify o opt) f m h i =
      appended m (modify_route (labelled (some f) modify_route_operation opt)) f (rw h) i refl refl
  register-IsRegistered (for_add o opt) f m h i =
      appended m (add_route (labelled (some f) add_route_operation opt)) f (rw h) i refl refl
  register-IsRegistered (for_delete o opt) f m h i =
      appended m (delete_route (labelled (some f) delete_route_operation opt)) f (rw h) i refl refl
  register-IsRegistered (for_extended o x opt) f m h i =
      appended m (extended_route (labelled (some f) extended_route_operation opt) x) f (rw h) i refl
        refl
  register-IsRegistered (for_unbind o opt) f m h i = (
    record m {
      unbind_route = some (Route.unbind_route (labelled (some f) bind_route_operation opt));
    },
    rw h,
    record {
      routes_servable = i.routes_servable;
      default_servable = i.default_servable;
      unbind_servable = record { served = f; has_handler = refl; has_operation = tt };
    },
  )
  register-IsRegistered (for_default o opt) f m h i = (
    record m {
      default_route =
          some (base_route (record { h = some f; route_op = bind_route_operation; label = [] }));
    },
    rw h,
    record {
      routes_servable = i.routes_servable;
      default_servable = record { served = f; has_handler = refl; has_operation = tt };
      unbind_servable = i.unbind_servable;
    },
  )

  -- A registration without a handler is refused.
  pub register-none :
      (g : Registration S) (m : Mux S) → handler_of g ≡ none → register g m ≡ err invalid_parameter
  unfolding bind unbind search modify add delete extended_operation set_default_route
  register-none (for_bind o opt) m h = rw h
  register-none (for_unbind o opt) m h = rw h
  register-none (for_search o opt) m h = rw h
  register-none (for_modify o opt) m h = rw h
  register-none (for_add o opt) m h = rw h
  register-none (for_delete o opt) m h = rw h
  register-none (for_default o opt) m h = rw h
  register-none (for_extended o x opt) m h = rw h

  -- A sequence of registrations made on a well-formed multiplexer either stops at one without a
  -- handler, with `ErrInvalidParameter`, or makes a well-formed multiplexer.
  pub register_all-IsRegistered :
      (gs : List (Registration S)) (m : Mux S)
      → IsRegistered m
      → (register_all gs m ≡ err invalid_parameter)
        ⊎ ((n : Mux S) × (register_all gs m ≡ ok n) × IsRegistered n)
  register_all-IsRegistered [] m i = inr (m, refl, i)
  register_all-IsRegistered (g ∷ gs) m i = elim (Option-cases (handler_of g)) [
    | inl none_eq ↦ inl (rw (register-none g m none_eq))
    | inr (f, some_eq) ↦
        let (n, e, j) = register-IsRegistered g f m some_eq i in
        elim (register_all-IsRegistered gs n j) [
          | inl stop ↦ inl (rw (e, stop))
          | inr (o, e', k) ↦ inr (o, rw (e, e'), k)
        ]
  ]
