-- ===== src/Mux/Routed.antt =====
-- `serve` on the routes that a program registers, from the registrations themselves.
use gldap.Message.{Message}
use gldap.Base.{
  Bool, Bool-cases, List, Option, Text, [], arith, false, inl, inr, none, refl, some, subst, sym,
  text_eq, true, ℤ, ◌++◌, ◌∙◌, ◌∷◌, ◌≡◌, ◌⊎◌,
}
use gldap.Outcome.{err, invalid_parameter, ok, ok_injective}
use gldap.Ber.{Ber}
use gldap.Request.{Request, extended_name_of, operation_of}
use gldap.Route.{HandlerFunc, Route, Session, handler, match_message, matches}
use gldap.Route.Matching.{request_of}
use gldap.Response.Writer.{ResponseWriter}
use gldap.Mux.{Mux, serve, serve_default, serve_loop, serve_route}
use gldap.Mux.Registered.{
  IsServableOption, Registration, for_add, for_bind, for_default, for_delete, for_extended,
  for_modify, for_search, for_unbind, handler_of, register_all, register_all-IsRegistered,
}
use gldap.Mux.Offered.{
  all_handled, all_routes, answer_by, chosen, empty_mux, handler_at, is_handled, last_default,
  last_unbind, register_all-ok, register_all-refused, routes_of, wants,
}

module _ {ℓ} {S : Type ℓ} (b : Ber) (fold : Text → Text → Bool) where
  -- A registration appends at most one route, which matches exactly the messages that the
  -- registration is for and has its handler; it is for no message if it appends none.
  abbrev Offers : Registration S → List (Route S) → Message → Type ℓ
  Offers g [] m = (handler_of g ≡ handler_of g) × (wants fold g m ≡ false)
  Offers g (r ∷ []) m =
      ((id conn_id : ℤ) → matches fold r (some (request_of id conn_id m)) ≡ wants fold g m)
      × (handler r ≡ handler_of g)
  Offers g (r ∷ q ∷ rs) m = (handler_of g ≡ handler_of g) × ⊥

  routes_of-Offers : (g : Registration S) (m : Message) → Offers g (routes_of g) m
  unfolding matches match_message operation_of extended_name_of text_eq
  routes_of-Offers (for_bind h opt) m = ((λ id conn_id. ground arith), refl)
  routes_of-Offers (for_search h opt) m = ((λ id conn_id. ground arith), refl)
  routes_of-Offers (for_modify h opt) m = ((λ id conn_id. ground arith), refl)
  routes_of-Offers (for_add h opt) m = ((λ id conn_id. ground arith), refl)
  routes_of-Offers (for_delete h opt) m = ((λ id conn_id. ground arith), refl)
  routes_of-Offers (for_extended h x opt) m = ((λ id conn_id. ground arith), refl)
  routes_of-Offers (for_unbind h opt) m = (refl, refl)
  routes_of-Offers (for_default h opt) m = (refl, refl)

  serve_route-answer_by :
      (o : Option (HandlerFunc S)) (w : ResponseWriter) (req : Request) (s : Session S)
      → (elim o [ none ↦ false | some h ↦ true ]) ≡ true
      → serve_route o w req s ≡ answer_by b o w req s
  serve_route-answer_by none w req s h = cc h
  serve_route-answer_by (some f) w req s h = refl

  module _ (default : Option (Route S)) (w : ResponseWriter) (id conn_id : ℤ) (m : Message)
      (s : Session S) where
    abbrev request : Request
    request = request_of id conn_id m

    loop_step :
        (g : Registration S) (gs : List (Registration S)) (rs : List (Route S))
        → is_handled g ≡ true
        → Offers g rs m
        → serve_loop b fold (all_routes gs) default w request s
          ≡ answer_by b (chosen fold gs m (handler_at default)) w request s
        → serve_loop b fold (rs ++ all_routes gs) default w request s
          ≡ answer_by b (chosen fold (g ∷ gs) m (handler_at default)) w request s
    unfolding serve_loop
    loop_step g gs [] h (same, off) rest = rw off rest
    loop_step g gs (r ∷ []) h (match, same) rest = elim (Bool-cases (wants fold g m)) [
      | inl on ↦
          rw (match id conn_id ∙ on, on, same) (serve_route-answer_by (handler_of g) w request s h)
      | inr off ↦ rw (match id conn_id ∙ off, off) rest
    ]
    loop_step g gs (r ∷ q ∷ rs) h (same, never) rest = absurd never

    -- The loop over the routes of registrations that have handlers.
    serve_loop-chosen :
        (gs : List (Registration S))
        → all_handled gs ≡ true
        → serve_default b default w request s ≡ answer_by b (handler_at default) w request s
        → serve_loop b fold (all_routes gs) default w request s
          ≡ answer_by b (chosen fold gs m (handler_at default)) w request s
    unfolding serve_loop
    serve_loop-chosen [] h d = d
    serve_loop-chosen (g ∷ gs) h d =
        loop_step g gs (routes_of g) (ground (arith, h)) (routes_of-Offers g m)
          (serve_loop-chosen gs (ground (arith, h)) d)

  default_served :
      (r : Option (Route S))
      → IsServableOption r
      → (w : ResponseWriter) (req : Request) (s : Session S)
      → serve_default b r w req s ≡ answer_by b (handler_at r) w req s
  default_served none i w req s = refl
  default_served (some r) i w req s = rw (i.has_handler)

  default_of :
      (gs : List (Registration S)) (n : Mux S)
      → register_all gs empty_mux ≡ ok n
      → IsServableOption n.default_route
  default_of gs n made =
      elim (register_all-IsRegistered gs empty_mux
        (record { routes_servable = tt; default_servable = tt; unbind_servable = tt })) [
          | inl refused ↦ cc (made, refused)
          | inr (k, made', i) ↦
              subst (λ x. IsServableOption x.default_route) (ok_injective (sym made' ∙ made))
                i.default_servable
        ]

  -- Registrations on a new multiplexer are refused with `ErrInvalidParameter` if one has no
  -- handler. Otherwise they succeed, and `serve` on a request made of any message calls the handler
  -- of the first registration that is for the message, or else that of the last registration as
  -- default, or else answers that there is no handler; the unbind route has the handler of the last
  -- registration for unbind.
  pub serve-register_all :
      (gs : List (Registration S)) (w : ResponseWriter) (id conn_id : ℤ) (m : Message)
      (s : Session S)
      → ((all_handled gs ≡ false) × (register_all gs empty_mux ≡ err invalid_parameter))
        ⊎ ((all_handled gs ≡ true)
            × ((n : Mux S) × (register_all gs empty_mux ≡ ok n)
                × (serve b fold (some w) (some (request_of id conn_id m)) n s
                    ≡ answer_by b
                        (chosen fold gs m (last_default gs none))
                        w
                        (request_of id conn_id m)
                        s)
                × (handler_at n.unbind_route ≡ last_unbind gs none)))
  unfolding serve
  serve-register_all gs w id conn_id m s = elim (Bool-cases (all_handled gs)) [
    | inr off ↦ inl (off, register_all-refused gs empty_mux off)
    | inl on ↦
        let (n, made, routes, default, unbinds) = register_all-ok gs empty_mux on in
        let servable : IsServableOption n.default_route = default_of gs n made in
        let looped =
          serve_loop-chosen n.default_route w id conn_id m s gs on
            (default_served n.default_route servable w (request_of id conn_id m) s) in
        inr (on, (n, made, rw routes (looped ∙ rw default), unbinds))
  ]
