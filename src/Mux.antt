-- ===== src/Mux.antt =====
-- mux.go: the multiplexer, the registration of its routes, and `serve`. Its lock orders the
-- registrations, which are functions here.
pub mod Registered
pub mod Offered
pub mod Routed
pub mod Serving
use gldap.Base.{
  Bool, List, Option, Text, [], codes, false, if◌then◌else◌, none, not, some, true, ◌++◌, ◌∷◌,
}
use gldap.Outcome.{Outcome, ensure, invalid_parameter, ok, ◌>>=◌, ◌>>◌}
use gldap.Options.{GoOption}
use gldap.Options.Apply.{
  get_route_opts, with_base_dn, with_diagnostic_message, with_filter, with_label,
  with_response_code, with_scope,
}
use gldap.Ber.{Ber}
use gldap.Codes.{result_unwilling_to_perform}
use gldap.Message.{simple_auth_choice}
use gldap.Response.{Response, general_response}
use gldap.Response.Writer.{ResponseWriter, write}
use gldap.Request.{
  Request, add_route_operation, bind_route_operation, delete_route_operation,
  extended_route_operation, modify_route_operation, new_response, search_route_operation,
}
use gldap.Route.{
  BaseRoute, HandlerFunc, Route, Session, add_route, base_route, delete_route, extended_route,
  handler, matches, modify_route, search_route, simple_bind_route,
}

pub record Mux {ℓ} (S : Type ℓ) : Type ℓ where
  pub routes : List (Route S)
  pub default_route : Option (Route S)
  pub unbind_route : Option (Route S)

-- The reply to a request that has no route.
abbrev pub no_handler : Request → Response
no_handler req = general_response (
    new_response req (
      with_response_code result_unwilling_to_perform
      ∷ with_diagnostic_message (codes "No matching handler found")
      ∷ []))

module _ {ℓ} {S : Type ℓ} where
  -- `NewMux`, which has no options.
  abbrev pub new_mux : List GoOption → Outcome (Mux S)
  new_mux opt = ok (record { routes = []; default_route = none; unbind_route = none })

  abbrev pub labelled : Option (HandlerFunc S) → Text → List GoOption → BaseRoute S
  labelled h route_op opt = record {
    h = h;
    route_op = route_op;
    label = (get_route_opts opt).with_label;
  }

  abbrev is_missing : Option (HandlerFunc S) → Bool
  is_missing none = true
  is_missing (some h) = false

  abbrev pub append_route : Route S → Mux S → Mux S
  append_route r m = record m { routes = m.routes ++ r ∷ [] }

  -- The registering methods; a nil handler is `none`.
  unfoldable pub bind : Option (HandlerFunc S) → List GoOption → Mux S → Outcome (Mux S)
  bind h opt m = do
    ensure (not (is_missing h)) invalid_parameter
    ok (append_route (simple_bind_route (labelled h bind_route_operation opt) simple_auth_choice) m)

  unfoldable pub unbind : Option (HandlerFunc S) → List GoOption → Mux S → Outcome (Mux S)
  unbind h opt m = do
    ensure (not (is_missing h)) invalid_parameter
    ok (record m { unbind_route = some (Route.unbind_route (labelled h bind_route_operation opt)) })

  unfoldable pub search : Option (HandlerFunc S) → List GoOption → Mux S → Outcome (Mux S)
  search h opt m = do
    ensure (not (is_missing h)) invalid_parameter
    let opts = get_route_opts opt
    ok (
        append_route
          (search_route (labelled h search_route_operation opt) opts.with_base_dn opts.with_filter
            opts.with_scope)
          m)

  unfoldable pub extended_operation :
      Option (HandlerFunc S) → Text → List GoOption → Mux S → Outcome (Mux S)
  extended_operation h ex_name opt m = do
    ensure (not (is_missing h)) invalid_parameter
    ok (append_route (extended_route (labelled h extended_route_operation opt) ex_name) m)

  unfoldable pub modify : Option (HandlerFunc S) → List GoOption → Mux S → Outcome (Mux S)
  modify h opt m = do
    ensure (not (is_missing h)) invalid_parameter
    ok (append_route (modify_route (labelled h modify_route_operation opt)) m)

  unfoldable pub add : Option (HandlerFunc S) → List GoOption → Mux S → Outcome (Mux S)
  add h opt m = do
    ensure (not (is_missing h)) invalid_parameter
    ok (append_route (add_route (labelled h add_route_operation opt)) m)

  unfoldable pub delete : Option (HandlerFunc S) → List GoOption → Mux S → Outcome (Mux S)
  delete h opt m = do
    ensure (not (is_missing h)) invalid_parameter
    ok (append_route (delete_route (labelled h delete_route_operation opt)) m)

  unfoldable pub set_default_route :
      Option (HandlerFunc S) → List GoOption → Mux S → Outcome (Mux S)
  set_default_route h opt m = do
    ensure (not (is_missing h)) invalid_parameter
    ok (record m {
      default_route =
          some (base_route (record { h = h; route_op = bind_route_operation; label = [] }));
    })

  -- `w.Write(resp)` on the session, whose error `serve` drops.
  unfoldable pub write_response : Ber → Response → Session S → Session S
  write_response b r s = record s { sent = (write b s.write_ok s.flush_ok (some r) s.sent).1 }

  -- `h(w, req)`, which panics on a nil function.
  abbrev pub call :
      Option (HandlerFunc S) → ResponseWriter → Request → Session S → Option (Session S)
  call none w req s = none
  call (some h) w req s = h w req s

  -- What `serve` does behind its loop.
  abbrev pub serve_default :
      Ber → Option (Route S) → ResponseWriter → Request → Session S → Option (Session S)
  serve_default b (some r) w req s = call (handler r) w req s
  serve_default b none w req s = some (write_response b (no_handler req) s)

  -- A matching route: without a handler the request is only logged.
  abbrev pub serve_route :
      Option (HandlerFunc S) → ResponseWriter → Request → Session S → Option (Session S)
  serve_route none w req s = some s
  serve_route (some h) w req s = h w req s

  module _ (b : Ber) (fold : Text → Text → Bool) where
    -- The loop of `serve`, over the routes that are left.
    unfoldable pub serve_loop :
        List (Route S)
        → Option (Route S)
        → ResponseWriter
        → Request
        → Session S
        → Option (Session S)
    serve_loop [] default w req s = serve_default b default w req s
    serve_loop (r ∷ rs) default w req s =
        if not (matches fold r (some req))
        then serve_loop rs default w req s
        else serve_route (handler r) w req s

    -- `serve`; a nil writer panics, in the deferred logging if nowhere else.
    unfoldable pub serve :
        Option ResponseWriter → Option Request → Mux S → Session S → Option (Session S)
    serve none req m s = none
    serve (some w) none m s = some s
    serve (some w) (some req) m s = serve_loop m.routes m.default_route w req s
