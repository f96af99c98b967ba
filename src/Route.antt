-- ===== src/Route.antt =====
-- route.go: the routes of a multiplexer and which requests they match. A handler is a function of the
-- writer and the request that it is given; it returns nothing, so what it does is a change of the
-- session, or a panic, which is `none`.
pub mod Fold
pub mod Matching
use gldap.Base.{
  Bool, List, Option, Text, [], false, int_eq, is_empty, none, not, pos, some, text_eq, true, ℤ,
  ◌&&◌, ◌||◌, ◌∷◌,
}
use gldap.Options.{message}
use gldap.Message.{add, delete, extended_operation, modify, search, simple_bind}
use gldap.Request.{Request}
use gldap.Response.Writer.{ResponseWriter}
use gldap.Route.Fold.{equal_fold}

-- What a handler works on: the program's own state, the texts that have been written to the
-- connection, and whether the next write and flush succeed.
pub record Session {ℓ} (S : Type ℓ) : Type ℓ where
  pub state : S
  pub sent : List Text
  pub write_ok : Bool
  pub flush_ok : Bool

-- `HandlerFunc`
abbrev pub HandlerFunc {ℓ} : Type ℓ → Type ℓ
HandlerFunc S = ResponseWriter → Request → Session S → Option (Session S)

-- `baseRoute`; a nil handler is `none`.
pub record BaseRoute {ℓ} (S : Type ℓ) : Type ℓ where
  pub h : Option (HandlerFunc S)
  pub route_op : Text
  pub label : Text

-- The interface `route`, by the type behind it.
pub data Route {ℓ} (S : Type ℓ) : Type ℓ where
  base_route : BaseRoute S → Route S
  search_route : BaseRoute S → (basedn filter : Text) → (scope : ℤ) → Route S
  simple_bind_route : BaseRoute S → (auth_choice : Text) → Route S
  unbind_route : BaseRoute S → Route S
  extended_route : BaseRoute S → (extended_name : Text) → Route S
  modify_route : BaseRoute S → Route S
  add_route : BaseRoute S → Route S
  delete_route : BaseRoute S → Route S

-- `r.basedn != "" && !strings.EqualFold(searchMsg.BaseDN, r.basedn)`, negated.
abbrev pub accepts_text : (Text → Text → Bool) → Text → Text → Bool
accepts_text fold [] found = true
accepts_text fold (c ∷ s) found = equal_fold fold found (c ∷ s)

-- `r.scope != 0 && searchMsg.Scope != r.scope`, negated.
abbrev pub accepts_scope : ℤ → ℤ → Bool
accepts_scope scope found = int_eq scope (pos 0) || int_eq found scope

module _ {ℓ} {S : Type ℓ} where
  abbrev pub base_route_of : Route S → BaseRoute S
  base_route_of (base_route r) = r
  base_route_of (search_route r basedn filter scope) = r
  base_route_of (simple_bind_route r auth_choice) = r
  base_route_of (unbind_route r) = r
  base_route_of (extended_route r extended_name) = r
  base_route_of (modify_route r) = r
  base_route_of (add_route r) = r
  base_route_of (delete_route r) = r

  -- `handler`
  abbrev pub handler : Route S → Option (HandlerFunc S)
  handler r = (base_route_of r).h

  -- `op`
  abbrev pub op : Route S → Text
  op r = (base_route_of r).route_op

  -- The `match` methods behind their test of the operation, by the message's type.
  unfoldable pub match_message : (Text → Text → Bool) → Route S → Request → Bool
  match_message fold (base_route r) req = false
  match_message fold (unbind_route r) req = false
  match_message fold (delete_route r) req = elim req.message [ delete m ↦ true | _ ↦ false ]
  match_message fold (add_route r) req = elim req.message [ add m ↦ true | _ ↦ false ]
  match_message fold (modify_route r) req = elim req.message [ modify m ↦ true | _ ↦ false ]
  match_message fold (simple_bind_route r auth_choice) req = elim req.message [
    | simple_bind m ↦ not (is_empty auth_choice) && text_eq auth_choice m.auth_choice
    | _ ↦ false
  ]
  match_message fold (extended_route r extended_name) req =
      text_eq extended_name req.extended_name
      && elim req.message [ extended_operation m ↦ true | _ ↦ false ]
  match_message fold (search_route r basedn filter scope) req = elim req.message [
    | search m ↦
        accepts_text fold basedn m.base_dn
        && accepts_text fold filter m.filter
        && accepts_scope scope m.scope
    | _ ↦ false
  ]

  -- `match`; `none` is a nil request. The two routes without a `match` of their own inherit that of
  -- `baseRoute`.
  unfoldable pub matches : (Text → Text → Bool) → Route S → Option Request → Bool
  matches fold r none = false
  matches fold r (some req) = text_eq (op r) req.route_op && match_message fold r req
