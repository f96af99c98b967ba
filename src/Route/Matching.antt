-- ===== src/Route/Matching.antt =====
-- What the `match` methods ask of a request, as a specification.
use gldap.Base.{
  Bool, Option, Text, [], arith, int_eq_iff, map, pos, some, text_eq_iff, true, ℤ, ◌↔◌, ◌∷◌, ◌≡◌,
  ◌≢◌, ◌⊎◌,
}
use gldap.Outcome.{ok}
use gldap.Ber.{Ber}
use gldap.Decode.{Ldap}
use gldap.Packet.{LdapPacket}
use gldap.Message.{Message, add, delete, extended_operation, modify, search, simple_bind}
use gldap.Request.{
  Request, add_route_operation, bind_route_operation, delete_route_operation, extended_name_of,
  extended_route_operation, modify_route_operation, new_request, operation_of,
  search_route_operation,
}
use gldap.Route.{
  Route, accepts_scope, accepts_text, add_route, base_route, delete_route, extended_route,
  match_message, matches, modify_route, op, search_route, simple_bind_route, unbind_route,
}
use gldap.Route.Fold.{IsAscii, equal_fold, equal_fold_iff, lower}

-- The request's operation and extended name are those of its message, as `newRequest` sets them.
pub record IsConsistent (req : Request) : Type 0 where
  pub has_operation : req.route_op ≡ operation_of req.message
  pub has_name : req.extended_name ≡ extended_name_of req.message

-- The request of a message as `newRequest` makes it.
abbrev pub request_of : ℤ → ℤ → Message → Request
request_of id conn_id m = record {
  id = id;
  conn_id = conn_id;
  message = m;
  route_op = operation_of m;
  extended_name = extended_name_of m;
}

pub request_of-IsConsistent :
    (req : Request) → IsConsistent req → request_of req.id req.conn_id req.message ≡ req
request_of-IsConsistent req c = rw (c.has_operation, c.has_name)

-- A text that a route asks for: any, if the route names none.
abbrev pub AsksText : (Text → Text → Bool) → Text → Text → Type 0
AsksText fold [] found = Unit
AsksText fold (c ∷ s) found = equal_fold fold found (c ∷ s) ≡ true

abbrev pub AsksScope : ℤ → ℤ → Type 0
AsksScope scope found = (scope ≡ pos 0) ⊎ (found ≡ scope)

-- The requests that a route is for.
abbrev pub Asks {ℓ} : {S : Type ℓ} → (Text → Text → Bool) → Route S → Message → Type 0
Asks fold (simple_bind_route r auth_choice) (simple_bind m) =
    (auth_choice ≢ []) × (auth_choice ≡ m.auth_choice)
Asks fold (search_route r basedn filter scope) (search m) =
    AsksText fold basedn m.base_dn × AsksText fold filter m.filter × AsksScope scope m.scope
Asks fold (extended_route r extended_name) (extended_operation m) = extended_name ≡ m.name
Asks fold (modify_route r) (modify m) = Unit
Asks fold (add_route r) (add m) = Unit
Asks fold (delete_route r) (delete m) = Unit
Asks fold r m = ⊥

module _ (b : Ber) (ldap : Ldap) where
  -- Requests are made by `newRequest`.
  pub new_request-IsConsistent :
      (id : ℤ) (c : Option ℤ) (p : Option LdapPacket) (req : Request)
      → new_request b ldap id c p ≡ ok req
      → IsConsistent req × (req.id ≡ id) × (c ≡ some req.conn_id)
  unfolding new_request
  new_request-IsConsistent id c p req h = ground arith

-- The operation that a route of its kind serves. The default route and the route for unbind requests
-- match no request, whatever their operation.
abbrev pub HasOperation {ℓ} : {S : Type ℓ} → Route S → Type 0
HasOperation (base_route r) = Unit
HasOperation (search_route r basedn filter scope) = r.route_op ≡ search_route_operation
HasOperation (simple_bind_route r auth_choice) = r.route_op ≡ bind_route_operation
HasOperation (Route.unbind_route r) = Unit
HasOperation (extended_route r extended_name) = r.route_op ≡ extended_route_operation
HasOperation (modify_route r) = r.route_op ≡ modify_route_operation
HasOperation (add_route r) = r.route_op ≡ add_route_operation
HasOperation (delete_route r) = r.route_op ≡ delete_route_operation

module _ (fold : Text → Text → Bool) where
  accepts_text_iff :
      (asked found : Text) → (accepts_text fold asked found ≡ true) ↔ AsksText fold asked found
  accepts_text_iff [] found = ground arith
  accepts_text_iff (c ∷ s) found = ground arith

-- On ASCII texts, what a search route asks for is compared without regard to case, whatever the
-- folding of other texts is; an empty text asks for nothing.
accepts_text-ascii :
    (fold : Text → Text → Bool) (asked found : Text)
    → IsAscii asked
    → IsAscii found
    → (accepts_text fold asked found ≡ true) ↔ ((asked ≡ []) ⊎ (map lower found ≡ map lower asked))
accepts_text-ascii fold [] found ha hf = ground arith
accepts_text-ascii fold (c ∷ s) found ha hf =
    ground (arith, equal_fold_iff fold found (c ∷ s) hf ha)

accepts_scope_iff : (scope found : ℤ) → (accepts_scope scope found ≡ true) ↔ AsksScope scope found
accepts_scope_iff scope found = ground (arith, int_eq_iff scope (pos 0), int_eq_iff found scope)

module _ {ℓ} {S : Type ℓ} (fold : Text → Text → Bool) where
  Asks-operation_of :
      (r : Route S) (m : Message) → HasOperation r → Asks fold r m → op r ≡ operation_of m
  unfolding operation_of
  Asks-operation_of r m k h = ground arith

  match_message_iff :
      (r : Route S) (req : Request)
      → req.extended_name ≡ extended_name_of req.message
      → (match_message fold r req ≡ true) ↔ Asks fold r req.message
  unfolding match_message extended_name_of
  match_message_iff (base_route r) req h = ground arith
  match_message_iff (unbind_route r) req h = ground arith
  match_message_iff (delete_route r) req h = ground arith
  match_message_iff (add_route r) req h = ground arith
  match_message_iff (modify_route r) req h = ground arith
  match_message_iff (simple_bind_route r []) req h = ground arith
  match_message_iff (simple_bind_route r (c ∷ s)) req h = grind (arith, text_eq_iff)
  match_message_iff (extended_route r extended_name) req h = grind (arith, text_eq_iff)
  match_message_iff (search_route r basedn filter scope) req h = ground arith

  -- A route of its kind matches a request that `newRequest` made exactly if the message is of the
  -- route's type and is what the route asks for: the authentication choice, the extended name, or
  -- the base DN, filter and scope that the route names.
  pub matches_iff :
      (r : Route S) (req : Request)
      → HasOperation r
      → IsConsistent req
      → (matches fold r (some req) ≡ true) ↔ Asks fold r req.message
  unfolding matches
  matches_iff r req k c =
      let same = match_message_iff r req c.has_name in
      let kind = Asks-operation_of r req.message k in
      let operation = text_eq_iff (op r) req.route_op in
      let has = c.has_operation in ground (arith, same, operation, kind, has)
