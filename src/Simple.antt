-- ===== src/Simple.antt =====
-- examples/simple/main.go: a server that answers searches to connections that have bound. Its state is
-- the map `authenticatedConnections`, as the list of its keys. Signals and logging are left out.
pub mod Access
pub mod Guarded
use gldap.Base.{
  Bool, List, Text, [], codes, false, if◌then◌else◌, int_eq, none, not, pos, refl, some, text_eq, ℤ,
  ◌||◌, ◌∷◌, ◌≡◌,
}
use gldap.Outcome.{Outcome, ok, ◌>>=◌, ◌>>◌}
use gldap.Options.Apply.{with_attributes, with_label, with_response_code}
use gldap.Ber.{Ber}
use gldap.Codes.{result_invalid_credentials, result_no_such_object, result_success}
use gldap.Codes.Results.{result_authorization_denied}
use gldap.Mux.{Mux, bind, new_mux, search, write_response}
use gldap.Message.{SearchMessage, simple_auth_choice}
use gldap.Response.{Response, add_entry_attribute, set_result_code}
use gldap.Request.{
  Request, bind_route_operation, connection_id, get_search_message, get_simple_bind_message,
  new_bind_response, new_search_done_response, new_search_response_entry, search_route_operation,
}
use gldap.Route.{HandlerFunc, Session, search_route, simple_bind_route, unbind_route}
use gldap.Directory.Search.{contains}

-- `authenticatedConnections[id]` with its second result
abbrev pub is_authenticated : ℤ → List ℤ → Bool
is_authenticated id [] = false
is_authenticated id (c ∷ cs) = int_eq c id || is_authenticated id cs

abbrev pub alice_name : Text
alice_name = codes "uid=alice"

abbrev pub alice_entry_dn : Text
alice_entry_dn = codes "uid=alice,ou=people,cn=example,dc=org"

abbrev pub people_dn : Text
people_dn = codes "ou=people,cn=example,dc=org"

-- The attributes of the two entries, in the order in which the source writes them.
unfoldable pub alice_attributes : List (Text × List Text)
alice_attributes =
    (
      codes "objectclass",
      codes "top" ∷ codes "person" ∷ codes "organizationalPerson" ∷ codes "inetOrgPerson" ∷ [],
    )
    ∷ (codes "uid", codes "alice" ∷ [])
    ∷ (codes "cn", codes "alice eve smith" ∷ [])
    ∷ (codes "givenname", codes "alice" ∷ [])
    ∷ (codes "sn", codes "smith" ∷ [])
    ∷ (codes "ou", codes "people" ∷ [])
    ∷ (codes "description", codes "friend of Rivest, Shamir and Adleman" ∷ [])
    ∷ (codes "password", codes "{SSHA}U3waGJVC7MgXYc0YQe7xv7sSePuTP8zN" ∷ [])
    ∷ []

unfoldable pub people_attributes : List (Text × List Text)
people_attributes =
    (codes "objectclass", codes "organizationalUnit" ∷ []) ∷ (codes "ou", codes "people" ∷ []) ∷ []

-- The response of a search, whose code is success once an entry has been sent.
abbrev pub Answering : Type 0
Answering = Response × Session (List ℤ)

-- `ranged` puts the attributes in the order in which `range` meets the keys of their map.
module _ (b : Ber) (ranged : List (Text × List Text) → List (Text × List Text)) where
  -- `bindHandler`
  unfoldable pub bind_handler : HandlerFunc (List ℤ)
  bind_handler w r s =
      let resp = new_bind_response r (with_response_code result_invalid_credentials ∷ []) in
      some (elim (get_simple_bind_message r) [
        | ok m ↦
            if text_eq m.user_name alice_name
            then write_response b (set_result_code result_success resp)
                (record s { state = connection_id r ∷ s.state })
            else write_response b resp s
        | _ ↦ write_response b resp s
      ])

  -- `w.Write(entry)`, whose error is dropped, and the success of the search.
  abbrev send_entry : Response → Answering → Answering
  send_entry entry a = (set_result_code result_success a.0, write_response b entry a.1)

  -- The first `if` behind the message.
  unfoldable pub answer_alice : SearchMessage → Request → Answering → Answering
  answer_alice m r a =
      if contains m.filter alice_name || text_eq m.base_dn alice_entry_dn
      then send_entry
          (add_entry_attribute (codes "email") (codes "alice@example.org" ∷ []) (
            new_search_response_entry r alice_entry_dn
              (with_attributes (ranged alice_attributes) ∷ [])))
          a
      else a

  -- The second.
  unfoldable pub answer_people : SearchMessage → Request → Answering → Answering
  answer_people m r a =
      if text_eq m.base_dn people_dn
      then send_entry
          (new_search_response_entry r people_dn (with_attributes (ranged people_attributes) ∷ []))
          a
      else a

  abbrev pub conclude_search : Answering → Session (List ℤ)
  conclude_search a = write_response b a.0 a.1

  -- `searchHandler` on its response
  unfoldable pub answer_search : Request → Response → Session (List ℤ) → Session (List ℤ)
  answer_search r resp s =
      if not (is_authenticated (connection_id r) s.state)
      then write_response b (set_result_code result_authorization_denied resp) s
      else elim (get_search_message r) [
        | ok m ↦ conclude_search (answer_people m r (answer_alice m r (resp, s)))
        | _ ↦ write_response b resp s
      ]

  -- `searchHandler`
  unfoldable pub search_handler : HandlerFunc (List ℤ)
  search_handler w r s = some (
      answer_search r (new_search_done_response r (with_response_code result_no_such_object ∷ []))
        s)

  -- The routes that `main` registers.
  unfoldable pub simple_mux : Outcome (Mux (List ℤ))
  simple_mux = do
    m ← new_mux []
    m ← bind (some bind_handler) [] m
    search (some search_handler) (with_label (codes "All Searches") ∷ []) m

  abbrev pub simple_routes : Mux (List ℤ)
  simple_routes = record {
    routes =
        simple_bind_route
          (record { h = some bind_handler; route_op = bind_route_operation; label = [] })
          simple_auth_choice
        ∷ search_route
            (record {
              h = some search_handler;
              route_op = search_route_operation;
              label = codes "All Searches";
            })
            [] [] (pos 0)
        ∷ [];
    default_route = none;
    unbind_route = none;
  }

  pub simple_mux-simple_routes : simple_mux ≡ ok simple_routes
  unfolding simple_mux bind search
  simple_mux-simple_routes = refl
