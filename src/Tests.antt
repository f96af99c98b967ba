-- ===== src/Tests.antt =====
-- Concrete data for the runs in the modules below: a filter library, requests, routes and handlers.
pub mod Codec
pub mod Serving
pub mod Turns
pub mod Running
pub mod Entries
pub mod Searches
pub mod Example
pub mod Connected
pub mod Accounts
use gldap.Base.{Bool, Text, [], codes, false, none, pos, some, suc, true, ℕ, ◌∷◌}
use gldap.Options.{message}
use gldap.Ber.{as_string, class_context, nil, node, string, type_primitive, value}
use gldap.Attribute.{Attribute, Change}
use gldap.Control.{control_manage_dsa_it, control_paging, control_string}
use gldap.Decode.{Ldap}
use gldap.Message.{
  AddMessage, DeleteMessage, Message, ModifyMessage, SearchMessage, SimpleBindMessage,
  simple_auth_choice,
}
use gldap.Response.Writer.{ResponseWriter}
use gldap.Request.{Request, search_route_operation}
use gldap.Route.{HandlerFunc, Route, Session, search_route, unbind_route}
use gldap.Mux.{Mux}

-- Filters kept as strings.
abbrev pub sample_ldap : Ldap
sample_ldap = record {
  decompile_filter = λ p. as_string (value p);
  compile_filter = λ s. some (node class_context type_primitive 7 (string s) s nil);
}

abbrev pub no_unicode : Text → Text → Bool
no_unicode s t = false

-- A handler that counts the requests it serves.
abbrev pub counting : HandlerFunc ℕ
counting w req s = some (record s { state = suc s.state })

abbrev pub sample_session : Session ℕ
sample_session = record { state = 0; sent = []; write_ok = true; flush_ok = true }

abbrev pub empty_mux : Mux ℕ
empty_mux = record { routes = []; default_route = none; unbind_route = none }

abbrev pub alice_dn : Text
alice_dn = codes "cn=alice"

abbrev pub sample_bind : SimpleBindMessage
sample_bind = record {
  id = pos 7;
  auth_choice = simple_auth_choice;
  user_name = alice_dn;
  password = codes "fido";
  controls = control_manage_dsa_it true ∷ control_paging 5 [] ∷ [];
}

abbrev pub sample_search : SearchMessage
sample_search = record {
  id = pos 8;
  base_dn = codes "ou=people";
  scope = pos 2;
  deref_aliases = pos 0;
  time_limit = pos 10;
  size_limit = pos 3;
  types_only = true;
  filter = codes "(uid=alice)";
  attributes = codes "mail" ∷ codes "cn" ∷ [];
  controls = control_string (codes "9.9") true (codes "v") ∷ [];
}

abbrev pub sample_attribute : Attribute
sample_attribute = record { type = codes "mail"; vals = codes "a" ∷ codes "b" ∷ [] }

abbrev pub sample_add : AddMessage
sample_add = record { id = pos 9; dn = alice_dn; attributes = sample_attribute ∷ []; controls = [] }

abbrev pub sample_change : Change
sample_change = record {
  operation = pos 2;
  modification = record { type = codes "mail"; vals = codes "a" ∷ codes "b" ∷ [] };
}

abbrev pub sample_modify : ModifyMessage
sample_modify = record { id = pos 10; dn = alice_dn; changes = sample_change ∷ []; controls = [] }

abbrev pub sample_delete : DeleteMessage
sample_delete = record { id = pos 11; dn = alice_dn; controls = [] }

abbrev pub sample_writer : ResponseWriter
sample_writer = record { conn_id = pos 1; request_id = pos 1 }

-- The request of `sample_search`.
abbrev pub search_request_1 : Request
search_request_1 = record {
  id = pos 1;
  conn_id = pos 1;
  message = Message.search sample_search;
  route_op = search_route_operation;
  extended_name = [];
}

abbrev pub people_route : Route ℕ
people_route =
    search_route (record { h = some counting; route_op = search_route_operation; label = [] })
      (codes "OU=people") [] (pos 2)

abbrev pub one_route : Mux ℕ
one_route = record { routes = people_route ∷ []; default_route = none; unbind_route = none }
