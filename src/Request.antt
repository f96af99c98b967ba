-- ===== src/Request.antt =====
-- request.go: a request, made of a packet, and the responses that answer it. A request's `conn` is
-- known here by its connection ID.
pub mod Answers
use gldap.Base.{List, Option, Text, [], codes, map, none, pos, some, to_int16, ℕ, ℤ, ◌++◌, ◌∷◌}
use gldap.Outcome.{Outcome, err, invalid_parameter, ok, or_panic, ◌>>=◌, ◌>>◌}
use gldap.Options.{GoOption}
use gldap.Options.Apply.{
  get_response_opts, with_application_code, with_attributes, with_diagnostic_message,
  with_matched_dn, with_response_code,
}
use gldap.Ber.{Ber}
use gldap.Codes.{
  application_extended_response, application_modify_response, result_unwilling_to_perform,
}
use gldap.Packet.{LdapPacket}
use gldap.Attribute.{new_entry_attribute}
use gldap.Decode.{Ldap}
use gldap.Message.{
  AddMessage, DeleteMessage, Message, ModifyMessage, SearchMessage, SimpleBindMessage, add, delete,
  extended_operation, get_id, modify, new_message, search, simple_bind, unbind,
}
use gldap.Response.{
  BaseResponse, GeneralResponse, Response, bind_response, extended_response, modify_response,
  search_response_done, search_response_entry,
}

-- `routeOperation` of route.go
abbrev pub bind_route_operation : Text
bind_route_operation = codes "bind"

abbrev pub search_route_operation : Text
search_route_operation = codes "search"

abbrev pub extended_route_operation : Text
extended_route_operation = codes "extendedOperation"

abbrev pub modify_route_operation : Text
modify_route_operation = codes "modify"

abbrev pub add_route_operation : Text
add_route_operation = codes "add"

abbrev pub delete_route_operation : Text
delete_route_operation = codes "delete"

abbrev pub unbind_route_operation : Text
unbind_route_operation = codes "unbind"

pub record Request : Type 0 where
  pub id : ℤ
  pub conn_id : ℤ
  pub message : Message
  pub route_op : Text
  pub extended_name : Text

-- `ConnectionID`
abbrev pub connection_id : Request → ℤ
connection_id r = r.conn_id

-- The type switch of `newRequest`.
unfoldable pub operation_of : Message → Text
operation_of (simple_bind m) = bind_route_operation
operation_of (search m) = search_route_operation
operation_of (extended_operation m) = extended_route_operation
operation_of (modify m) = modify_route_operation
operation_of (add m) = add_route_operation
operation_of (delete m) = delete_route_operation
operation_of (unbind id) = unbind_route_operation

unfoldable pub extended_name_of : Message → Text
extended_name_of (extended_operation m) = m.name
extended_name_of m = []

-- `newRequest`; `none` is a nil connection or packet.
unfoldable pub new_request : Ber → Ldap → ℤ → Option ℤ → Option LdapPacket → Outcome Request
new_request b ldap id none p = err invalid_parameter
new_request b ldap id (some conn_id) none = err invalid_parameter
new_request b ldap id (some conn_id) (some p) = do
  m ← new_message b ldap p
  ok (record {
    id = id;
    conn_id = conn_id;
    message = m;
    route_op = operation_of m;
    extended_name = extended_name_of m;
  })

abbrev or_code : Option ℤ → ℤ → ℤ
or_code none d = d
or_code (some c) d = c

-- `NewResponse`
unfoldable pub new_response : Request → List GoOption → GeneralResponse
new_response r opt =
    let opts = get_response_opts opt in
    record {
      base = record {
        message_id = get_id r.message;
        code = to_int16 (or_code opts.with_response_code result_unwilling_to_perform);
        diag_message = opts.with_diagnostic_message;
        matched_dn = opts.with_matched_dn;
      };
      application_code = or_code opts.with_application_code (pos application_extended_response);
    }

-- `NewModifyResponse`, which dereferences the response code.
unfoldable pub new_modify_response : Request → List GoOption → Outcome Response
new_modify_response r opt = do
  let opts = get_response_opts opt
  code ← or_panic opts.with_response_code
  ok (
      modify_response (
        new_response r (
          with_application_code (pos application_modify_response)
          ∷ with_response_code code
          ∷ with_diagnostic_message opts.with_diagnostic_message
          ∷ with_matched_dn opts.with_matched_dn
          ∷ [])))

-- A base response with the message ID, and the code if one is given.
abbrev answer : Request → List GoOption → BaseResponse
answer r opt = record {
  message_id = get_id r.message;
  code = to_int16 (or_code (get_response_opts opt).with_response_code (pos 0));
  diag_message = [];
  matched_dn = [];
}

-- `NewExtendedResponse`
unfoldable pub new_extended_response : Request → List GoOption → Response
new_extended_response r opt = extended_response (answer r opt) []

-- `NewBindResponse`
unfoldable pub new_bind_response : Request → List GoOption → Response
new_bind_response r opt = bind_response (answer r opt) []

-- `NewSearchDoneResponse`
unfoldable pub new_search_done_response : Request → List GoOption → Response
new_search_done_response r opt = search_response_done (answer r opt) []

-- `NewSearchResponseEntry`
unfoldable pub new_search_response_entry : Request → Text → List GoOption → Response
new_search_response_entry r entry_dn opt =
    search_response_entry
      (record { message_id = get_id r.message; code = pos 0; diag_message = []; matched_dn = [] })
      (record {
        dn = entry_dn;
        attributes = map (λ e. new_entry_attribute e.0 e.1) (get_response_opts opt).with_attributes;
      })

-- The `Get...Message` methods.
unfoldable pub get_simple_bind_message : Request → Outcome SimpleBindMessage
get_simple_bind_message r = elim r.message [ simple_bind m ↦ ok m | _ ↦ err invalid_parameter ]

unfoldable pub get_search_message : Request → Outcome SearchMessage
get_search_message r = elim r.message [ search m ↦ ok m | _ ↦ err invalid_parameter ]

unfoldable pub get_modify_message : Request → Outcome ModifyMessage
get_modify_message r = elim r.message [ modify m ↦ ok m | _ ↦ err invalid_parameter ]

unfoldable pub get_add_message : Request → Outcome AddMessage
get_add_message r = elim r.message [ add m ↦ ok m | _ ↦ err invalid_parameter ]

unfoldable pub get_delete_message : Request → Outcome DeleteMessage
get_delete_message r = elim r.message [ delete m ↦ ok m | _ ↦ err invalid_parameter ]

unfoldable pub get_unbind_message : Request → Outcome ℤ
get_unbind_message r = elim r.message [ unbind id ↦ ok id | _ ↦ err invalid_parameter ]

-- The error of `StartTLS`, if it returns one; `handshake` is that of the TLS handshake. The new writer
-- is the connection's.
unfoldable pub start_tls : (tls_config : Option ℕ) (handshake : Option Text) → Option Text
start_tls none handshake =
    some (codes "gldap.(Message).StartTLS: missing tls configuration: invalid parameter")
start_tls (some c) none = none
start_tls (some c) (some e) = some (codes "gldap.(Message).StartTLS: handshake error: " ++ e)
