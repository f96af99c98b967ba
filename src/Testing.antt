-- ===== src/Testing.antt =====
-- testing.go: the request packets that clients send, as the repository's tests build them.
pub mod Envelope
pub mod RoundTrip
pub mod Received
pub mod Changes
pub mod Searches
pub mod Builders
use gldap.Base.{List, Text, [], false, map, pos, ℕ, ℤ, ◌++◌, ◌∷◌}
use gldap.Outcome.{Outcome, from_library, ok, ◌>>=◌, ◌>>◌}
use gldap.Ber.{
  Ber, Packet, class_application, class_context, class_universal, int64, nil_value, node, tag,
  tag_boolean, tag_enumerated, tag_integer, tag_octet_string, tag_sequence, type_constructed,
  type_primitive,
}
use gldap.Ber.Strings.{append_strings}
use gldap.Codes.{
  application_add_request, application_bind_request, application_del_request,
  application_extended_request, application_modify_request, application_search_request,
  application_unbind_request,
}
use gldap.Packet.{LdapPacket}
use gldap.Attribute.{encode_attribute, encode_change}
use gldap.Control.{Control}
use gldap.Control.Encoding.{encode_controls}
use gldap.Decode.{Ldap}
use gldap.Message.{
  AddMessage, DeleteMessage, ModifyMessage, SearchMessage, SimpleBindMessage,
  extended_operation_start_tls,
}

module _ (b : Ber) where
  -- `testRequestEnvelope`
  abbrev pub test_request_envelope : ℤ → Packet
  test_request_envelope id =
      b.append_child (b.encode class_universal type_constructed tag_sequence nil_value)
        (b.new_integer class_universal type_primitive tag_integer (int64 id))

  -- `if len(m.Controls) > 0`
  abbrev pub append_optional_controls : List Control → Packet → Packet
  append_optional_controls [] p = p
  append_optional_controls (c ∷ cs) p = b.append_child p (encode_controls b (c ∷ cs))

  -- A request in its envelope, with the controls behind it.
  unfoldable pub enveloped : ℤ → Packet → List Control → LdapPacket
  enveloped id request controls = record {
    ber = append_optional_controls controls (b.append_child (test_request_envelope id) request);
    validated = false;
  }

  abbrev pub begin_request : ℕ → Packet
  begin_request tag = b.encode class_application type_constructed tag nil_value

  abbrev pub octet_string : Text → Packet
  octet_string s = b.new_string class_universal type_primitive tag_octet_string s

  abbrev pub integer : ℕ → ℤ → Packet
  integer tag n = b.new_integer class_universal type_primitive tag (int64 n)

  abbrev pub empty_sequence : Packet
  empty_sequence = b.encode class_universal type_constructed tag_sequence nil_value

  abbrev pub append_all : Packet → List Packet → Packet
  append_all p [] = p
  append_all p (q ∷ qs) = append_all (b.append_child p q) qs

  -- `testSimpleBindRequestPacket`
  unfoldable pub bind_request : SimpleBindMessage → Packet
  bind_request m = append_all (begin_request application_bind_request) (
      integer tag_integer (pos 3)
      ∷ octet_string m.user_name
      ∷ b.new_string class_context type_primitive 0 m.password
      ∷ [])

  unfoldable pub test_simple_bind_request_packet : SimpleBindMessage → LdapPacket
  test_simple_bind_request_packet m = enveloped m.id (bind_request m) m.controls

  -- `testUnbindRequestPacket`
  unfoldable pub test_unbind_request_packet : ℤ → LdapPacket
  test_unbind_request_packet id = enveloped id (begin_request application_unbind_request) []

  -- `testStartTLSRequestPacket`
  unfoldable pub start_tls_request : Packet
  start_tls_request =
      b.append_child (begin_request application_extended_request)
        (b.new_string class_context type_primitive 0 extended_operation_start_tls)

  unfoldable pub test_start_tls_request_packet : ℤ → LdapPacket
  test_start_tls_request_packet id = enveloped id start_tls_request []

  -- `testSearchRequestPacket`, with the packet of the compiled filter.
  unfoldable pub search_request : SearchMessage → Packet → Packet
  search_request s filter = append_all (begin_request application_search_request) (
      octet_string s.base_dn
      ∷ integer tag_enumerated s.scope
      ∷ integer tag_enumerated s.deref_aliases
      ∷ integer tag_integer s.size_limit
      ∷ integer tag_integer s.time_limit
      ∷ b.new_boolean class_universal type_primitive tag_boolean s.types_only
      ∷ filter
      ∷ append_strings b empty_sequence s.attributes
      ∷ [])

  unfoldable pub test_search_request_packet : Ldap → SearchMessage → Outcome LdapPacket
  test_search_request_packet ldap s = do
    filter ← from_library (ldap.compile_filter s.filter)
    ok (enveloped s.id (search_request s filter) s.controls)

  -- `testModifyRequestPacket`
  unfoldable pub modify_request : ModifyMessage → Packet
  modify_request m =
      append_all (begin_request application_modify_request)
        (octet_string m.dn ∷ append_all empty_sequence (map (encode_change b) m.changes) ∷ [])

  unfoldable pub test_modify_request_packet : ModifyMessage → LdapPacket
  test_modify_request_packet m = enveloped m.id (modify_request m) m.controls

  -- `testDeleteRequestPacket`: the DN is written to the request's `Data`.
  abbrev pub write_data : Text → Packet → Packet
  write_data s (node c t g v d ps) = node c t g v (d ++ s) ps

  unfoldable pub delete_request : DeleteMessage → Packet
  delete_request m = write_data m.dn (begin_request application_del_request)

  unfoldable pub test_delete_request_packet : DeleteMessage → LdapPacket
  test_delete_request_packet m = enveloped m.id (delete_request m) m.controls

  -- `testAddRequestPacket`
  unfoldable pub add_request : AddMessage → Packet
  add_request m =
      append_all (begin_request application_add_request)
        (octet_string m.dn ∷ append_all empty_sequence (map (encode_attribute b) m.attributes) ∷ [])

  unfoldable pub test_add_request_packet : AddMessage → LdapPacket
  test_add_request_packet m = enveloped m.id (add_request m) m.controls
