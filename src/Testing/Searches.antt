-- ===== src/Testing/Searches.antt =====
-- Search requests, through `newMessage`.
use gldap.Base.{All, Bool, List, Text, [], inl, refl, some, ℕ, ℤ, ◌∙◌, ◌∷◌, ◌≡◌}
use gldap.Outcome.{ok, ◌>>=◌}
use gldap.Ber.{
  Ber, IsBer, Packet, boolean, class_application, class_universal, int64, nil, nil_value, node, tag,
  tag_boolean, tag_enumerated, tag_integer, tag_sequence, type_constructed, type_primitive,
}
use gldap.Ber.Strings.{append_strings, append_strings_node, snoc_strings, string_node, strings_data}
use gldap.Codes.{application_search_request}
use gldap.Packet.{LdapPacket, assert, search_request_type}
use gldap.Attribute.RoundTrip.{octet_strings_built}
use gldap.Control.RoundTrip.{IsReadable}
use gldap.Decode.{Ldap, search_parameters, search_tail}
use gldap.Message.{SearchMessage, message_of_type, new_message, search}
use gldap.Testing.{empty_sequence, enveloped, search_request, test_search_request_packet}
use gldap.Testing.Envelope.{IsEnvelope, IsRequest, append_all-eq-built, built, enveloped-IsEnvelope}
use gldap.Testing.RoundTrip.{new_message_of_type}

module _ (b : Ber) (ldap : Ldap) (l : IsBer b) where
  abbrev integer_node : ℕ → ℤ → Packet
  integer_node tag n =
      node class_universal type_primitive tag (int64 n) (b.integer_data (int64 n)) nil

  abbrev boolean_node : Bool → Packet
  boolean_node x =
      node class_universal type_primitive tag_boolean (boolean x) (b.boolean_data x) nil

  abbrev attributes_node : List Text → Packet
  attributes_node attributes =
      node class_universal type_constructed tag_sequence nil_value (strings_data b [] attributes)
        (snoc_strings nil attributes)

  abbrev search_children : SearchMessage → Packet → List Packet
  search_children s filter =
      string_node s.base_dn
      ∷ integer_node tag_enumerated s.scope
      ∷ integer_node tag_enumerated s.deref_aliases
      ∷ integer_node tag_integer s.size_limit
      ∷ integer_node tag_integer s.time_limit
      ∷ boolean_node s.types_only
      ∷ filter
      ∷ attributes_node s.attributes
      ∷ []

  attributes_node_eq :
      (attributes : List Text)
      → append_strings b (empty_sequence b) attributes ≡ attributes_node attributes
  attributes_node_eq attributes = rw (l.encode_nil) (
      append_strings_node b l class_universal type_constructed tag_sequence nil_value [] nil
        attributes)

  search_request_eq :
      (s : SearchMessage) (filter : Packet)
      → search_request b s filter
        ≡ built b l class_application application_search_request (search_children s filter)
  unfolding search_request
  search_request_eq s filter =
      simp (l.new_string_node, l.new_integer_node, l.new_boolean_node, attributes_node_eq)
        (append_all-eq-built b l class_application application_search_request
          (search_children s filter))

  search_request-IsRequest :
      (s : SearchMessage) (filter : Packet) → IsRequest b l (search_request b s filter)
  search_request-IsRequest s filter =
      rw (search_request_eq s filter)
        (record { of_application = refl; of_shape = inl refl; of_version = refl })

  search_parameters_lem :
      (p : LdapPacket) (s : SearchMessage) (filter : Packet)
      → IsEnvelope b l p s.id (search_request b s filter) s.controls
      → ldap.decompile_filter filter ≡ some s.filter
      → search_parameters b ldap p
        ≡ ok (record {
          base_dn = s.base_dn;
          scope = s.scope;
          deref_aliases = s.deref_aliases;
          size_limit = s.size_limit;
          time_limit = s.time_limit;
          types_only = s.types_only;
          filter = s.filter;
          attributes = s.attributes;
          controls = s.controls;
        })
  unfolding search_parameters search_tail assert
  search_parameters_lem p s filter e f = rw (
    e.has_request,
    search_request_eq s filter,
    f,
    octet_strings_built class_universal type_constructed tag_sequence nil_value
        (strings_data b [] s.attributes) s.attributes,
    e.has_controls,
  )

  -- `newMessage` reads a search request back, every field and control of it, if the filter compiles
  -- to a packet that decompiles to the same text.
  pub new_message-search :
      (s : SearchMessage) (filter : Packet)
      → ldap.compile_filter s.filter ≡ some filter
      → ldap.decompile_filter filter ≡ some s.filter
      → All IsReadable s.controls
      → (test_search_request_packet b ldap s >>= new_message b ldap) ≡ ok (search s)
  unfolding test_search_request_packet message_of_type
  new_message-search s filter c f h =
      let p = enveloped b s.id (search_request b s filter) s.controls in
      let e =
        enveloped-IsEnvelope b l s.id (search_request b s filter) s.controls
          (search_request-IsRequest s filter) h in
      rw c (
        new_message_of_type b ldap l p s.id (search_request b s filter) s.controls
          search_request_type e (rw (search_request_eq s filter))
        ∙ rw (search_parameters_lem p s filter e f))
