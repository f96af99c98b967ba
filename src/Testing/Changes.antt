-- ===== src/Testing/Changes.antt =====
-- Add and modify requests, through `newMessage`.
use gldap.Base.{
  All, List, Text, [], ap, arith, inl, map, refl, some, ℕ, ℤ, ◌++◌, ◌∙◌, ◌∷◌, ◌≡◌, ◌≢◌,
}
use gldap.Outcome.{map_outcome, map_outcome-map, ok}
use gldap.Ber.{
  Ber, IsBer, Packet, class_application, class_universal, cons, contents, int64, nil, nil_value,
  node, tag, tag_enumerated, tag_sequence, to_list, type_constructed, type_primitive,
}
use gldap.Ber.Strings.{string_node}
use gldap.Codes.{application_add_request, application_bind_request, application_modify_request}
use gldap.Packet.{LdapPacket, add_request_type, assert, modify_request_type}
use gldap.Attribute.{
  Attribute, Change, PartialAttribute, decode_attribute, encode_attribute, encode_change,
  encode_partial_attribute, encode_set,
}
use gldap.Attribute.RoundTrip.{decode-encode_attribute, encode_typed_node}
use gldap.Control.RoundTrip.{IsReadable}
use gldap.Decode.{Ldap, add_parameters, decode_change, modify_parameters}
use gldap.Message.{AddMessage, ModifyMessage, add, message_of_type, modify, new_message}
use gldap.Testing.{
  add_request, append_all, begin_request, empty_sequence, enveloped, modify_request, octet_string,
  test_add_request_packet, test_modify_request_packet,
}
use gldap.Testing.Envelope.{
  IsEnvelope, IsRequest, append_all-eq-built, built, enveloped-IsEnvelope, snoc_all,
  to_list-snoc_all,
}
use gldap.Testing.RoundTrip.{new_message_of_type}

module _ (b : Ber) (ldap : Ldap) (l : IsBer b) where
  -- The DN of a request and the sequence of its parts.
  abbrev list_children : Text → List Packet → List Packet
  list_children dn qs = string_node dn ∷ built b l class_universal tag_sequence qs ∷ []

  list_request_eq :
      (tag : ℕ) (dn : Text) (qs : List Packet)
      → append_all b
          (begin_request b tag)
          (octet_string b dn ∷ append_all b (empty_sequence b) qs ∷ [])
        ≡ built b l class_application tag (list_children dn qs)
  list_request_eq tag dn qs =
      rw (append_all-eq-built b l class_universal tag_sequence qs) (
        rw (l.new_string_node)
          (append_all-eq-built b l class_application tag (list_children dn qs)))

  module _ (tag : ℕ) (bound : tag ≢ application_bind_request) (dn : Text) (qs : List Packet) where
    dn_and_list-IsRequest : IsRequest b l (built b l class_application tag (list_children dn qs))
    dn_and_list-IsRequest = record {
      of_application = refl;
      of_shape = inl refl;
      of_version = ground arith;
    }

  -- Add.
  attributes_lem :
      (as' : List Attribute)
      → map_outcome
          (λ a. decode_attribute (some a))
          (to_list (snoc_all b l nil (map (encode_attribute b) as')))
        ≡ ok as'
  attributes_lem as' =
      ap (map_outcome (λ a. decode_attribute (some a)))
        (to_list-snoc_all b l nil (map (encode_attribute b) as'))
      ∙ map_outcome-map (λ a. decode_attribute (some a)) (encode_attribute b) as' (all as')
    where
      all :
          (as' : List Attribute)
          → All (λ a. decode_attribute (some (encode_attribute b a)) ≡ ok a) as'
      all [] = tt
      all (a ∷ as') = (decode-encode_attribute b l a, all as')

  add_request_eq :
      (m : AddMessage)
      → add_request b m
        ≡ built b l class_application application_add_request
            (list_children m.dn (map (encode_attribute b) m.attributes))
  unfolding add_request
  add_request_eq m =
      list_request_eq application_add_request m.dn (map (encode_attribute b) m.attributes)

  add_request-IsRequest : (m : AddMessage) → IsRequest b l (add_request b m)
  add_request-IsRequest m = rw (add_request_eq m) (
      dn_and_list-IsRequest application_add_request (omega arith) m.dn
        (map (encode_attribute b) m.attributes))

  add_parameters_lem :
      (p : LdapPacket) (m : AddMessage)
      → IsEnvelope b l p m.id (add_request b m) m.controls
      → add_parameters b p
        ≡ ok (record { dn = m.dn; attributes = m.attributes; controls = m.controls })
  unfolding add_parameters assert
  add_parameters_lem p m e =
      rw (e.has_request, add_request_eq m, attributes_lem m.attributes, e.has_controls)

  -- `newMessage` reads an add request back, with its attributes in order and its controls.
  pub new_message-add :
      (m : AddMessage)
      → All IsReadable m.controls
      → new_message b ldap (test_add_request_packet b m) ≡ ok (add m)
  unfolding test_add_request_packet message_of_type
  new_message-add m h =
      let p = enveloped b m.id (add_request b m) m.controls in
      let e =
        enveloped-IsEnvelope b l m.id (add_request b m) m.controls (add_request-IsRequest m) h in
      new_message_of_type b ldap l p m.id (add_request b m) m.controls add_request_type e
        (rw (add_request_eq m))
      ∙ rw (add_parameters_lem p m e)

  -- Modify. What `modifyParameters` takes for the values of a change is the content of their set.
  abbrev pub as_read : Change → Change
  as_read c = record {
    operation = c.operation;
    modification = record {
      type = c.modification.type;
      vals = contents (encode_set b c.modification.vals) ∷ [];
    };
  }

  abbrev operation_node : ℤ → Packet
  operation_node n =
      node class_universal type_primitive tag_enumerated (int64 n) (b.integer_data (int64 n)) nil

  encode_change_eq :
      (c : Change)
      → encode_change b c
        ≡ built b l class_universal tag_sequence
            (operation_node c.operation ∷ encode_partial_attribute b c.modification ∷ [])
  unfolding encode_change
  encode_change_eq c =
      rw (encode_change, l.new_integer_node)
        (append_all-eq-built b l class_universal tag_sequence
          (operation_node c.operation ∷ encode_partial_attribute b c.modification ∷ []))

  encode_partial_attribute_eq :
      (p : PartialAttribute)
      → encode_partial_attribute b p
        ≡ node class_universal type_constructed tag_sequence nil_value
            (b.bytes (string_node p.type) ++ b.bytes (encode_set b p.vals))
            (cons (string_node p.type) (cons (encode_set b p.vals) nil))
  unfolding encode_partial_attribute
  encode_partial_attribute_eq p = encode_typed_node b l p.type p.vals

  decode-encode_change : (c : Change) → decode_change (encode_change b c) ≡ ok (as_read c)
  unfolding decode_change assert
  decode-encode_change c = rw (encode_change_eq c, encode_partial_attribute_eq c.modification)

  changes_lem :
      (cs : List Change)
      → map_outcome decode_change (to_list (snoc_all b l nil (map (encode_change b) cs)))
        ≡ ok (map as_read cs)
  unfolding map_outcome
  changes_lem cs =
      ap (map_outcome decode_change) (to_list-snoc_all b l nil (map (encode_change b) cs)) ∙ each cs
    where
      each :
          (cs : List Change)
          → map_outcome decode_change (map (encode_change b) cs) ≡ ok (map as_read cs)
      each [] = refl
      each (c ∷ cs) = rw (decode-encode_change c, each cs)

  modify_request_eq :
      (m : ModifyMessage)
      → modify_request b m
        ≡ built b l class_application application_modify_request
            (list_children m.dn (map (encode_change b) m.changes))
  unfolding modify_request
  modify_request_eq m =
      list_request_eq application_modify_request m.dn (map (encode_change b) m.changes)

  modify_request-IsRequest : (m : ModifyMessage) → IsRequest b l (modify_request b m)
  modify_request-IsRequest m = rw (modify_request_eq m) (
      dn_and_list-IsRequest application_modify_request (omega arith) m.dn
        (map (encode_change b) m.changes))

  modify_parameters_lem :
      (p : LdapPacket) (m : ModifyMessage)
      → IsEnvelope b l p m.id (modify_request b m) m.controls
      → modify_parameters b p
        ≡ ok (record { dn = m.dn; changes = map as_read m.changes; controls = m.controls })
  unfolding modify_parameters assert
  modify_parameters_lem p m e =
      rw (e.has_request, modify_request_eq m, changes_lem m.changes, e.has_controls)

  -- `newMessage` reads a modify request back with its DN, operations, types and controls, but the
  -- values of each change arrive as one text, the encoded content of their set.
  pub new_message-modify :
      (m : ModifyMessage)
      → All IsReadable m.controls
      → new_message b ldap (test_modify_request_packet b m)
        ≡ ok (modify (record m { changes = map as_read m.changes }))
  unfolding test_modify_request_packet message_of_type
  new_message-modify m h =
      let p = enveloped b m.id (modify_request b m) m.controls in
      let e =
        enveloped-IsEnvelope b l m.id (modify_request b m) m.controls (modify_request-IsRequest m)
          h in
      new_message_of_type b ldap l p m.id (modify_request b m) m.controls modify_request_type e
        (rw (modify_request_eq m))
      ∙ rw (modify_parameters_lem p m e)
