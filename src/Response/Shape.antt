-- ===== src/Response/Shape.antt =====
-- The packets of the responses, as an LDAP client reads them: an envelope with the message ID, and
-- behind it the protocol operation.
use gldap.Base.{
  List, Text, [], ap, append-nil, append_assoc, arith, drop, false, get_elem?, length, ltb, map,
  refl, subst, suc, sym, ℕ, ℤ, ◌++◌, ◌∙◌, ◌∷◌, ◌≡◌,
}
use gldap.Outcome.{ok}
use gldap.Ber.{
  Ber, IsBer, Packet, children, class_application, class_type, class_universal, int16, int64, nil,
  nil_value, node, tag, tag_enumerated, tag_integer, tag_sequence, tag_type, type_constructed,
  type_primitive,
}
use gldap.Ber.Strings.{string_node}
use gldap.Ber.Append.{
  children-append_child, class_type-append_child, tag-append_child, tag_type-append_child,
}
use gldap.Codes.{application_search_result_entry}
use gldap.Packet.{assert, basic_validation, request_message_id}
use gldap.Attribute.{Entry, EntryAttribute, encode_entry_attribute}
use gldap.Control.{Control}
use gldap.Control.Encoding.{encode_controls}
use gldap.Response.{
  BaseResponse, Response, append_attributes, append_response_controls, base_of, begin_response,
  bind_response, entry_packet, extended_response, general_response, modify_response,
  response_packet, result_packet, search_response_done, search_response_entry, set_response_name,
}
use gldap.Response.Reading.{
  HasContent, IsResponse, control_children, operation_tag, response_controls,
}

module _ (b : Ber) where
  module _ (l : IsBer b) where
    children-append_attributes :
        (attrs : List EntryAttribute) (p : Packet)
        → children (append_attributes b attrs p)
          ≡ children p ++ map (encode_entry_attribute b) attrs
    children-append_attributes [] p = sym (append-nil (children p))
    children-append_attributes (a ∷ rest) p =
        children-append_attributes rest (b.append_child p (encode_entry_attribute b a))
        ∙ ap (λ ps. ps ++ map (encode_entry_attribute b) rest)
            (children-append_child b l p (encode_entry_attribute b a))
        ∙ append_assoc (children p) (encode_entry_attribute b a ∷ [])
            (map (encode_entry_attribute b) rest)

    result_packet-children :
        (g : ℕ) (r : BaseResponse)
        → children (result_packet b g r)
          ≡ node class_universal type_primitive tag_enumerated
              (int16 r.code)
              (b.integer_data (int16 r.code))
              nil
            ∷ string_node r.matched_dn
            ∷ string_node r.diag_message
            ∷ []
    result_packet-children g r =
        simp (children-append_child b l, l.encode_nil, l.new_integer_node, l.new_string_node)

    result_packet-identifier :
        (g : ℕ) (r : BaseResponse)
        → (class_type (result_packet b g r) ≡ class_application)
          × (tag_type (result_packet b g r) ≡ type_constructed)
          × (tag (result_packet b g r) ≡ g)
    result_packet-identifier g r =
        simp
          (
            class_type-append_child b l,
            tag_type-append_child b l,
            tag-append_child b l,
            l.encode_nil,
          )
          (refl, refl, refl)

    -- The envelope: its message ID, and its operation as the second child.
    enveloped-children :
        (id : ℤ) (q : Packet)
        → children (b.append_child (begin_response b id) q)
          ≡ node class_universal type_primitive tag_integer
              (int64 id)
              (b.integer_data (int64 id))
              nil
            ∷ q
            ∷ []
    enveloped-children id q = simp (children-append_child b l, l.encode_nil, l.new_integer_node)

    append_response_controls-children :
        (cs : List Control) (p : Packet)
        → children (append_response_controls b cs p) ≡ children p ++ control_children b cs
    append_response_controls-children [] p = sym (append-nil (children p))
    append_response_controls-children (c ∷ cs) p =
        children-append_child b l p (encode_controls b (c ∷ cs))

    append_response_controls-identifier :
        (cs : List Control) (p : Packet)
        → (class_type (append_response_controls b cs p) ≡ class_type p)
          × (tag_type (append_response_controls b cs p) ≡ tag_type p)
          × (tag (append_response_controls b cs p) ≡ tag p)
    append_response_controls-identifier [] p = (refl, refl, refl)
    append_response_controls-identifier (c ∷ cs) p =
        simp (class_type-append_child b l, tag_type-append_child b l, tag-append_child b l)
          (refl, refl, refl)

    at_least_two : (n : ℕ) → ltb (suc (suc n)) 2 ≡ false
    at_least_two n = ground arith

    -- An envelope is accepted, whatever follows its message ID.
    message_id_of :
        (p : Packet) (id : ℤ) (q : Packet) (rest : List Packet)
        → class_type p ≡ class_universal
        → tag_type p ≡ type_constructed
        → tag p ≡ tag_sequence
        → children p
          ≡ node class_universal type_primitive tag_integer
              (int64 id)
              (b.integer_data (int64 id))
              nil
            ∷ q
            ∷ rest
        → request_message_id (record { ber = p; validated = false }) ≡ ok id
    unfolding request_message_id basic_validation assert
    message_id_of p id q rest hc ht hg hs = simp (hs, hc, ht, hg, at_least_two (length rest))

    enveloped-identifier :
        (id : ℤ) (q : Packet)
        → (class_type (b.append_child (begin_response b id) q) ≡ class_universal)
          × (tag_type (b.append_child (begin_response b id) q) ≡ type_constructed)
          × (tag (b.append_child (begin_response b id) q) ≡ tag_sequence)
    enveloped-identifier id q =
        simp
          (
            class_type-append_child b l,
            tag_type-append_child b l,
            tag-append_child b l,
            l.encode_nil,
          )
          (refl, refl, refl)

    -- An envelope with an operation and controls.
    packet_of : (id : ℤ) (q : Packet) → List Control → Packet
    packet_of id q cs = append_response_controls b cs (b.append_child (begin_response b id) q)

    packet_of-IsResponse :
        (r : Response) (q : Packet) (cs : List Control)
        → class_type q ≡ class_application
        → tag_type q ≡ type_constructed
        → tag q ≡ operation_tag r
        → HasContent b r (children q)
        → response_controls r ≡ cs
        → IsResponse b r (packet_of (base_of r).message_id q cs)
    unfolding packet_of
    packet_of-IsResponse r q cs hc ht hg h hr =
        let id = (base_of r).message_id in
        let p = b.append_child (begin_response b id) q in
        let outer = append_response_controls-identifier cs p in
        let inner = enveloped-identifier id q in
        let parts =
          append_response_controls-children cs p
          ∙ ap (λ ps. ps ++ control_children b cs) (enveloped-children id q) in
        record {
          operation = q;
          has_message_id =
              message_id_of _ id q (control_children b cs) (outer.0 ∙ inner.0) (outer.1 ∙ inner.1)
                (outer.2 ∙ inner.2) parts;
          has_operation = ap (λ ps. get_elem? ps 1) parts;
          has_class = hc;
          has_type = ht;
          has_tag = hg;
          has_content = h;
          has_controls = ap (drop 2) parts ∙ ap (λ rs. control_children b rs) (sym hr);
        }

    result_packet-IsResponse :
        (r : Response) (cs : List Control)
        → HasContent b r ≡ HasContent b (extended_response (base_of r) [])
        → response_controls r ≡ cs
        → IsResponse b r
            (packet_of (base_of r).message_id (result_packet b (operation_tag r) (base_of r)) cs)
    result_packet-IsResponse r cs same hr =
        let id = result_packet-identifier (operation_tag r) (base_of r) in
        packet_of-IsResponse r _ cs id.0 id.1 id.2
          (subst (λ P. P (children (result_packet b (operation_tag r) (base_of r)))) (sym same)
            (result_packet-children (operation_tag r) (base_of r)))
          hr

    entry_packet-HasContent :
        (r : BaseResponse) (entry : Entry)
        → HasContent b (search_response_entry r entry) (children (entry_packet b entry))
    entry_packet-HasContent r entry = (
      append_attributes b entry.attributes
          (b.encode class_universal type_constructed tag_sequence nil_value),
      simp (children-append_child b l, l.encode_nil, l.new_string_node),
      children-append_attributes entry.attributes
            (b.encode class_universal type_constructed tag_sequence nil_value)
          ∙ rw (l.encode_nil),
    )

    entry_packet-identifier :
        (entry : Entry)
        → (class_type (entry_packet b entry) ≡ class_application)
          × (tag_type (entry_packet b entry) ≡ type_constructed)
          × (tag (entry_packet b entry) ≡ application_search_result_entry)
    entry_packet-identifier entry =
        simp
          (
            class_type-append_child b l,
            tag_type-append_child b l,
            tag-append_child b l,
            l.encode_nil,
          )
          (refl, refl, refl)

    -- Every response's packet passes `basicValidation`, carries the response's message ID, and has
    -- an operation of the application class with the response's tag its code, matched DN and
    -- diagnostic message, or a search entry's DN and attributes in order; the controls of a bind
    -- response or of the end of a search follow as a third child, if there are any.
    pub response_packet-IsResponse : (r : Response) → IsResponse b r (response_packet b r)
    unfolding response_packet packet_of
    response_packet-IsResponse (extended_response r name) =
        result_packet-IsResponse (extended_response r name) [] refl refl
    response_packet-IsResponse (bind_response r controls) =
        result_packet-IsResponse (bind_response r controls) controls refl refl
    response_packet-IsResponse (general_response r) =
        result_packet-IsResponse (general_response r) [] refl refl
    response_packet-IsResponse (search_response_done r controls) =
        result_packet-IsResponse (search_response_done r controls) controls refl refl
    response_packet-IsResponse (modify_response r) =
        result_packet-IsResponse (modify_response r) [] refl refl
    response_packet-IsResponse (search_response_entry r entry) =
        let id = entry_packet-identifier entry in
        packet_of-IsResponse (search_response_entry r entry) (entry_packet b entry) [] id.0 id.1
          id.2 (entry_packet-HasContent r entry) refl

  -- `SetResponseName` changes no packet: the name of an extended response is not sent.
  set_response_name-packet :
      (name : Text) (r : Response)
      → response_packet b (set_response_name name r) ≡ response_packet b r
  unfolding response_packet set_response_name
  set_response_name-packet name (extended_response r old) = refl
  set_response_name-packet name (bind_response r controls) = refl
  set_response_name-packet name (general_response r) = refl
  set_response_name-packet name (search_response_done r controls) = refl
  set_response_name-packet name (search_response_entry r entry) = refl
  set_response_name-packet name (modify_response r) = refl
