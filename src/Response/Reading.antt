-- ===== src/Response/Reading.antt =====
-- What an LDAP client reads from the packet of a response.
use gldap.Base.{List, [], drop, false, get_elem?, low_bits, map, some, ℕ, ◌∷◌, ◌≡◌}
use gldap.Outcome.{ok}
use gldap.Ber.{
  Ber, Packet, children, class_application, class_type, class_universal, int16, nil, node, tag,
  tag_enumerated, tag_type, type_constructed, type_primitive,
}
use gldap.Ber.Strings.{string_node}
use gldap.Codes.{
  application_bind_response, application_extended_response, application_search_result_done,
  application_search_result_entry,
}
use gldap.Packet.{request_message_id}
use gldap.Attribute.{encode_entry_attribute}
use gldap.Control.{Control}
use gldap.Control.Encoding.{encode_controls}
use gldap.Response.{
  Response, base_of, bind_response, extended_response, general_response, modify_response,
  search_response_done, search_response_entry,
}

-- The tag of a response's protocol operation.
abbrev pub operation_tag : Response → ℕ
operation_tag (extended_response r name) = application_extended_response
operation_tag (bind_response r controls) = application_bind_response
operation_tag (general_response r) = low_bits 64 r.application_code
operation_tag (search_response_done r controls) = application_search_result_done
operation_tag (search_response_entry r entry) = application_search_result_entry
operation_tag (modify_response r) = low_bits 64 r.application_code

-- The controls of a bind response or of the end of a search.
abbrev pub response_controls : Response → List Control
response_controls (bind_response r controls) = controls
response_controls (search_response_done r controls) = controls
response_controls r = []

module _ (b : Ber) where
  -- The content of the protocol operation: a search entry's DN and attributes, in order, or the
  -- result's code, matched DN and diagnostic message.
  abbrev pub HasContent : Response → List Packet → Type 0
  HasContent (search_response_entry r entry) ps =
      (attributes : Packet) × (ps ≡ string_node entry.dn ∷ attributes ∷ [])
      × (children attributes ≡ map (encode_entry_attribute b) entry.attributes)
  HasContent r ps =
      ps
      ≡ node class_universal type_primitive tag_enumerated (int16 (base_of r).code)
          (b.integer_data (int16 (base_of r).code)) nil
        ∷ string_node (base_of r).matched_dn
        ∷ string_node (base_of r).diag_message
        ∷ []

  -- Controls as a third child, if there are any.
  abbrev pub control_children : List Control → List Packet
  control_children [] = []
  control_children (c ∷ cs) = encode_controls b (c ∷ cs) ∷ []

  -- What a response's packet is.
  pub record IsResponse (r : Response) (p : Packet) : Type 0 where
    pub operation : Packet
    pub has_message_id :
        request_message_id (record { ber = p; validated = false }) ≡ ok (base_of r).message_id
    pub has_operation : get_elem? (children p) 1 ≡ some operation
    pub has_class : class_type operation ≡ class_application
    pub has_type : tag_type operation ≡ type_constructed
    pub has_tag : tag operation ≡ operation_tag r
    pub has_content : HasContent r (children operation)
    pub has_controls : drop 2 (children p) ≡ control_children (response_controls r)
