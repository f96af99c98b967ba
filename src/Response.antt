-- ===== src/Response.antt =====
-- response.go: the responses, their packets, and the writer that sends them. `Response` is the
-- interface, by the type behind it; a response's setters return the changed response.
pub mod Reading
pub mod Shape
pub mod Writer
use gldap.Base.{List, Text, [], low_bits, to_int16, ℕ, ℤ, ◌++◌, ◌∷◌}
use gldap.Options.{GoOption}
use gldap.Options.Apply.{get_response_opts, with_diagnostic_message, with_matched_dn}
use gldap.Ber.{
  Ber, Packet, class_application, class_universal, int16, int64, nil_value, tag, tag_enumerated,
  tag_integer, tag_octet_string, tag_sequence, type_constructed, type_primitive,
}
use gldap.Codes.{
  application_bind_response, application_extended_response, application_search_result_done,
  application_search_result_entry,
}
use gldap.Attribute.{Entry, EntryAttribute, encode_entry_attribute, new_entry_attribute}
use gldap.Control.{Control}
use gldap.Control.Encoding.{encode_controls}

-- `code` is an int16.
pub record BaseResponse : Type 0 where
  pub message_id : ℤ
  pub code : ℤ
  pub diag_message : Text
  pub matched_dn : Text

-- `GeneralResponse`; `ModifyResponse` embeds it.
pub record GeneralResponse : Type 0 where
  pub base : BaseResponse
  pub application_code : ℤ

pub data Response : Type 0 where
  extended_response : BaseResponse → (name : Text) → Response
  bind_response : BaseResponse → List Control → Response
  general_response : GeneralResponse → Response
  search_response_done : BaseResponse → List Control → Response
  search_response_entry : BaseResponse → Entry → Response
  modify_response : GeneralResponse → Response

abbrev pub base_of : Response → BaseResponse
base_of (extended_response r name) = r
base_of (bind_response r controls) = r
base_of (general_response r) = r.base
base_of (search_response_done r controls) = r
base_of (search_response_entry r entry) = r
base_of (modify_response r) = r.base

-- A setter of the embedded `baseResponse`.
abbrev on_base : (BaseResponse → BaseResponse) → Response → Response
on_base f (extended_response r name) = extended_response (f r) name
on_base f (bind_response r controls) = bind_response (f r) controls
on_base f (general_response r) = general_response (record r { base = f r.base })
on_base f (search_response_done r controls) = search_response_done (f r) controls
on_base f (search_response_entry r entry) = search_response_entry (f r) entry
on_base f (modify_response r) = modify_response (record r { base = f r.base })

-- `SetResultCode`
unfoldable pub set_result_code : ℤ → Response → Response
set_result_code code = on_base (λ r. record r { code = to_int16 code })

-- `SetDiagnosticMessage`
unfoldable pub set_diagnostic_message : Text → Response → Response
set_diagnostic_message msg = on_base (λ r. record r { diag_message = msg })

-- `SetMatchedDN`
unfoldable pub set_matched_dn : Text → Response → Response
set_matched_dn dn = on_base (λ r. record r { matched_dn = dn })

-- `SetResponseName` of `ExtendedResponse`
unfoldable pub set_response_name : Text → Response → Response
set_response_name n (extended_response r name) = extended_response r n
set_response_name n r = r

-- `SetControls` of `BindResponse` and of `SearchResponseDone`
unfoldable pub set_controls : List Control → Response → Response
set_controls controls (bind_response r old) = bind_response r controls
set_controls controls (search_response_done r old) = search_response_done r controls
set_controls controls r = r

-- `AddAttribute` of `SearchResponseEntry`
unfoldable pub add_entry_attribute : Text → List Text → Response → Response
add_entry_attribute name values (search_response_entry r entry) =
    search_response_entry r
      (record entry { attributes = entry.attributes ++ new_entry_attribute name values ∷ [] })
add_entry_attribute name values r = r

module _ (b : Ber) where
  -- `beginResponse`
  abbrev pub begin_response : ℤ → Packet
  begin_response message_id =
      b.append_child (b.encode class_universal type_constructed tag_sequence nil_value)
        (b.new_integer class_universal type_primitive tag_integer (int64 message_id))

  -- `addOptionalResponseChildren`
  abbrev pub add_optional_response_children : List GoOption → Packet → Packet
  add_optional_response_children opt p =
      let opts = get_response_opts opt in
      b.append_child
        (b.append_child p
          (b.new_string class_universal type_primitive tag_octet_string opts.with_matched_dn))
        (b.new_string class_universal type_primitive tag_octet_string opts.with_diagnostic_message)

  -- The result: the code, the matched DN and the diagnostic message under the application tag.
  abbrev pub result_packet : ℕ → BaseResponse → Packet
  result_packet tag r =
      add_optional_response_children
        (with_diagnostic_message r.diag_message ∷ with_matched_dn r.matched_dn ∷ [])
        (b.append_child (b.encode class_application type_constructed tag nil_value)
          (b.new_integer class_universal type_primitive tag_enumerated (int16 r.code)))

  -- `if len(r.controls) > 0`
  abbrev pub append_response_controls : List Control → Packet → Packet
  append_response_controls [] p = p
  append_response_controls (c ∷ cs) p = b.append_child p (encode_controls b (c ∷ cs))

  abbrev pub append_attributes : List EntryAttribute → Packet → Packet
  append_attributes [] p = p
  append_attributes (a ∷ as') p =
      append_attributes as' (b.append_child p (encode_entry_attribute b a))

  -- The result of a search entry: its DN and its attributes.
  abbrev pub entry_packet : Entry → Packet
  entry_packet entry =
      b.append_child
        (b.append_child
          (b.encode class_application type_constructed application_search_result_entry nil_value)
          (b.new_string class_universal type_primitive tag_octet_string entry.dn))
        (append_attributes entry.attributes
          (b.encode class_universal type_constructed tag_sequence nil_value))

  -- `ber.Tag(applicationCode)`, a uint64.
  abbrev pub general_packet : GeneralResponse → Packet
  general_packet r =
      b.append_child (begin_response r.base.message_id)
        (result_packet (low_bits 64 r.application_code) r.base)

  -- The `packet` methods.
  unfoldable pub response_packet : Response → Packet
  response_packet (extended_response r name) =
      b.append_child (begin_response r.message_id) (result_packet application_extended_response r)
  response_packet (bind_response r controls) =
      append_response_controls controls
        (b.append_child (begin_response r.message_id) (result_packet application_bind_response r))
  response_packet (general_response r) = general_packet r
  response_packet (search_response_done r controls) = append_response_controls controls (
      b.append_child (begin_response r.message_id) (result_packet application_search_result_done r))
  response_packet (search_response_entry r entry) =
      b.append_child (begin_response r.message_id) (entry_packet entry)
  response_packet (modify_response r) = general_packet r
