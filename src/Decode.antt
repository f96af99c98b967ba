-- ===== src/Decode.antt =====
-- packet.go: the decoders of the requests' parameters. `DecompileFilter` and `CompileFilter` of
-- github.com/go-ldap/ldap/v3 are parameters (`Ldap`). A nil slice and an empty one are one list.
use gldap.Base.{
  Bool, List, Option, Text, [], get_elem?, if◌then◌else◌, length, ltb, map, none, some, ℕ, ℤ, ◌==◌,
  ◌∷◌,
}
use gldap.Outcome.{
  Error, Outcome, ensure, err, from_library, instead, invalid_parameter, map_outcome, ok, or_panic,
  plain, ◌>>=◌, ◌>>◌,
}
use gldap.Options.Apply.{with_assert_child, with_tag}
use gldap.Ber.{
  Ber, Packet, as_bool, as_int64, children, class_context, class_universal, contents, tag,
  tag_boolean, tag_enumerated, tag_integer, tag_octet_string, tag_sequence, type_constructed,
  type_primitive, value,
}
use gldap.Codes.{
  application_add_request, application_del_request, application_extended_request,
  application_modify_request, application_search_request,
}
use gldap.Packet.{LdapPacket, assert, control_packet, octet_strings, request_packet}
use gldap.Attribute.{Attribute, Change, decode_attribute}
use gldap.Control.{Control}
use gldap.Control.Codec.{decode_controls}

pub record Ldap : Type 0 where
  pub decompile_filter : Packet → Option Text
  pub compile_filter : Text → Option Packet

-- `modifyParameters`, `addParameters` and `searchParameters`
pub record ModifyParameters : Type 0 where
  pub dn : Text
  pub changes : List Change
  pub controls : List Control

pub record AddParameters : Type 0 where
  pub dn : Text
  pub attributes : List Attribute
  pub controls : List Control

pub record SearchParameters : Type 0 where
  pub base_dn : Text
  pub scope : ℤ
  pub deref_aliases : ℤ
  pub size_limit : ℤ
  pub time_limit : ℤ
  pub types_only : Bool
  pub filter : Text
  pub attributes : List Text
  pub controls : List Control

-- A child that is asserted, with every failure an invalid parameter, and then taken.
abbrev pub child_packet : Packet → ℕ → ℕ → ℕ → ℕ → Outcome Packet
child_packet p cl ty g i = do
  instead invalid_parameter (assert p cl ty (with_tag g ∷ with_assert_child i ∷ []))
  or_panic (get_elem? (children p) i)

abbrev pub child_text : Packet → ℕ → Outcome Text
child_text p i = do
  c ← child_packet p class_universal type_primitive tag_octet_string i
  ok (contents c)

-- `Value.(int64)` and `Value.(bool)` with an error for another type.
abbrev pub int64_or : Error → Packet → Outcome ℤ
int64_or e p = elim (as_int64 (value p)) [ none ↦ err e | some n ↦ ok n ]

abbrev pub bool_or : Error → Packet → Outcome Bool
bool_or e p = elim (as_bool (value p)) [ none ↦ err e | some x ↦ ok x ]

abbrev pub child_int64 : Packet → ℕ → ℕ → Outcome ℤ
child_int64 p g i = do c ← child_packet p class_universal type_primitive g i; int64_or plain c

-- `(*packet).extendedOperationName`
unfoldable pub extended_operation_name : LdapPacket → Outcome Text
extended_operation_name p = do
  request ← request_packet p
  ensure (tag request == application_extended_request) invalid_parameter
  c ← child_packet request class_context type_primitive 0 0
  ok (contents c)

-- The values of a modification: every child behind its type.
abbrev pub modification_vals : List Packet → Outcome (List Text)
modification_vals [] = err invalid_parameter
modification_vals (t ∷ []) = err invalid_parameter
modification_vals (t ∷ v ∷ vs) = ok (map contents (v ∷ vs))

-- The body of the loop in `modifyParameters`.
unfoldable pub decode_change : Packet → Outcome Change
decode_change c = do
  instead invalid_parameter (assert c class_universal type_constructed (with_tag tag_sequence ∷ []))
  operation ← child_int64 c tag_enumerated 0
  modification ← child_packet c class_universal type_constructed tag_sequence 1
  type ← child_text modification 0
  vals ← modification_vals (children modification)
  ok (record { operation = operation; modification = record { type = type; vals = vals } })

module _ (b : Ber) where
  -- The controls behind the request, with which each decoder ends.
  unfoldable pub request_controls : LdapPacket → Outcome (List Control)
  request_controls p = do
    c ← control_packet p
    elim c [ none ↦ ok [] | some q ↦ decode_controls b (children q) ]

  -- `(*packet).modifyParameters`
  unfoldable pub modify_parameters : LdapPacket → Outcome ModifyParameters
  modify_parameters p = do
    request ← request_packet p
    ensure (tag request == application_modify_request) invalid_parameter
    dn ← child_text request 0
    changes_packet ← child_packet request class_universal type_constructed tag_sequence 1
    changes ← map_outcome decode_change (children changes_packet)
    controls ← request_controls p
    ok (record { dn = dn; changes = changes; controls = controls })

  -- `(*packet).simpleBindParameters`: user name, password and controls.
  unfoldable pub simple_bind_parameters : LdapPacket → Outcome (Text × Text × List Control)
  simple_bind_parameters p = do
    request ← request_packet p
    user_name ← child_text request 1
    if ltb 3 (length (children request)) then ok (user_name, [], []) else (do
      password ← child_packet request class_context type_primitive 0 2
      controls ← request_controls p
      ok (user_name, contents password, controls))

  -- `(*packet).addParameters`
  unfoldable pub add_parameters : LdapPacket → Outcome AddParameters
  add_parameters p = do
    request ← request_packet p
    ensure (tag request == application_add_request) invalid_parameter
    dn ← child_text request 0
    attributes_packet ← child_packet request class_universal type_constructed tag_sequence 1
    attributes ← map_outcome (λ a. decode_attribute (some a)) (children attributes_packet)
    controls ← request_controls p
    ok (record { dn = dn; attributes = attributes; controls = controls })

  -- `(*packet).deleteParameters`: the DN is the content of the request itself.
  unfoldable pub delete_parameters : LdapPacket → Outcome (Text × List Control)
  delete_parameters p = do
    request ← request_packet p
    ensure (tag request == application_del_request) invalid_parameter
    controls ← request_controls p
    ok (contents request, controls)

  module _ (ldap : Ldap) where
    -- The attributes and the controls of a search, which ends without them if there is no eighth
    -- child.
    unfoldable pub search_tail : LdapPacket → Packet → SearchParameters → Outcome SearchParameters
    search_tail p request found = if ltb (length (children request)) 8 then ok found else (do
      assert request class_universal type_constructed
          (with_tag tag_sequence ∷ with_assert_child 7 ∷ [])
      attributes_packet ← or_panic (get_elem? (children request) 7)
      attributes ← octet_strings attributes_packet 0 (children attributes_packet)
      controls ← request_controls p
      ok (record found { attributes = attributes; controls = controls }))

    -- `(*packet).searchParmeters`
    unfoldable pub search_parameters : LdapPacket → Outcome SearchParameters
    search_parameters p = do
      request ← request_packet p
      ensure (tag request == application_search_request) invalid_parameter
      base_dn ← child_text request 0
      scope ← child_int64 request tag_enumerated 1
      deref_aliases ← child_int64 request tag_enumerated 2
      size_limit ← child_int64 request tag_integer 3
      time_limit ← child_int64 request tag_integer 4
      types_only_packet ← child_packet request class_universal type_primitive tag_boolean 5
      types_only ← bool_or plain types_only_packet
      filter_packet ← elim (get_elem? (children request) 6) [
        | none ↦ err invalid_parameter
        | some f ↦ ok f
      ]
      filter ← from_library (ldap.decompile_filter filter_packet)
      search_tail p request (record {
        base_dn = base_dn;
        scope = scope;
        deref_aliases = deref_aliases;
        size_limit = size_limit;
        time_limit = time_limit;
        types_only = types_only;
        filter = filter;
        attributes = [];
        controls = [];
      })
