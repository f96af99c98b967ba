-- ===== src/Packet.antt =====
-- packet.go: the checks that every request packet goes through (`assert`, `basicValidation`,
-- `requestMessageID`, `controlPacket`, `requestPacket`, `requestType`). The decoders of the single
-- requests are in `Decode`.
pub mod Version
use gldap.Base.{
  Bool, List, Option, Text, [], get_elem?, if◌then◌else◌, int_eq, leb, length, ltb, none, not, pos,
  some, suc, true, ℕ, ℤ, ◌==◌, ◌||◌, ◌∷◌,
}
use gldap.Outcome.{
  Outcome, ensure, err, instead, internal, invalid_parameter, ok, or_panic, plain, ◌>>=◌, ◌>>◌,
}
use gldap.Options.{GoOption}
use gldap.Options.Apply.{
  get_message_opts, with_assert_child, with_len_children, with_min_children, with_tag,
}
use gldap.Ber.{
  Packet, as_int64, children, class_application, class_context, class_type, class_universal,
  contents, tag, tag_integer, tag_octet_string, tag_sequence, tag_type, type_constructed,
  type_primitive, value,
}
use gldap.Codes.{
  application_add_request, application_bind_request, application_del_request,
  application_extended_request, application_modify_request, application_search_request,
  application_unbind_request,
}

-- `type packet struct`
pub record LdapPacket : Type 0 where
  pub ber : Packet
  pub validated : Bool

abbrev pub has_length : Option ℕ → List Packet → Bool
has_length none ps = true
has_length (some n) ps = length ps == n

abbrev pub has_at_least : Option ℕ → List Packet → Bool
has_at_least none ps = true
has_at_least (some n) ps = not (ltb (length ps) n)

-- The packet that is checked: the asserted child, which is missing if `len(p.Children) < idx+1`.
abbrev pub asserted : Option ℕ → Packet → Outcome Packet
asserted none p = ok p
asserted (some i) p = elim (get_elem? (children p) i) [ none ↦ err plain | some c ↦ ok c ]

abbrev pub has_tag : Option ℕ → Packet → Bool
has_tag none p = true
has_tag (some g) p = tag p == g

-- Class, type and tag, the last part of `assert`.
abbrev pub check_identifier : ℕ → ℕ → Option ℕ → Packet → Outcome (Unit {0})
check_identifier cl ty g chk = do
  ensure (class_type chk == cl) plain
  ensure (tag_type chk == ty) plain
  ensure (has_tag g chk) plain

-- `(*packet).assert`
unfoldable pub assert : Packet → ℕ → ℕ → List GoOption → Outcome (Unit {0})
assert p cl ty opt = do
  let opts = get_message_opts opt
  ensure (has_length opts.with_len_children (children p)) plain
  ensure (has_at_least opts.with_min_children (children p)) plain
  chk ← asserted opts.with_assert_child p
  check_identifier cl ty opts.with_tag chk

-- `(*packet).basicValidation`, with the packet that it leaves.
unfoldable pub basic_validation : LdapPacket → Outcome LdapPacket
unfolding assert
basic_validation p = if p.validated then ok p else (do
  instead invalid_parameter (
      assert p.ber class_universal type_constructed
        (with_tag tag_sequence ∷ with_min_children 2 ∷ []))
  ok (record p { validated = true }))

-- `(*packet).requestMessageID`
unfoldable pub request_message_id : LdapPacket → Outcome ℤ
unfolding assert basic_validation
request_message_id p = do
  q ← basic_validation p
  id ← or_panic (get_elem? (children q.ber) 0)
  assert id class_universal type_primitive (with_tag tag_integer ∷ [])
  elim (as_int64 (value id)) [ none ↦ err invalid_parameter | some n ↦ ok n ]

-- `(*packet).controlPacket`; `none` is its nil packet.
unfoldable pub control_packet : LdapPacket → Outcome (Option Packet)
unfolding assert
control_packet p = if leb (length (children p.ber)) 2 then ok none else (do
  c ← or_panic (get_elem? (children p.ber) 2)
  instead invalid_parameter (assert c class_context type_constructed [])
  ok (some c))

-- `(*packet).assertApplicationRequest`
unfoldable pub assert_application_request : Packet → Outcome (Unit {0})
assert_application_request p = elim (get_elem? (children p) 1) [
  | none ↦ err plain
  | some chk ↦
      if not (class_type chk == class_application)
      then err plain
      else if tag_type chk == type_primitive
      then ensure (tag chk == application_del_request || tag chk == application_unbind_request)
          plain
      else ensure (tag_type chk == type_constructed) plain
]

-- The error for another version prints `requestPacket.Value.(int64)`.
abbrev pub wrong_version : Packet → Outcome (Unit {0})
wrong_version request = do n ← or_panic (as_int64 (value request)); err plain

-- The case of `ApplicationBindRequest` in `requestPacket`: LDAP version 3 only.
unfoldable pub check_version : Packet → Outcome (Unit {0})
unfolding assert
check_version request = do
  assert request class_universal type_primitive (with_tag tag_integer ∷ with_assert_child 0 ∷ [])
  child ← or_panic (get_elem? (children request) 0)
  version ← elim (as_int64 (value child)) [ none ↦ err invalid_parameter | some n ↦ ok n ]
  if int_eq version (pos 3) then ok tt else wrong_version request

-- `(*packet).requestPacket`
unfoldable pub request_packet : LdapPacket → Outcome Packet
unfolding basic_validation
request_packet p = do
  q ← basic_validation p
  assert_application_request q.ber
  request ← or_panic (get_elem? (children q.ber) 1)
  if tag request == application_bind_request then check_version request else ok tt
  ok request

-- `requestType` of message.go
pub data RequestType : Type 0 where
  bind_request_type search_request_type extended_request_type modify_request_type : RequestType
  add_request_type delete_request_type unbind_request_type : RequestType

abbrev pub type_of_tag : ℕ → Outcome RequestType
type_of_tag g =
    if g == application_bind_request
    then ok bind_request_type
    else if g == application_search_request
    then ok search_request_type
    else if g == application_extended_request
    then ok extended_request_type
    else if g == application_modify_request
    then ok modify_request_type
    else if g == application_add_request
    then ok add_request_type
    else if g == application_del_request
    then ok delete_request_type
    else if g == application_unbind_request
    then ok unbind_request_type
    else err internal

-- `(*packet).requestType`
unfoldable pub request_type : LdapPacket → Outcome RequestType
request_type p = do request ← request_packet p; type_of_tag (tag request)

-- A loop over the children `ps` of `p`, the first of them being child `i`: each is asserted to be an
-- octet string by its index, and its content is taken.
unfoldable pub octet_strings : Packet → ℕ → List Packet → Outcome (List Text)
octet_strings p i [] = ok []
octet_strings p i (c ∷ ps) = do
  assert p class_universal type_primitive (with_tag tag_octet_string ∷ with_assert_child i ∷ [])
  rest ← octet_strings p (suc i) ps
  ok (contents c ∷ rest)
