-- ===== src/Control/Codec.antt =====
-- `decodeControl` of control.go. The packet's descriptions, which it also sets, are left out, and so
-- is what it writes back into the packet that it has read: nothing reads that again.
use gldap.Base.{
  Bool, List, Option, Text, [], false, get_elem?, if◌then◌else◌, ltb, minus_one, none, pos, some,
  text_eq, to_uint32, true, ℕ, ◌++◌, ◌==◌, ◌∷◌,
}
use gldap.Outcome.{
  Outcome, err, from_library, instead, invalid_parameter, map_outcome, ok, or_panic, plain, ◌>>=◌,
}
use gldap.Ber.{Ber, Packet, as_bool, as_int64, as_string, children, contents, nil_value, tag, value}
use gldap.Control.{
  BeheraPasswordPolicy, Control, behera_error_string, control_behera_password_policy,
  control_manage_dsa_it, control_microsoft_notification, control_microsoft_server_link_ttl,
  control_microsoft_show_deleted, control_paging, control_string,
  control_type_behera_password_policy, control_type_manage_dsa_it,
  control_type_microsoft_notification, control_type_microsoft_server_link_ttl,
  control_type_microsoft_show_deleted, control_type_paging, control_type_vchu_password_must_change,
  control_type_vchu_password_warning, control_vchu_password_must_change,
  control_vchu_password_warning, new_control_behera_password_policy,
}
use gldap.Control.Encoding.{warning}
use gldap.Strconv.{parse_int}

-- `packet.Children[0].Value.(string)`
abbrev pub type_of : Packet → Outcome Text
type_of p = or_panic (as_string (value p))

-- The second of two children is a criticality if it is a boolean, and else the value.
abbrev pub second_child : Text → Packet → Outcome (Text × Bool × Option Packet)
second_child t p = elim (as_bool (value p)) [
  | some c ↦ ok (t, c, none)
  | none ↦ ok (t, false, some p)
]

-- The first switch of `decodeControl`: type, criticality and value.
unfoldable pub control_fields : List Packet → Outcome (Text × Bool × Option Packet)
control_fields [] = err plain
control_fields (t ∷ []) = do control_type ← type_of t; ok (control_type, false, none)
control_fields (t ∷ u ∷ []) = do control_type ← type_of t; second_child control_type u
control_fields (t ∷ c ∷ v ∷ []) = do
  control_type ← type_of t
  criticality ← or_panic (as_bool (value c))
  ok (control_type, criticality, some v)
control_fields (t ∷ c ∷ v ∷ w ∷ rest) = err plain

-- `if bs[0] > 8`, behind the test that there is one byte.
abbrev pub error_byte : Text → Outcome ℕ
error_byte (n ∷ []) = if ltb 8 n then err plain else ok n
error_byte _ = err plain

module _ (b : Ber) where
  -- The children of a control's value, read from its octets if they have not been yet.
  unfoldable pub value_children : Packet → Outcome (List Packet)
  value_children v = elim (value v) [
    | nil_value ↦ ok (children v)
    | _ ↦ do decoded ← from_library (b.decode_packet (contents v)); ok (children v ++ decoded ∷ [])
  ]

  -- The case of `ControlTypePaging`, with a value.
  unfoldable pub decode_paging : Packet → Outcome Control
  unfolding value_children
  decode_paging v = do
    inner ← value_children v
    seq ← instead invalid_parameter (elim inner [ [] ↦ err plain | w ∷ ws ↦ ok w ])
    size ← or_panic (get_elem? (children seq) 0)
    cookie ← or_panic (get_elem? (children seq) 1)
    n ← or_panic (as_int64 (value size))
    ok (control_paging (to_uint32 n) (contents cookie))

  -- One child of the policy's sequence.
  unfoldable pub policy_child : Packet → BeheraPasswordPolicy → Outcome BeheraPasswordPolicy
  policy_child child c =
      if tag child == 0
      then (do
        warning ← or_panic (get_elem? (children child) 0)
        val ← from_library (b.parse_int64 (contents warning))
        ok (
            if tag warning == 0
            then record c { expire = val }
            else if tag warning == 1
            then record c { grace = val }
            else c))
      else if tag child == 1
      then (do
        n ← error_byte (contents child)
        ok (record c { error = pos n; error_string = behera_error_string (pos n) }))
      else ok c

  policy_children : List Packet → BeheraPasswordPolicy → Outcome BeheraPasswordPolicy
  policy_children [] c = ok c
  policy_children (p ∷ ps) c = do c' ← policy_child p c; policy_children ps c'

  -- The case of `ControlTypeBeheraPasswordPolicy`, with a value.
  unfoldable pub decode_policy : Packet → Outcome Control
  unfolding value_children policy_children policy_child new_control_behera_password_policy
  decode_policy v = do
    c ← instead plain (new_control_behera_password_policy [])
    inner ← value_children v
    seq ← instead invalid_parameter (elim inner [ [] ↦ err plain | w ∷ ws ↦ ok w ])
    policy ← policy_children (children seq) c
    ok (control_behera_password_policy policy)

  -- The case of `ControlTypeVChuPasswordWarning`, with a value.
  unfoldable pub decode_warning : Packet → Outcome Control
  decode_warning v = do
    expire ← from_library (parse_int (b.decode_string (contents v)))
    ok (control_vchu_password_warning expire)

  -- The default case: `value.Value.(string)`.
  unfoldable pub decode_string_control : Text → Bool → Option Packet → Outcome Control
  decode_string_control t c none = ok (control_string t c [])
  decode_string_control t c (some v) = do
    s ← or_panic (as_string (value v))
    ok (control_string t c s)

  unfoldable pub decode_optional_paging : Option Packet → Outcome Control
  decode_optional_paging none = ok (control_paging 0 [])
  decode_optional_paging (some v) = decode_paging v

  unfoldable pub decode_optional_policy : Option Packet → Outcome Control
  decode_optional_policy none = do
    c ← new_control_behera_password_policy []
    ok (control_behera_password_policy c)
  decode_optional_policy (some v) = decode_policy v

  unfoldable pub decode_optional_warning : Option Packet → Outcome Control
  decode_optional_warning none = ok (control_vchu_password_warning minus_one)
  decode_optional_warning (some v) = decode_warning v

  -- The second switch of `decodeControl`.
  unfoldable pub decode_by_type : Text → Bool → Option Packet → Outcome Control
  decode_by_type t c v =
      if text_eq t control_type_manage_dsa_it
      then ok (control_manage_dsa_it c)
      else if text_eq t control_type_paging
      then decode_optional_paging v
      else if text_eq t control_type_behera_password_policy
      then decode_optional_policy v
      else if text_eq t control_type_vchu_password_must_change
      then ok (control_vchu_password_must_change true)
      else if text_eq t control_type_vchu_password_warning
      then decode_optional_warning v
      else if text_eq t control_type_microsoft_notification
      then ok control_microsoft_notification
      else if text_eq t control_type_microsoft_show_deleted
      then ok control_microsoft_show_deleted
      else if text_eq t control_type_microsoft_server_link_ttl
      then ok control_microsoft_server_link_ttl
      else decode_string_control t c v

  unfoldable pub decode_control : Option Packet → Outcome Control
  decode_control none = err invalid_parameter
  decode_control (some p) = do
    (control_type, criticality, value) ← control_fields (children p)
    decode_by_type control_type criticality value

  -- The loop over a control packet's children, which each of the request decoders has.
  unfoldable pub decode_controls : List Packet → Outcome (List Control)
  decode_controls = map_outcome (λ p. decode_control (some p))
