-- ===== src/Control/RoundTrip.antt =====
-- `decodeControl` reads back what `Encode` wrote.
use gldap.Base.{
  All, Bool, Fits, List, Text, [], arith, false, minus_one, pos, some, text_eq, true, ℕ, ℤ, ◌<◌,
  ◌^◌, ◌∷◌, ◌≡◌, ◌≤◌,
}
use gldap.Outcome.{ok}
use gldap.Ber.{
  Ber, IsBer, class_universal, cons, nil, nil_value, node, string, tag_octet_string, tag_sequence,
  type_constructed, type_primitive,
}
use gldap.Control.{
  BeheraPasswordPolicy, Control, behera_error_string, control_behera_password_policy,
  control_manage_dsa_it, control_microsoft_notification, control_microsoft_server_link_ttl,
  control_microsoft_show_deleted, control_paging, control_string,
  control_type_behera_password_policy, control_type_manage_dsa_it,
  control_type_microsoft_notification, control_type_microsoft_server_link_ttl,
  control_type_microsoft_show_deleted, control_type_paging, control_type_vchu_password_must_change,
  control_type_vchu_password_warning, control_vchu_password_must_change,
  control_vchu_password_warning,
}
use gldap.Control.Encoding.{
  append_criticality, append_policy, append_value, begin_control, encode_control,
  encode_manage_dsa_it, encode_microsoft_notification, encode_microsoft_server_link_ttl,
  encode_microsoft_show_deleted, encode_must_change, encode_paging, encode_policy, encode_string,
  encode_warning, warning, write_cookie,
}
use gldap.Control.Codec.{
  control_fields, decode_by_type, decode_control, decode_optional_paging, decode_optional_policy,
  decode_optional_warning, decode_paging, decode_policy, decode_string_control, decode_warning,
  value_children,
}
use gldap.Strconv.RoundTrip.{parse_int-format_int}

pub ruleset writing = (
  encode_control, append_value, append_criticality, append_policy, warning, encode_policy,
  encode_paging, write_cookie, decode_control, encode_string, encode_manage_dsa_it,
  encode_microsoft_notification, encode_microsoft_server_link_ttl, encode_microsoft_show_deleted,
  encode_must_change, encode_warning,
)

-- The types of which `decodeControl` makes a control of their own.
abbrev pub own_types : List Text
own_types =
    control_type_manage_dsa_it ∷ control_type_paging ∷ control_type_behera_password_policy
    ∷ control_type_vchu_password_must_change ∷ control_type_vchu_password_warning
    ∷ control_type_microsoft_notification ∷ control_type_microsoft_show_deleted
    ∷ control_type_microsoft_server_link_ttl ∷ []

abbrev pub IsPlainType : Text → Type 0
IsPlainType t = All (λ u. text_eq t u ≡ false) own_types

-- The policies that have at most one of the three settings, in its range.
abbrev pub no_policy : BeheraPasswordPolicy
no_policy = record { expire = minus_one; grace = minus_one; error = minus_one; error_string = [] }

pub data IsSettled (p : BeheraPasswordPolicy) : Type 0 where
  unset : p ≡ no_policy → IsSettled p
  has_grace : (n : ℕ) → n < 2 ^ 63 → p ≡ record no_policy { grace = pos n } → IsSettled p
  has_expire : (n : ℕ) → n < 2 ^ 63 → p ≡ record no_policy { expire = pos n } → IsSettled p
  has_error :
      (n : ℕ)
      → n ≤ 8
      → p ≡ record no_policy { error = pos n; error_string = behera_error_string (pos n) }
      → IsSettled p

-- The controls whose packets are read back.
abbrev pub IsReadable : Control → Type 0
IsReadable (control_string t c v) = IsPlainType t
IsReadable (control_behera_password_policy p) = IsSettled p
IsReadable (control_vchu_password_must_change m) = m ≡ true
IsReadable (control_vchu_password_warning e) = Fits 63 e
IsReadable (control_paging n c) = n < 2 ^ 32
IsReadable _ = Unit

module _ (b : Ber) (l : IsBer b) where
  pub begin_control_node :
      (t : Text)
      → begin_control b t
        ≡ node class_universal type_constructed tag_sequence nil_value
            (b.bytes (node class_universal type_primitive tag_octet_string (string t) t nil))
            (cons (node class_universal type_primitive tag_octet_string (string t) t nil) nil)
  begin_control_node t = simp (begin_control, l.encode_nil, l.new_string_node, l.append_child_node)

  decode_string_lem :
      (t : Text) (c : Bool) (v : Text)
      → IsPlainType t
      → decode_control b (some (encode_control b (control_string t c v)))
        ≡ ok (control_string t c v)
  unfolding encode_control decode_control control_fields decode_by_type decode_string_control
  decode_string_lem t true [] h =
      simp (begin_control_node, l.new_boolean_node, l.append_child_node, writing) (ground arith)
  decode_string_lem t true (x ∷ v) h =
      simp (begin_control_node, l.new_boolean_node, l.new_string_node, l.append_child_node, writing)
        (ground arith)
  decode_string_lem t false [] h = simp (begin_control_node, writing) (ground arith)
  decode_string_lem t false (x ∷ v) h =
      simp (begin_control_node, l.new_string_node, l.append_child_node, writing) (ground arith)

  decode_must_change :
      decode_control b (some (encode_control b (control_vchu_password_must_change true)))
      ≡ ok (control_vchu_password_must_change true)
  unfolding encode_control decode_control control_fields decode_by_type text_eq
  decode_must_change = simp (begin_control_node, writing)

  decode_notification :
      decode_control b (some (encode_control b control_microsoft_notification))
      ≡ ok control_microsoft_notification
  unfolding encode_control decode_control control_fields decode_by_type text_eq
  decode_notification = simp (begin_control_node, writing)

  decode_server_link_ttl :
      decode_control b (some (encode_control b control_microsoft_server_link_ttl))
      ≡ ok control_microsoft_server_link_ttl
  unfolding encode_control decode_control control_fields decode_by_type text_eq
  decode_server_link_ttl = simp (begin_control_node, writing)

  decode_show_deleted :
      decode_control b (some (encode_control b control_microsoft_show_deleted))
      ≡ ok control_microsoft_show_deleted
  unfolding encode_control decode_control control_fields decode_by_type text_eq
  decode_show_deleted = simp (begin_control_node, writing)

  decode_manage_dsa_it :
      (c : Bool)
      → decode_control b (some (encode_control b (control_manage_dsa_it c)))
        ≡ ok (control_manage_dsa_it c)
  unfolding encode_control decode_control control_fields decode_by_type text_eq
  decode_manage_dsa_it true =
      simp (begin_control_node, l.new_boolean_node, l.append_child_node, writing)
  decode_manage_dsa_it false = simp (begin_control_node, writing)

  decode_warning_lem :
      (e : ℤ)
      → Fits 63 e
      → decode_control b (some (encode_control b (control_vchu_password_warning e)))
        ≡ ok (control_vchu_password_warning e)
  unfolding encode_control decode_control control_fields decode_by_type text_eq
      decode_optional_warning decode_warning
  decode_warning_lem e h = simp (
    begin_control_node,
    l.new_string_node,
    l.append_child_node,
    writing,
    l.decode_string_data,
    parse_int-format_int e h,
  )

  decode_paging_lem :
      (n : ℕ) (c : Text)
      → n < 2 ^ 32
      → decode_control b (some (encode_control b (control_paging n c))) ≡ ok (control_paging n c)
  unfolding encode_control decode_control control_fields decode_by_type text_eq
      decode_optional_paging decode_paging value_children
  decode_paging_lem n c h =
      simp (begin_control_node, l.encode_nil, l.new_integer_node, l.append_child_node, writing)
        (ground arith)

  decode_settled :
      (p : BeheraPasswordPolicy)
      → IsSettled p
      → decode_control b (some (encode_control b (control_behera_password_policy p)))
        ≡ ok (control_behera_password_policy p)
  unfolding encode_control decode_control control_fields decode_by_type text_eq
      decode_optional_policy decode_policy
  decode_settled p (unset e) = rw e (simp (begin_control_node, writing))
  decode_settled p (has_grace n h e) = rw e (
      simp (
        begin_control_node,
        l.encode_nil,
        l.new_integer_node,
        l.append_child_node,
        writing,
        l.parse_int64_data (pos n) h,
      ))
  decode_settled p (has_expire n h e) = rw e (
      simp (
        begin_control_node,
        l.encode_nil,
        l.new_integer_node,
        l.append_child_node,
        writing,
        l.parse_int64_data (pos n) h,
      ))
  decode_settled p (has_error n h e) = rw e (
      simp
        (
          begin_control_node,
          l.encode_nil,
          l.new_integer_node,
          l.append_child_node,
          writing,
          l.small_integer_data n (omega arith),
        )
        (ground arith))

  -- `decodeControl` reads every readable control back from the packet that its `Encode` makes.
  pub decode-encode_control :
      (c : Control) → IsReadable c → decode_control b (some (encode_control b c)) ≡ ok c
  decode-encode_control (control_string t c v) h = decode_string_lem t c v h
  decode-encode_control (control_manage_dsa_it c) h = decode_manage_dsa_it c
  decode-encode_control (control_behera_password_policy p) h = decode_settled p h
  decode-encode_control (control_vchu_password_warning e) h = decode_warning_lem e h
  decode-encode_control (control_paging n c) h = decode_paging_lem n c h
  decode-encode_control (control_vchu_password_must_change m) h = rw h (decode_must_change)
  decode-encode_control control_microsoft_notification h = decode_notification
  decode-encode_control control_microsoft_server_link_ttl h = decode_server_link_ttl
  decode-encode_control control_microsoft_show_deleted h = decode_show_deleted
