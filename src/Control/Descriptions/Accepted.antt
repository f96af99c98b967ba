-- ===== src/Control/Descriptions/Accepted.antt =====
-- That `addControlDescriptions` accepts what `Encode` writes.
use gldap.Base.{
  All, Bool, List, Text, [], append-nil, append_assoc, arith, false, map, pos, refl, some, sym,
  text_eq, true, ℕ, ℤ, ◌++◌, ◌∙◌, ◌∷◌, ◌≡◌,
}
use gldap.Outcome.{ok}
use gldap.Ber.{Ber, IsBer, Packet, children, class_context, nil_value, type_constructed}
use gldap.Control.{
  BeheraPasswordPolicy, Control, control_behera_password_policy, control_manage_dsa_it,
  control_microsoft_notification, control_microsoft_server_link_ttl, control_microsoft_show_deleted,
  control_paging, control_string, control_type_microsoft_notification,
  control_type_microsoft_server_link_ttl, control_type_microsoft_show_deleted,
  control_type_vchu_password_must_change, control_vchu_password_must_change,
  control_vchu_password_warning,
}
use gldap.Control.Encoding.{append_controls, begin_control, encode_control, encode_controls}
use gldap.Control.RoundTrip.{
  IsPlainType, IsReadable, IsSettled, begin_control_node, has_error, has_expire, has_grace, unset,
  writing,
}
use gldap.Ber.Append.{children-append_child}
use gldap.Control.Descriptions.{
  add_control_descriptions, describe_control, describe_controls, describe_paging, describe_policy,
  describe_policy_child, describe_value, described_children, described_fields,
}

module _ (b : Ber) (l : IsBer b) where
  describe_string :
      (t : Text) (c : Bool) (v : Text)
      → IsPlainType t
      → describe_control b (encode_control b (control_string t c v)) ≡ ok tt
  unfolding encode_control describe_control described_fields describe_value
  describe_string t true [] h =
      simp (begin_control_node b l, l.new_boolean_node, l.append_child_node, writing)
  describe_string t true (x ∷ v) h =
      simp
        (
          begin_control_node b l,
          l.new_boolean_node,
          l.new_string_node,
          l.append_child_node,
          writing,
        )
        (ground arith)
  describe_string t false [] h = simp (begin_control_node b l, writing)
  describe_string t false (x ∷ v) h =
      simp (begin_control_node b l, l.new_string_node, l.append_child_node, writing) (ground arith)

  describe_manage_dsa_it :
      (c : Bool) → describe_control b (encode_control b (control_manage_dsa_it c)) ≡ ok tt
  unfolding encode_control describe_control described_fields describe_value text_eq
  describe_manage_dsa_it true =
      simp (begin_control_node b l, l.new_boolean_node, l.append_child_node, writing)
  describe_manage_dsa_it false = simp (begin_control_node b l, writing)

  describe_warning :
      (e : ℤ) → describe_control b (encode_control b (control_vchu_password_warning e)) ≡ ok tt
  unfolding encode_control describe_control described_fields describe_value text_eq
  describe_warning e =
      simp (begin_control_node b l, l.new_string_node, l.append_child_node, writing)

  describe_paging_lem :
      (n : ℕ) (c : Text) → describe_control b (encode_control b (control_paging n c)) ≡ ok tt
  unfolding encode_control describe_control described_fields describe_value text_eq describe_paging
      described_children
  describe_paging_lem n c =
      simp (begin_control_node b l, l.encode_nil, l.new_integer_node, l.append_child_node, writing)

  describe_settled :
      (p : BeheraPasswordPolicy)
      → IsSettled p
      → describe_control b (encode_control b (control_behera_password_policy p)) ≡ ok tt
  unfolding encode_control describe_control described_fields describe_value text_eq describe_policy
      described_children describe_policy_child
  describe_settled p (unset e) = rw e (simp (begin_control_node b l, writing))
  describe_settled p (has_grace n h e) = rw e (
      simp (
        begin_control_node b l,
        l.encode_nil,
        l.new_integer_node,
        l.append_child_node,
        writing,
        l.parse_int64_data (pos n) h,
      ))
  describe_settled p (has_expire n h e) = rw e (
      simp (
        begin_control_node b l,
        l.encode_nil,
        l.new_integer_node,
        l.append_child_node,
        writing,
        l.parse_int64_data (pos n) h,
      ))
  describe_settled p (has_error n h e) = rw e (
      simp
        (
          begin_control_node b l,
          l.encode_nil,
          l.new_integer_node,
          l.append_child_node,
          writing,
          l.small_integer_data n (omega arith),
        )
        (ground arith))

  describe_bare :
      (c : Control) (t : Text)
      → encode_control b c ≡ begin_control b t
      → describe_control b (encode_control b c) ≡ ok tt
  unfolding describe_control described_fields describe_value
  describe_bare c t e = rw e (simp (begin_control_node b l, writing))

  describe-encode_control :
      (c : Control) → IsReadable c → describe_control b (encode_control b c) ≡ ok tt
  unfolding encode_control
  describe-encode_control (control_string t c v) h = describe_string t c v h
  describe-encode_control (control_manage_dsa_it c) h = describe_manage_dsa_it c
  describe-encode_control (control_behera_password_policy p) h = describe_settled p h
  describe-encode_control (control_vchu_password_warning e) h = describe_warning e
  describe-encode_control (control_paging n c) h = describe_paging_lem n c
  describe-encode_control (control_vchu_password_must_change m) h =
      describe_bare (control_vchu_password_must_change m) control_type_vchu_password_must_change
        refl
  describe-encode_control control_microsoft_notification h =
      describe_bare control_microsoft_notification control_type_microsoft_notification refl
  describe-encode_control control_microsoft_server_link_ttl h =
      describe_bare control_microsoft_server_link_ttl control_type_microsoft_server_link_ttl refl
  describe-encode_control control_microsoft_show_deleted h =
      describe_bare control_microsoft_show_deleted control_type_microsoft_show_deleted refl

  describe_controls-encode :
      (cs : List Control)
      → All IsReadable cs
      → describe_controls b (map (encode_control b) cs) ≡ ok tt
  describe_controls-encode [] h = refl
  describe_controls-encode (c ∷ cs) h =
      rw (describe-encode_control c h.0, describe_controls-encode cs h.1)

  children-append_controls :
      (p : Packet) (cs : List Control)
      → children (append_controls b p cs) ≡ children p ++ map (encode_control b) cs
  children-append_controls p [] = sym (append-nil (children p))
  children-append_controls p (c ∷ cs) =
      children-append_controls (b.append_child p (encode_control b c)) cs
      ∙ rw (children-append_child b l p (encode_control b c))
          (append_assoc (children p) (encode_control b c ∷ []) (map (encode_control b) cs))

  -- `addControlDescriptions` returns without an error and without a panic on the packet that
  -- `encodeControls` makes of readable controls.
  pub add_control_descriptions-encode_controls :
      (cs : List Control)
      → All IsReadable cs
      → add_control_descriptions b (some (encode_controls b cs)) ≡ ok tt
  unfolding add_control_descriptions encode_controls
  add_control_descriptions-encode_controls cs h =
      rw
        (
          children-append_controls (b.encode class_context type_constructed 0 nil_value) cs,
          l.encode_nil,
        )
        (describe_controls-encode cs h)
