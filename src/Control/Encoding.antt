-- ===== src/Control/Encoding.antt =====
-- `Encode` of each control of control.go, and `encodeControls`.
use gldap.Base.{Bool, List, Text, [], false, if◌then◌else◌, is_nonneg, pos, true, ℕ, ℤ, ◌++◌, ◌∷◌}
use gldap.Ber.{
  Ber, Packet, byte_slice, class_context, class_universal, int64, int8, nil_value, node, tag,
  tag_boolean, tag_integer, tag_octet_string, tag_sequence, type_constructed, type_primitive,
}
use gldap.Strconv.{format_int}
use gldap.Control.{
  BeheraPasswordPolicy, Control, control_behera_password_policy, control_manage_dsa_it,
  control_microsoft_notification, control_microsoft_server_link_ttl, control_microsoft_show_deleted,
  control_paging, control_string, control_type_behera_password_policy, control_type_manage_dsa_it,
  control_type_microsoft_notification, control_type_microsoft_server_link_ttl,
  control_type_microsoft_show_deleted, control_type_paging, control_type_vchu_password_must_change,
  control_type_vchu_password_warning, control_vchu_password_must_change,
  control_vchu_password_warning,
}

module _ (b : Ber) where
  -- The control's sequence with its type in it, which every `Encode` begins with.
  abbrev pub begin_control : Text → Packet
  begin_control control_type =
      b.append_child (b.encode class_universal type_constructed tag_sequence nil_value)
        (b.new_string class_universal type_primitive tag_octet_string control_type)

  -- `if c.Criticality`
  abbrev pub append_criticality : Bool → Packet → Packet
  append_criticality true p =
      b.append_child p (b.new_boolean class_universal type_primitive tag_boolean true)
  append_criticality false p = p

  -- `if c.ControlValue != ""`
  abbrev pub append_value : Text → Packet → Packet
  append_value [] p = p
  append_value (c ∷ s) p =
      b.append_child p (b.new_string class_universal type_primitive tag_octet_string (c ∷ s))

  -- The value of a policy control around the packet in its sequence.
  abbrev pub append_policy : Packet → Packet → Packet
  append_policy inner p = b.append_child p (
      b.append_child (b.encode class_universal type_primitive tag_octet_string nil_value)
        (b.append_child (b.encode class_universal type_constructed tag_sequence nil_value) inner))

  -- A warning, its choice being `tag`.
  abbrev pub warning : ℕ → ℤ → Packet
  warning tag n =
      b.append_child (b.encode class_context type_constructed 0 nil_value)
        (b.new_integer class_context type_primitive tag (int64 n))

  -- `ControlBeheraPasswordPolicy.Encode`
  abbrev pub encode_policy : BeheraPasswordPolicy → Packet
  encode_policy c =
      let packet = begin_control control_type_behera_password_policy in
      if is_nonneg c.grace
      then append_policy (warning 1 c.grace) packet
      else if is_nonneg c.expire
      then append_policy (warning 0 c.expire) packet
      else if is_nonneg c.error
      then append_policy (b.new_integer class_context type_primitive 1 (int8 c.error)) packet
      else packet

  -- The cookie's packet, with its `Value` and `Data` written behind `ber.Encode`.
  abbrev pub write_cookie : Text → Packet → Packet
  write_cookie cookie (node c t g v d ps) = node c t g (byte_slice cookie) (d ++ cookie) ps

  -- `ControlPaging.Encode`
  abbrev pub encode_paging : ℕ → Text → Packet
  encode_paging paging_size cookie =
      let size =
        b.new_integer class_universal type_primitive tag_integer (int64 (pos paging_size)) in
      let jar =
        write_cookie cookie (b.encode class_universal type_primitive tag_octet_string nil_value) in
      let seq =
        b.append_child
          (b.append_child (b.encode class_universal type_constructed tag_sequence nil_value) size)
          jar in
      b.append_child (begin_control control_type_paging)
        (b.append_child (b.encode class_universal type_primitive tag_octet_string nil_value) seq)

  abbrev pub encode_string : Text → Bool → Text → Packet
  encode_string t c v = append_value v (append_criticality c (begin_control t))

  abbrev pub encode_manage_dsa_it : Bool → Packet
  encode_manage_dsa_it c = append_criticality c (begin_control control_type_manage_dsa_it)

  abbrev pub encode_microsoft_notification : Packet
  encode_microsoft_notification = begin_control control_type_microsoft_notification

  abbrev pub encode_microsoft_server_link_ttl : Packet
  encode_microsoft_server_link_ttl = begin_control control_type_microsoft_server_link_ttl

  abbrev pub encode_microsoft_show_deleted : Packet
  encode_microsoft_show_deleted = begin_control control_type_microsoft_show_deleted

  abbrev pub encode_must_change : Packet
  encode_must_change = begin_control control_type_vchu_password_must_change

  abbrev pub encode_warning : ℤ → Packet
  encode_warning e =
      b.append_child (begin_control control_type_vchu_password_warning)
        (b.new_string class_universal type_primitive tag_octet_string (format_int e))

  -- `Encode` of the interface
  unfoldable pub encode_control : Control → Packet
  encode_control (control_string t c v) = encode_string t c v
  encode_control (control_manage_dsa_it c) = encode_manage_dsa_it c
  encode_control control_microsoft_notification = encode_microsoft_notification
  encode_control control_microsoft_server_link_ttl = encode_microsoft_server_link_ttl
  encode_control control_microsoft_show_deleted = encode_microsoft_show_deleted
  encode_control (control_behera_password_policy p) = encode_policy p
  encode_control (control_vchu_password_must_change m) = encode_must_change
  encode_control (control_vchu_password_warning e) = encode_warning e
  encode_control (control_paging n c) = encode_paging n c

  -- The loop of `encodeControls`.
  abbrev pub append_controls : Packet → List Control → Packet
  append_controls packet [] = packet
  append_controls packet (c ∷ cs) = append_controls (b.append_child packet (encode_control c)) cs

  unfoldable pub encode_controls : List Control → Packet
  encode_controls controls =
      append_controls (b.encode class_context type_constructed 0 nil_value) controls
