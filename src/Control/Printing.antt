-- ===== src/Control/Printing.antt =====
-- The `String` methods of control.go. `%q` quotes texts of ASCII and other bytes that are no part of a
-- printable character.
use gldap.Base.{
  Bool, Text, [], codes, false, if◌then◌else◌, ltb, text_eq, true, ℕ, ℤ, ◌%◌, ◌++◌, ◌+◌, ◌/◌, ◌==◌,
  ◌||◌, ◌∷◌,
}
use gldap.Strconv.{format_int, format_uint}
use gldap.Control.{
  BeheraPasswordPolicy, Control, control_behera_password_policy, control_manage_dsa_it,
  control_microsoft_notification, control_microsoft_server_link_ttl, control_microsoft_show_deleted,
  control_paging, control_string, control_type_behera_password_policy, control_type_manage_dsa_it,
  control_type_microsoft_notification, control_type_microsoft_server_link_ttl,
  control_type_microsoft_show_deleted, control_type_paging, control_type_vchu_password_must_change,
  control_type_vchu_password_warning, control_vchu_password_must_change,
  control_vchu_password_warning,
}

-- `ControlTypeMap`, with "" for a missing key.
unfoldable pub control_type_text : Text → Text
control_type_text t =
    if text_eq t control_type_paging
    then codes "Paging"
    else if text_eq t control_type_behera_password_policy
    then codes "Password Policy - Behera Draft"
    else if text_eq t control_type_manage_dsa_it
    then codes "Manage DSA IT"
    else if text_eq t control_type_microsoft_notification
    then codes "Change Notification - Microsoft"
    else if text_eq t control_type_microsoft_show_deleted
    then codes "Show Deleted Objects - Microsoft"
    else if text_eq t control_type_microsoft_server_link_ttl
    then codes "Return TTL-DNs for link values with associated expiry times - Microsoft"
    else []

abbrev hex_digit : ℕ → ℕ
hex_digit n = if ltb n 10 then b'0' + n else 87 + n

-- One byte within the quotes of `%q`.
unfoldable pub quote_byte : ℕ → Text
quote_byte c =
    if c == 34 || c == 92
    then 92 ∷ c ∷ []
    else if c == 7
    then codes "\\a"
    else if c == 8
    then codes "\\b"
    else if c == 12
    then codes "\\f"
    else if c == 10
    then codes "\\n"
    else if c == 13
    then codes "\\r"
    else if c == 9
    then codes "\\t"
    else if c == 11
    then codes "\\v"
    else if ltb c 32 || ltb 126 c
    then codes "\\x" ++ hex_digit (c / 16) ∷ hex_digit (c % 16) ∷ []
    else c ∷ []

abbrev quote_bytes : Text → Text
quote_bytes [] = []
quote_bytes (c ∷ s) = quote_byte c ++ quote_bytes s

-- `%q`
unfoldable pub quoted : Text → Text
quoted s = 34 ∷ quote_bytes s ++ 34 ∷ []

-- `%t`
abbrev pub format_bool : Bool → Text
format_bool true = codes "true"
format_bool false = codes "false"

-- `"Control Type: %s (%q)"`, on the type's text
unfoldable pub type_line : Text → Text
type_line t = codes "Control Type: " ++ control_type_text t ++ codes " (" ++ quoted t ++ codes ")"

abbrev pub criticality_line : Text → Bool → Text
criticality_line t c = type_line t ++ codes "  Criticality: " ++ format_bool c

-- The `String` methods.
abbrev pub string_text : Text → Bool → Text → Text
string_text t c v = criticality_line t c ++ codes "  Control Value: " ++ v

abbrev pub manage_dsa_it_text : Bool → Text
manage_dsa_it_text c = criticality_line control_type_manage_dsa_it c

abbrev pub microsoft_notification_text : Text
microsoft_notification_text = type_line control_type_microsoft_notification

abbrev pub microsoft_server_link_ttl_text : Text
microsoft_server_link_ttl_text = type_line control_type_microsoft_server_link_ttl

abbrev pub microsoft_show_deleted_text : Text
microsoft_show_deleted_text = type_line control_type_microsoft_show_deleted

abbrev pub policy_text : BeheraPasswordPolicy → Text
policy_text p =
    criticality_line control_type_behera_password_policy false
    ++ codes "  Expire: "
    ++ format_int p.expire
    ++ codes "  Grace: "
    ++ format_int p.grace
    ++ codes "  Error: "
    ++ format_int p.error
    ++ codes ", ErrorString: "
    ++ p.error_string

abbrev pub must_change_text : Bool → Text
must_change_text m =
    criticality_line control_type_vchu_password_must_change false
    ++ codes "  MustChange: "
    ++ format_bool m

abbrev pub warning_text : ℤ → Text
warning_text e =
    criticality_line control_type_vchu_password_warning false ++ codes "  Expire: " ++ format_int e

abbrev pub paging_text : ℕ → Text → Text
paging_text n c =
    criticality_line control_type_paging false
    ++ codes "  PagingSize: "
    ++ format_uint n
    ++ codes "  Cookie: "
    ++ quoted c

-- `String` of the interface
unfoldable pub control_text : Control → Text
control_text (control_string t c v) = string_text t c v
control_text (control_manage_dsa_it c) = manage_dsa_it_text c
control_text control_microsoft_notification = microsoft_notification_text
control_text control_microsoft_server_link_ttl = microsoft_server_link_ttl_text
control_text control_microsoft_show_deleted = microsoft_show_deleted_text
control_text (control_behera_password_policy p) = policy_text p
control_text (control_vchu_password_must_change m) = must_change_text m
control_text (control_vchu_password_warning e) = warning_text e
control_text (control_paging n c) = paging_text n c
