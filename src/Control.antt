-- ===== src/Control.antt =====
-- control.go: the LDAP controls and their constructors. `Control` is the interface; each
-- constructor is one of the types that implement it.
pub mod Encoding
pub mod Codec
pub mod RoundTrip
pub mod Policy
pub mod Descriptions
pub mod Printing
use gldap.Base.{
  Bool, List, Text, [], codes, false, get_or, if◌then◌else◌, int_eq, is_empty, ltb, minus_one,
  negsuc, not, pos, to_int8, ℕ, ℤ, ◌&&◌, ◌∷◌,
}
use gldap.Outcome.{Outcome, err, invalid_parameter, ok}
use gldap.Options.{GoOption}
use gldap.Options.Apply.{get_control_opts, with_control_value, with_criticality, with_error_code}

abbrev pub control_type_paging : Text
control_type_paging = codes "1.2.840.113556.1.4.319"

abbrev pub control_type_behera_password_policy : Text
control_type_behera_password_policy = codes "1.3.6.1.4.1.42.2.27.8.5.1"

abbrev pub control_type_vchu_password_must_change : Text
control_type_vchu_password_must_change = codes "2.16.840.1.113730.3.4.4"

abbrev pub control_type_vchu_password_warning : Text
control_type_vchu_password_warning = codes "2.16.840.1.113730.3.4.5"

abbrev pub control_type_manage_dsa_it : Text
control_type_manage_dsa_it = codes "2.16.840.1.113730.3.4.2"

abbrev pub control_type_microsoft_notification : Text
control_type_microsoft_notification = codes "1.2.840.113556.1.4.528"

abbrev pub control_type_microsoft_show_deleted : Text
control_type_microsoft_show_deleted = codes "1.2.840.113556.1.4.417"

abbrev pub control_type_microsoft_server_link_ttl : Text
control_type_microsoft_server_link_ttl = codes "1.2.840.113556.1.4.2309"

-- `ControlBeheraPasswordPolicy`: `error` is an int8, the other numbers are int64.
pub record BeheraPasswordPolicy : Type 0 where
  pub expire : ℤ
  pub grace : ℤ
  pub error : ℤ
  pub error_string : Text

-- `PagingSize` is a uint32, `Expire` an int64.
pub data Control : Type 0 where
  control_string : (control_type : Text) (criticality : Bool) (control_value : Text) → Control
  control_manage_dsa_it : (criticality : Bool) → Control
  control_microsoft_notification : Control
  control_microsoft_server_link_ttl : Control
  control_microsoft_show_deleted : Control
  control_behera_password_policy : BeheraPasswordPolicy → Control
  control_vchu_password_must_change : (must_change : Bool) → Control
  control_vchu_password_warning : (expire : ℤ) → Control
  control_paging : (paging_size : ℕ) (cookie : Text) → Control

unfoldable pub get_control_type : Control → Text
get_control_type (control_string t c v) = t
get_control_type (control_manage_dsa_it c) = control_type_manage_dsa_it
get_control_type control_microsoft_notification = control_type_microsoft_notification
get_control_type control_microsoft_server_link_ttl = control_type_microsoft_server_link_ttl
get_control_type control_microsoft_show_deleted = control_type_microsoft_show_deleted
get_control_type (control_behera_password_policy p) = control_type_behera_password_policy
get_control_type (control_vchu_password_must_change m) = control_type_vchu_password_must_change
get_control_type (control_vchu_password_warning e) = control_type_vchu_password_warning
get_control_type (control_paging n c) = control_type_paging

-- `BeheraPasswordPolicyErrorMap`, with "" for a missing key.
abbrev pub behera_error_texts : List Text
behera_error_texts =
    codes "Password expired"
    ∷ codes "Account locked"
    ∷ codes "Password must be changed"
    ∷ codes "Policy prevents password modification"
    ∷ codes "Policy requires old password in order to change password"
    ∷ codes "Password fails quality checks"
    ∷ codes "Password is too short for policy"
    ∷ codes "Password has been changed too recently"
    ∷ codes "New password is in list of old passwords"
    ∷ []

unfoldable pub behera_error_string : ℤ → Text
behera_error_string (pos n) = get_or behera_error_texts n []
behera_error_string (negsuc n) = []

-- `opts.withErrorCode > 8`
abbrev pub above_8 : ℤ → Bool
above_8 (pos n) = ltb 8 n
above_8 (negsuc n) = false

-- `NewControlString`
unfoldable pub new_control_string : Text → List GoOption → Outcome Control
new_control_string control_type opt =
    let opts = get_control_opts opt in
    if is_empty control_type
    then err invalid_parameter
    else ok (control_string control_type opts.with_criticality opts.with_control_value)

-- `NewControlManageDsaIT`
unfoldable pub new_control_manage_dsa_it : List GoOption → Outcome Control
new_control_manage_dsa_it opt =
    let opts = get_control_opts opt in ok (control_manage_dsa_it opts.with_criticality)

-- `NewControlPaging`
unfoldable pub new_control_paging : ℕ → List GoOption → Outcome Control
new_control_paging paging_size opt = ok (control_paging paging_size [])

-- `errorString` is set only with a code.
abbrev set_error_string : ℤ → BeheraPasswordPolicy → BeheraPasswordPolicy
set_error_string code c =
    if int_eq code minus_one
    then c
    else record c { error_string = behera_error_string (to_int8 code) }

-- `NewControlBeheraPasswordPolicy`, on the three settings that it reads from the options.
unfoldable pub policy_of : (grace expire error_code : ℤ) → Outcome BeheraPasswordPolicy
policy_of grace expire error_code =
    let has_grace = not (int_eq grace minus_one) in
    let has_expire = not (int_eq expire minus_one) in
    let has_code = not (int_eq error_code minus_one) in
    if has_grace && has_expire
    then err invalid_parameter
    else if has_grace && has_code
    then err invalid_parameter
    else if has_expire && has_code
    then err invalid_parameter
    else if above_8 error_code
    then err invalid_parameter
    else ok (
        set_error_string error_code (record {
          expire = expire;
          grace = grace;
          error = to_int8 error_code;
          error_string = [];
        }))

unfoldable pub new_control_behera_password_policy : List GoOption → Outcome BeheraPasswordPolicy
unfolding policy_of
new_control_behera_password_policy opt =
    let opts = get_control_opts opt in
    policy_of opts.with_grace opts.with_expire opts.with_error_code

-- `SetCookie`
unfoldable pub set_cookie : Text → Control → Control
set_cookie cookie (control_paging n c) = control_paging n cookie
set_cookie cookie c = c

-- The controls of Microsoft have no options.
abbrev pub new_control_microsoft_notification : List GoOption → Outcome Control
new_control_microsoft_notification opt = ok control_microsoft_notification

abbrev pub new_control_microsoft_server_link_ttl : List GoOption → Outcome Control
new_control_microsoft_server_link_ttl opt = ok control_microsoft_server_link_ttl

abbrev pub new_control_microsoft_show_deleted : List GoOption → Outcome Control
new_control_microsoft_show_deleted opt = ok control_microsoft_show_deleted

-- `Grace`, `Expire` and `ErrorCode` of a policy; an int has 64 bits here.
abbrev pub grace_of : BeheraPasswordPolicy → ℤ
grace_of c = c.grace

abbrev pub expire_of : BeheraPasswordPolicy → ℤ
expire_of c = c.expire

abbrev pub error_code_of : BeheraPasswordPolicy → ℤ × Text
error_code_of c = (c.error, c.error_string)
