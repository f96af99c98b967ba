-- ===== src/Options/Apply.antt =====
-- The options themselves, and the functions that apply them to the defaults.
use mathlib.Core.List.{foldl}
use gldap.Base.{ℕ, Text, ℤ, signed, ◌%◌, ◌^◌, Bool, true, Option, none, some, List}
use gldap.Options.{
  GeneralOptions, ControlOptions, MessageOptions, ResponseOptions, RouteOptions, ConfigOptions,
  Target, general, control, message, response, route, config, GoOption, general_defaults,
  control_defaults, message_defaults, response_defaults, route_defaults, config_defaults,
}

-- The two lines of the loop in `applyOpts`.
abbrev pub apply_opt : Target → GoOption → Target
apply_opt t none = t
apply_opt t (some o) = o t

abbrev pub apply_opts : Target → List GoOption → Target
apply_opts = foldl apply_opt

-- `getXOpts` reads the struct back through its pointer. No option changes which struct that is, so
-- the last clause of each reader is not reached from the `with_` options below.
abbrev pub read_general : Target → GeneralOptions
read_general (general o) = o
read_general _ = general_defaults

abbrev pub read_control : Target → ControlOptions
read_control (control o) = o
read_control _ = control_defaults

abbrev pub read_message : Target → MessageOptions
read_message (message o) = o
read_message _ = message_defaults

abbrev pub read_response : Target → ResponseOptions
read_response (response o) = o
read_response _ = response_defaults

abbrev pub read_route : Target → RouteOptions
read_route (route o) = o
read_route _ = route_defaults

abbrev pub read_config : Target → ConfigOptions
read_config (config o) = o
read_config _ = config_defaults

abbrev pub get_general_opts : List GoOption → GeneralOptions
get_general_opts opt = read_general (apply_opts (general general_defaults) opt)

abbrev pub get_control_opts : List GoOption → ControlOptions
get_control_opts opt = read_control (apply_opts (control control_defaults) opt)

abbrev pub get_message_opts : List GoOption → MessageOptions
get_message_opts opt = read_message (apply_opts (message message_defaults) opt)

abbrev pub get_response_opts : List GoOption → ResponseOptions
get_response_opts opt = read_response (apply_opts (response response_defaults) opt)

abbrev pub get_route_opts : List GoOption → RouteOptions
get_route_opts opt = read_route (apply_opts (route route_defaults) opt)

abbrev pub get_config_opts : List GoOption → ConfigOptions
get_config_opts opt = read_config (apply_opts (config config_defaults) opt)

-- An option made for one struct, as a function on any.
abbrev on_general : (GeneralOptions → GeneralOptions) → Target → Target
on_general f (general o) = general (f o)
on_general f t = t

-- An option made for one struct, as a function on any.
abbrev on_control : (ControlOptions → ControlOptions) → Target → Target
on_control f (control o) = control (f o)
on_control f t = t

-- An option made for one struct, as a function on any.
abbrev on_message : (MessageOptions → MessageOptions) → Target → Target
on_message f (message o) = message (f o)
on_message f t = t

-- An option made for one struct, as a function on any.
abbrev on_response : (ResponseOptions → ResponseOptions) → Target → Target
on_response f (response o) = response (f o)
on_response f t = t

-- An option made for one struct, as a function on any.
abbrev on_route : (RouteOptions → RouteOptions) → Target → Target
on_route f (route o) = route (f o)
on_route f t = t

-- An option made for one struct, as a function on any.
abbrev on_config : (ConfigOptions → ConfigOptions) → Target → Target
on_config f (config o) = config (f o)
on_config f t = t

-- `int(x)` of a uint, both of 64 bits.
abbrev pub to_int : ℕ → ℤ
to_int x = signed 63 (x % 2 ^ 64)

-- A nil writer is not taken over.
abbrev pub with_writer : Option ℕ → GoOption
with_writer none = some (λ t. t)
with_writer (some w) = some (on_general (λ o. record o { with_writer = some w }))

abbrev pub with_grace_auth_ns_remaining : ℕ → GoOption
with_grace_auth_ns_remaining x = some (on_control (λ o. record o { with_grace = to_int x }))

abbrev pub with_seconds_before_expiration : ℕ → GoOption
with_seconds_before_expiration x = some (on_control (λ o. record o { with_expire = to_int x }))

abbrev pub with_error_code : ℕ → GoOption
with_error_code x = some (on_control (λ o. record o { with_error_code = to_int x }))

abbrev pub with_criticality : Bool → GoOption
with_criticality x = some (on_control (λ o. record o { with_criticality = x }))

abbrev pub with_control_value : Text → GoOption
with_control_value x = some (on_control (λ o. record o { with_control_value = x }))

abbrev pub with_min_children : ℕ → GoOption
with_min_children x = some (on_message (λ o. record o { with_min_children = some x }))

abbrev pub with_len_children : ℕ → GoOption
with_len_children x = some (on_message (λ o. record o { with_len_children = some x }))

abbrev pub with_assert_child : ℕ → GoOption
with_assert_child x = some (on_message (λ o. record o { with_assert_child = some x }))

abbrev pub with_tag : ℕ → GoOption
with_tag x = some (on_message (λ o. record o { with_tag = some x }))

abbrev pub with_diagnostic_message : Text → GoOption
with_diagnostic_message x = some (on_response (λ o. record o { with_diagnostic_message = x }))

abbrev pub with_matched_dn : Text → GoOption
with_matched_dn x = some (on_response (λ o. record o { with_matched_dn = x }))

abbrev pub with_response_code : ℤ → GoOption
with_response_code x = some (on_response (λ o. record o { with_response_code = some x }))

abbrev pub with_application_code : ℤ → GoOption
with_application_code x = some (on_response (λ o. record o { with_application_code = some x }))

abbrev pub with_attributes : List (Text × List Text) → GoOption
with_attributes x = some (on_response (λ o. record o { with_attributes = x }))

abbrev pub with_label : Text → GoOption
with_label x = some (on_route (λ o. record o { with_label = x }))

abbrev pub with_base_dn : Text → GoOption
with_base_dn x = some (on_route (λ o. record o { with_base_dn = x }))

abbrev pub with_filter : Text → GoOption
with_filter x = some (on_route (λ o. record o { with_filter = x }))

abbrev pub with_scope : ℤ → GoOption
with_scope x = some (on_route (λ o. record o { with_scope = x }))

abbrev pub with_logger : Option ℕ → GoOption
with_logger x = some (on_config (λ o. record o { with_logger = x }))

abbrev pub with_tls_config : Option ℕ → GoOption
with_tls_config x = some (on_config (λ o. record o { with_tls_config = x }))

abbrev pub with_read_timeout : ℤ → GoOption
with_read_timeout x = some (on_config (λ o. record o { with_read_timeout = x }))

abbrev pub with_write_timeout : ℤ → GoOption
with_write_timeout x = some (on_config (λ o. record o { with_write_timeout = x }))

abbrev pub with_on_close : Option ℕ → GoOption
with_on_close x = some (on_config (λ o. record o { with_on_close = x }))

abbrev pub with_disable_panic_recovery : GoOption
with_disable_panic_recovery =
    some (on_config (λ o. record o { with_disable_panic_recovery = true }))
