-- ===== src/Options.antt =====
-- option.go and the *_options.go files: functional options. A Go option is a function on an
-- `interface{}` that changes the options struct it was made for and leaves any other alone; a nil
-- option is skipped. Writers, loggers, TLS configurations and callbacks are only handed on by the
-- options, so here they are numbers that stand for the object; a Go map is an association list.
pub mod Apply
use gldap.Base.{
  ℕ, Text, ℤ, pos, minus_one, Bool, true, false, Option, none, some, List, [], ◌∷◌, codes,
}

pub record GeneralOptions : Type 0 where
  pub with_writer : Option ℕ

pub record ControlOptions : Type 0 where
  pub with_grace : ℤ
  pub with_expire : ℤ
  pub with_error_code : ℤ
  pub with_criticality : Bool
  pub with_control_value : Text

pub record MessageOptions : Type 0 where
  pub with_min_children : Option ℕ
  pub with_len_children : Option ℕ
  pub with_assert_child : Option ℕ
  pub with_tag : Option ℕ

pub record ResponseOptions : Type 0 where
  pub with_diagnostic_message : Text
  pub with_matched_dn : Text
  pub with_response_code : Option ℤ
  pub with_application_code : Option ℤ
  pub with_attributes : List (Text × List Text)

pub record RouteOptions : Type 0 where
  pub with_label : Text
  pub with_base_dn : Text
  pub with_filter : Text
  pub with_scope : ℤ

pub record ConfigOptions : Type 0 where
  pub with_tls_config : Option ℕ
  pub with_logger : Option ℕ
  pub with_read_timeout : ℤ
  pub with_write_timeout : ℤ
  pub with_disable_panic_recovery : Bool
  pub with_on_close : Option ℕ

-- The `interface{}` that an option receives: a pointer to one of the structs.
pub data Target : Type 0 where
  general : GeneralOptions → Target
  control : ControlOptions → Target
  message : MessageOptions → Target
  response : ResponseOptions → Target
  route : RouteOptions → Target
  config : ConfigOptions → Target

-- `type Option func(interface{})`; `none` is a nil option.
abbrev pub GoOption : Type 0
GoOption = Option (Target → Target)

abbrev pub general_defaults : GeneralOptions
general_defaults = record { with_writer = none }

abbrev pub control_defaults : ControlOptions
control_defaults = record {
  with_grace = minus_one;
  with_expire = minus_one;
  with_error_code = minus_one;
  with_criticality = false;
  with_control_value = [];
}

abbrev pub message_defaults : MessageOptions
message_defaults = record {
  with_min_children = none;
  with_len_children = none;
  with_assert_child = none;
  with_tag = none;
}

abbrev pub response_defaults : ResponseOptions
response_defaults = record {
  with_diagnostic_message = codes "Unused";
  with_matched_dn = codes "Unused";
  with_response_code = none;
  with_application_code = none;
  with_attributes = [];
}

abbrev pub route_defaults : RouteOptions
route_defaults = record { with_label = []; with_base_dn = []; with_filter = []; with_scope = pos 0 }

abbrev pub config_defaults : ConfigOptions
config_defaults = record {
  with_tls_config = none;
  with_logger = none;
  with_read_timeout = pos 0;
  with_write_timeout = pos 0;
  with_disable_panic_recovery = false;
  with_on_close = none;
}
