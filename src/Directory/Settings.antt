-- ===== src/Directory/Settings.antt =====
-- testdirectory/options.go: the options of the directory for tests and their defaults. A Go option is a
-- function on an `interface{}`; all options structs of the package are of one type, so it is one on
-- that type. Loggers are numbers that stand for the object, and a nil list differs from an empty one.
use mathlib.Core.List.{foldl}
use gldap.Base.{Bool, List, Option, Text, [], codes, false, none, pos, some, true, ℕ, ℤ, ◌||◌, ◌∷◌}
use gldap.Attribute.{Entry}
use gldap.Directory.Search.{is_space, trim}

-- `DefaultUserAttr` and the other defaults of testdirectory/directory.go
abbrev pub default_user_attr : Text
default_user_attr = codes "cn"

abbrev pub default_group_attr : Text
default_group_attr = codes "cn"

abbrev pub default_user_dn : Text
default_user_dn = codes "ou=people,dc=example,dc=org"

abbrev pub default_group_dn : Text
default_group_dn = codes "ou=groups,dc=example,dc=org"

pub record Defaults : Type 0 where
  pub user_attr : Text
  pub group_attr : Text
  pub users : Option (List Entry)
  pub groups : Option (List Entry)
  pub token_groups : List (Text × List Entry)
  pub user_dn : Text
  pub group_dn : Text
  pub allow_anonymous_bind : Bool
  pub upn_domain : Text

-- `options`
pub record TestOptions : Type 0 where
  pub with_port : ℤ
  pub with_host : Text
  pub with_logger : Option ℕ
  pub with_no_tls : Bool
  pub with_mtls : Bool
  pub with_disable_panic_recovery : Bool
  pub with_defaults : Defaults
  pub with_members_of : List Text
  pub with_token_group_sids : List Text
  pub with_first : Bool

-- `Option`; `none` is a nil option.
abbrev pub TestOption : Type 0
TestOption = Option (TestOptions → TestOptions)

-- `defaults`, on the logger that it makes.
unfoldable pub test_defaults : (debug_logger : ℕ) → TestOptions
test_defaults debug_logger = record {
  with_port = pos 0;
  with_host = codes "localhost";
  with_logger = some debug_logger;
  with_no_tls = false;
  with_mtls = false;
  with_disable_panic_recovery = false;
  with_defaults = record {
    user_attr = default_user_attr;
    group_attr = default_group_attr;
    users = none;
    groups = none;
    token_groups = [];
    user_dn = default_user_dn;
    group_dn = default_group_dn;
    allow_anonymous_bind = false;
    upn_domain = [];
  };
  with_members_of = [];
  with_token_group_sids = [];
  with_first = false;
}

-- The two lines of the loop in `applyOpts`.
abbrev pub apply_test_opt : TestOptions → TestOption → TestOptions
apply_test_opt opts none = opts
apply_test_opt opts (some o) = o opts

abbrev pub apply_test_opts : TestOptions → List TestOption → TestOptions
apply_test_opts = foldl apply_test_opt

unfoldable pub get_test_opts : (debug_logger : ℕ) → List TestOption → TestOptions
get_test_opts debug_logger opt = apply_test_opts (test_defaults debug_logger) opt

-- `if given != "" { old = given }`, and its like for slices and maps.
abbrev pub text_or : Text → Text → Text
text_or [] old = old
text_or (c ∷ s) old = c ∷ s

abbrev pub entries_or : Option (List Entry) → Option (List Entry) → Option (List Entry)
entries_or none old = old
entries_or (some es) old = some es

abbrev pub map_or : List (Text × List Entry) → List (Text × List Entry) → List (Text × List Entry)
map_or [] old = old
map_or (t ∷ ts) old = t ∷ ts

-- What `WithDefaults` makes of the defaults that stand.
unfoldable pub override_defaults : Defaults → Defaults → Defaults
override_defaults given old = record {
  user_attr = text_or given.user_attr old.user_attr;
  group_attr = text_or given.group_attr old.group_attr;
  users = entries_or given.users old.users;
  groups = entries_or given.groups old.groups;
  token_groups = map_or given.token_groups old.token_groups;
  user_dn = text_or given.user_dn old.user_dn;
  group_dn = text_or given.group_dn old.group_dn;
  allow_anonymous_bind = given.allow_anonymous_bind || old.allow_anonymous_bind;
  upn_domain = text_or given.upn_domain old.upn_domain;
}

-- `WithDefaults`, which does nothing for nil.
abbrev pub with_defaults : Option Defaults → TestOption
with_defaults none = some (λ o. o)
with_defaults (some given) =
    some (λ o. record o { with_defaults = override_defaults given o.with_defaults })

abbrev pub with_mtls : TestOption
with_mtls = some (λ o. record o { with_mtls = true })

abbrev pub with_no_tls : TestOption
with_no_tls = some (λ o. record o { with_no_tls = true })

abbrev pub with_test_logger : Option ℕ → TestOption
with_test_logger l = some (λ o. record o { with_logger = l })

abbrev pub with_port : ℤ → TestOption
with_port port = some (λ o. record o { with_port = port })

abbrev pub with_host : Text → TestOption
with_host host = some (λ o. record o { with_host = trim is_space host })

abbrev pub with_first : TestOption
with_first = some (λ o. record o { with_first = true })

abbrev pub with_members_of : List Text → TestOption
with_members_of members_of = some (λ o. record o { with_members_of = members_of })

abbrev pub with_token_groups : List Text → TestOption
with_token_groups sids = some (λ o. record o { with_token_group_sids = sids })

-- `WithDisablePanicRecovery`, which does not look at its argument.
abbrev pub with_test_disable_panic_recovery : Bool → TestOption
with_test_disable_panic_recovery disable =
    some (λ o. record o { with_disable_panic_recovery = true })
