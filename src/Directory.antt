-- ===== src/Directory.antt =====
-- testdirectory/directory.go: the directory for tests, a server with handlers over lists of entries.
-- The texts here are ASCII, which decides what `strings.TrimSpace` trims.
pub mod Login
pub mod Deletes
pub mod Changes
pub mod Accounts
pub mod Plain
pub mod Search
pub mod Filters
pub mod Handlers
pub mod Searching
pub mod Settings
pub mod Start
pub mod Fixtures
pub mod Logger
pub mod Update
pub mod Authentication
pub mod Updates
pub mod Additions
use gldap.Base.{Bool, List, Option, Text, ℕ}
use gldap.Attribute.{Entry}
use gldap.Control.{Control}

-- The fields of `Directory` that its handlers use. The entries are distinct objects, `token_groups`
-- lists the entries of a Go map by their keys, and `server` is the TLS configuration.
pub record Directory : Type 0 where
  pub users : List Entry
  pub groups : List Entry
  pub token_groups : List (Text × List Entry)
  pub allow_anonymous_bind : Bool
  pub controls : List Control
  pub user_dn : Text
  pub group_dn : Text
  pub server : Option ℕ

-- `Controls`, `Users`, `Groups`, `TokenGroups` and `AllowAnonymousBind` read the fields; these set them.
abbrev pub replace_controls : List Control → Directory → Directory
replace_controls controls d = record d { controls = controls }

abbrev pub set_users : List Entry → Directory → Directory
set_users users d = record d { users = users }

abbrev pub set_groups : List Entry → Directory → Directory
set_groups groups d = record d { groups = groups }

abbrev pub set_token_groups : List (Text × List Entry) → Directory → Directory
set_token_groups token_groups d = record d { token_groups = token_groups }

abbrev pub set_allow_anonymous_bind : Bool → Directory → Directory
set_allow_anonymous_bind enabled d = record d { allow_anonymous_bind = enabled }
