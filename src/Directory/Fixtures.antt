-- ===== src/Directory/Fixtures.antt =====
-- testdirectory/testing.go: the entries of users and groups that tests are given, on the options that
-- are in force. Certificates and ports are left out.
pub mod Accounts
use gldap.Base.{List, Text, [], codes, if◌then◌else◌, is_empty, not, ◌++◌, ◌∷◌}
use gldap.Attribute.{AttributeMap, Entry, new_entry}
use gldap.Directory.Settings.{Defaults, TestOptions, with_defaults, with_members_of}

-- `fmt.Sprintf("%s=%s,%s", attr, name, base)`
abbrev pub dn_of : Text → Text → Text → Text
dn_of attr name base = attr ++ codes "=" ++ name ++ codes "," ++ base

-- The DN of a user, in `NewUsers` and in `NewGroup`.
unfoldable pub user_dn_of : Defaults → Text → Text
user_dn_of d n =
    if not (is_empty d.upn_domain)
    then codes "userPrincipalName=" ++ n ++ codes "@" ++ d.upn_domain ++ codes "," ++ d.user_dn
    else dn_of d.user_attr n d.user_dn

-- `NewMemberOf`
unfoldable pub new_member_of : TestOptions → List Text → List Text
new_member_of opts [] = []
new_member_of opts (n ∷ ns) =
    dn_of opts.with_defaults.group_attr n opts.with_defaults.group_dn ∷ new_member_of opts ns

-- `if len(vs) > 0 { entryAttrs[name] = vs }`
abbrev pub given : Text → List Text → AttributeMap
given name [] = []
given name (v ∷ vs) = (name, v ∷ vs) ∷ []

-- The map of one user's attributes; a token group's SID becomes a string of the same bytes.
unfoldable pub user_attributes : TestOptions → Text → AttributeMap
user_attributes opts n =
    (codes "name", n ∷ [])
      ∷ (codes "email", (n ++ codes "@example.com") ∷ [])
      ∷ (codes "password", codes "password" ∷ [])
      ∷ given (codes "memberOf") opts.with_members_of
    ++ given (codes "tokenGroups") opts.with_token_group_sids

-- `NewUsers`
unfoldable pub new_users : TestOptions → List Text → List Entry
new_users opts [] = []
new_users opts (n ∷ ns) =
    new_entry (user_dn_of opts.with_defaults n) (user_attributes opts n) ∷ new_users opts ns

-- The DNs of the members that `NewGroup` is given.
unfoldable pub member_dns : TestOptions → List Text → List Text
member_dns opts [] = []
member_dns opts (n ∷ ns) = user_dn_of opts.with_defaults n ∷ member_dns opts ns

-- `NewGroup`
unfoldable pub new_group : TestOptions → Text → List Text → Entry
new_group opts group_name member_names =
    new_entry (dn_of opts.with_defaults.group_attr group_name opts.with_defaults.group_dn)
      ((codes "member", member_dns opts member_names) ∷ [])
