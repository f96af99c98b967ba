-- ===== src/Tests/Accounts.antt =====
-- An account of the directory for tests.
use gldap.Base.{List, Text, [], codes, pos, refl, some, true, ◌++◌, ◌↔◌, ◌∷◌, ◌≡◌}
use gldap.Ber.Model.{sample_ber}
use gldap.Codes.{result_success}
use gldap.Attribute.{new_entry}
use gldap.Message.{AddMessage, DeleteMessage, Message, SimpleBindMessage, simple_auth_choice}
use gldap.Response.{Response, base_of}
use gldap.Request.{get_add_message, get_delete_message, get_simple_bind_message}
use gldap.Route.{Session}
use gldap.Route.Matching.{request_of}
use gldap.Mux.{write_response}
use gldap.Directory.{Directory}
use gldap.Directory.Search.{
  any_contained, clean, contains, find_all, has_prefix, in_parentheses, is_space, match_filter,
  trim, trim_left, trim_right, until_close, without_stars,
}
use gldap.Directory.Handlers.{handle_add, handle_bind, handle_delete}
use gldap.Directory.Additions.{last_vals}
use gldap.Directory.Plain.{match_filter_iff}
use gldap.Directory.Accounts.{handle_add-account}
use gldap.Directory.Updates.{NoMatch}
use gldap.Directory.Fixtures.{new_users, user_dn_of}
use gldap.Directory.Settings.{get_test_opts, test_defaults}
use gldap.Tests.{sample_writer}
use gldap.Tests.Searches.{company_state}

match_filter_iff_example :
    (match_filter (in_parentheses (codes "ou=people")) (codes "cn=alice,ou=people,dc=example")
      ≡ true)
    ↔ ((pre post : Text) × (codes "cn=alice,ou=people,dc=example"
          ≡ pre ++ trim is_space (codes "ou=people") ++ post))
match_filter_iff_example =
    match_filter_iff (codes "ou=people") (codes "cn=alice,ou=people,dc=example")
      (refl, (refl, (refl, (refl, (refl, (refl, (refl, (refl, (refl, tt)))))))))

abbrev carol_dn : Text
carol_dn = codes "cn=carol"

abbrev carol : AddMessage
carol = record {
  id = pos 1;
  dn = carol_dn;
  attributes = record { type = codes "password"; vals = codes "c4r0l" ∷ [] } ∷ [];
  controls = [];
}

abbrev carol_login : SimpleBindMessage
carol_login = record {
  id = pos 2;
  auth_choice = simple_auth_choice;
  user_name = carol_dn;
  password = codes "c4r0l";
  controls = [];
}

abbrev carol_leaves : DeleteMessage
carol_leaves = record { id = pos 3; dn = carol_dn; controls = [] }

carol-NoMatch : NoMatch (in_parentheses carol_dn) company_state.state.users
unfolding match_filter new_users any_contained find_all until_close contains new_entry user_dn_of
    get_test_opts test_defaults has_prefix clean trim_right trim_left without_stars
carol-NoMatch = (refl, (refl, tt))

handle_add-account_example :
    (t u : Session Directory) × (resp : Response) × (handle_add sample_ber sample_writer
        (request_of (pos 1) (pos 1) (Message.add carol))
        company_state
      ≡ some t)
    × (handle_bind sample_ber sample_writer
          (request_of (pos 2) (pos 1) (Message.simple_bind carol_login))
          t
        ≡ some (write_response sample_ber resp t))
    × (((base_of resp).code ≡ result_success) ↔ (
        (rest : List Text) × (last_vals (codes "password") carol.attributes []
          ≡ carol_login.password ∷ rest)))
    × (handle_delete sample_ber sample_writer
          (request_of (pos 3) (pos 1) (Message.delete carol_leaves))
          (write_response sample_ber resp t)
        ≡ some u)
    × (u.state ≡ company_state.state)
unfolding get_add_message get_simple_bind_message get_delete_message
handle_add-account_example =
    handle_add-account sample_ber sample_writer company_state
      (request_of (pos 1) (pos 1) (Message.add carol))
      (request_of (pos 2) (pos 1) (Message.simple_bind carol_login))
      (request_of (pos 3) (pos 1) (Message.delete carol_leaves)) carol carol_login carol_leaves refl
      refl refl (refl, (refl, (refl, (refl, (refl, (refl, (refl, (refl, tt)))))))) carol-NoMatch
      refl refl (λ e. cc e) refl
