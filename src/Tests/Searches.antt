-- ===== src/Tests/Searches.antt =====
-- Runs of the directory for tests: its fixtures, its routes and its searches.
use gldap.Base.{[], codes, none, pos, refl, some, text_eq, true, ◌∷◌, ◌≡◌}
use gldap.Outcome.{ok}
use gldap.Ber.Model.{sample_ber}
use gldap.Codes.{result_success}
use gldap.Attribute.{
  Entry, get_attribute_values, insert_text, map_index, new_entry, new_entry_attribute, sort_texts,
  values_of,
}
use gldap.Message.{Message, SearchMessage, SimpleBindMessage, simple_auth_choice}
use gldap.Response.{Response, base_of}
use gldap.Request.{Request, bind_route_operation, get_search_message, get_simple_bind_message}
use gldap.Route.{Session}
use gldap.Mux.{Mux, serve, write_response}
use gldap.Directory.{Directory, set_groups, set_users}
use gldap.Directory.Search.{
  any_contained, clean, contains, find_all, has_prefix, match_filter, trim_left, trim_right,
  until_close, without_stars,
}
use gldap.Directory.Settings.{TestOptions, get_test_opts, test_defaults, with_no_tls}
use gldap.Directory.Handlers.{handle_bind}
use gldap.Directory.Searching.{handle_search_generic, handle_search_groups, handle_search_users}
use gldap.Directory.Searching.Found.{by_dn}
use gldap.Directory.Searching.Sent.{matching_groups, search-searched, searched, searched_generic}
use gldap.Directory.Start.{start_directory, start_mux}
use gldap.Directory.Start.Routing.{handler_for, serve-handler_for}
use gldap.Directory.Fixtures.{member_dns, new_group, new_users, user_dn_of}
use gldap.Directory.Fixtures.Accounts.{IsLogin, handle_bind-new_users}
use gldap.Tests.{no_unicode, sample_search, sample_writer, search_request_1}
use gldap.Tests.Serving.{search_request_1-IsConsistent}

abbrev pub company : TestOptions
company = get_test_opts 0 (with_no_tls ∷ [])

abbrev pub staff : Entry
staff = new_group company (codes "staff") (codes "alice" ∷ codes "bob" ∷ [])

abbrev pub company_directory : Directory
company_directory =
    set_groups (staff ∷ [])
      (set_users (new_users company (codes "bob" ∷ codes "alice" ∷ [])) (start_directory company 0))

abbrev pub company_state : Session Directory
company_state = record { state = company_directory; sent = []; write_ok = true; flush_ok = true }

abbrev pub alice_login : SimpleBindMessage
alice_login = record {
  id = pos 4;
  auth_choice = simple_auth_choice;
  user_name = codes "cn=alice,ou=people,dc=example,dc=org";
  password = codes "password";
  controls = [];
}

abbrev login_request : Request
login_request = record {
  id = pos 1;
  conn_id = pos 1;
  message = Message.simple_bind alice_login;
  route_op = bind_route_operation;
  extended_name = [];
}

alice_login-IsLogin : IsLogin company (codes "alice") alice_login
unfolding get_test_opts test_defaults user_dn_of
alice_login-IsLogin = record { is_simple = refl; names_user = refl; has_password = refl }

handle_bind-new_users_example :
    (resp : Response) × (handle_bind sample_ber sample_writer login_request company_state
      ≡ some (write_response sample_ber resp company_state))
    × ((base_of resp).code ≡ result_success)
unfolding get_simple_bind_message
handle_bind-new_users_example =
    handle_bind-new_users sample_ber sample_writer login_request alice_login company_state company
      (codes "bob" ∷ []) [] (codes "alice") refl alice_login-IsLogin refl

serve-handler_for_example :
    (m : Mux Directory) × (start_mux sample_ber none company_directory ≡ ok m)
    × (serve sample_ber no_unicode (some sample_writer) (some search_request_1) m company_state
        ≡ handler_for sample_ber no_unicode none company_directory search_request_1.message
            sample_writer search_request_1 company_state)
serve-handler_for_example =
    serve-handler_for sample_ber no_unicode none company_directory sample_writer search_request_1
      company_state search_request_1-IsConsistent

abbrev alice_search : SearchMessage
alice_search = record sample_search { filter = codes "(cn=alice)" }

abbrev alice_request : Request
alice_request = record search_request_1 { message = Message.search alice_search }

search-searched_example :
    (handle_search_users sample_ber sample_writer alice_request company_state
      ≡ some (
          searched sample_ber alice_request []
            (by_dn (codes "(cn=alice)") company_directory.users)
            company_state))
    × (handle_search_groups sample_ber sample_writer alice_request company_state
        ≡ some (
            searched sample_ber alice_request []
              (matching_groups (codes "(cn=alice)") (staff ∷ []))
              company_state))
    × (handle_search_generic sample_ber sample_writer alice_request company_state
        ≡ some (searched_generic sample_ber alice_request alice_search company_state))
unfolding get_search_message start_directory
search-searched_example =
    search-searched sample_ber sample_writer alice_request alice_search company_state refl
      (refl, refl)

-- The group is found once by its member.
staff_by_member : matching_groups (codes "(cn=alice)") (staff ∷ []) ≡ staff ∷ []
unfolding match_filter find_all any_contained clean without_stars trim_left trim_right contains
    has_prefix until_close new_group new_entry get_attribute_values values_of text_eq member_dns
    user_dn_of get_test_opts test_defaults sort_texts insert_text map_index new_entry_attribute
staff_by_member = refl
