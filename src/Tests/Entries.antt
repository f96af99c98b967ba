-- ===== src/Tests/Entries.antt =====
-- Runs of the directory for tests.
use gldap.Base.{List, Text, [], codes, false, none, pos, refl, some, true, ◌++◌, ◌↔◌, ◌∷◌, ◌≡◌, ◌≤◌}
use gldap.Outcome.{ok, panic}
use gldap.Ber.Model.{sample_ber}
use gldap.Codes.{result_entry_already_exists, result_success}
use gldap.Attribute.{Entry, EntryAttribute, get_attribute_values, new_entry_attribute}
use gldap.Message.{simple_bind}
use gldap.Response.{
  Response, base_of, general_response, set_diagnostic_message, set_matched_dn, set_result_code,
}
use gldap.Request.{Request, bind_route_operation, get_simple_bind_message}
use gldap.Route.{Session}
use gldap.Mux.{write_response}
use gldap.Directory.{Directory}
use gldap.Directory.Search.{
  any_contained, clean, contains, find_all, has_prefix, in_parentheses, match_filter, trim_left,
  trim_right, until_close, without_stars,
}
use gldap.Directory.Handlers.{add_answer, delete_answer, handle_bind, modify_answer}
use gldap.Directory.Authentication.{Authenticates, handle_bind-Authenticates}
use gldap.Directory.Updates.{IsOnlyMatch, NoMatch, delete_answer-user, modify_answer-group}
use gldap.Directory.Additions.{add_answer-cases, last_vals}
use gldap.Tests.{
  alice_dn, sample_add, sample_attribute, sample_bind, sample_change, sample_delete, sample_modify,
  sample_writer,
}
use gldap.Directory.Changes.{AreChanged, modify_answer-changed}
use gldap.Directory.Deletes.{commit, commit-stale, look_up}

abbrev alice : Entry
alice = record {
  dn = codes "cn=alice";
  attributes = new_entry_attribute (codes "password") (codes "fido" ∷ []) ∷ [];
}

abbrev bob : Entry
bob = record { dn = codes "cn=bob"; attributes = [] }

abbrev sample_directory : Directory
sample_directory = record {
  users = bob ∷ alice ∷ [];
  groups = [];
  allow_anonymous_bind = true;
  controls = [];
  token_groups = [];
  user_dn = codes "ou=people";
  group_dn = codes "ou=groups";
  server = none;
}

abbrev sample_state : Session Directory
sample_state = record { state = sample_directory; sent = []; write_ok = true; flush_ok = true }

abbrev bind_request_1 : Request
bind_request_1 = record {
  id = pos 1;
  conn_id = pos 1;
  message = simple_bind sample_bind;
  route_op = bind_route_operation;
  extended_name = [];
}

abbrev plain_response : Response
plain_response = general_response (record {
  base = record { message_id = pos 1; code = pos 32; diag_message = []; matched_dn = [] };
  application_code = pos 11;
})

handle_bind-Authenticates_example :
    (resp : Response) × (handle_bind sample_ber sample_writer bind_request_1 sample_state
      ≡ some (write_response sample_ber resp sample_state))
    × ((base_of resp).message_id ≡ pos 7)
    × (((base_of resp).code ≡ result_success) ↔ Authenticates sample_directory sample_bind)
unfolding get_simple_bind_message
handle_bind-Authenticates_example =
    handle_bind-Authenticates sample_ber sample_writer bind_request_1 sample_bind sample_state refl

only_alice : IsOnlyMatch (in_parentheses alice_dn) (bob ∷ []) [] alice
unfolding match_filter find_all any_contained clean without_stars trim_left trim_right contains
    has_prefix until_close
only_alice = record { none_before = (refl, tt); matches_it = refl; none_after = tt }

delete_answer-user_example :
    delete_answer sample_directory sample_delete plain_response
    ≡ (set_result_code result_success plain_response, record sample_directory { users = bob ∷ [] })
delete_answer-user_example =
    delete_answer-user sample_directory sample_delete plain_response (bob ∷ []) [] alice refl
      only_alice

modify_answer-changed_example :
    (bs : List EntryAttribute) × AreChanged (sample_change ∷ []) alice.attributes bs
    × (modify_answer sample_directory sample_modify plain_response ≡ (
      set_result_code result_success (set_matched_dn alice_dn plain_response),
      record sample_directory { users = bob ∷ record alice { attributes = bs } ∷ [] },
    ))
modify_answer-changed_example =
    modify_answer-changed sample_directory sample_modify plain_response (bob ∷ []) [] alice refl
      only_alice

abbrev no_entries : List Entry
no_entries = []

-- Two requests to delete the last user, which have both found it before one of them removes it.
commit-stale_example :
    (commit (look_up sample_directory sample_delete plain_response) plain_response sample_directory
      ≡ ok (delete_answer sample_directory sample_delete plain_response))
    × ((commit
            (look_up sample_directory sample_delete plain_response)
            plain_response
            (record sample_directory { users = bob ∷ [] })
          ≡ panic)
        ↔ (1 ≤ 1))
    × ((commit
            (look_up sample_directory sample_delete plain_response)
            plain_response
            (delete_answer sample_directory sample_delete plain_response).1
          ≡ panic)
        ↔ (no_entries ≡ []))
commit-stale_example =
    commit-stale sample_directory (record sample_directory { users = bob ∷ [] }) sample_delete
      plain_response (bob ∷ []) no_entries alice refl only_alice

abbrev only_groups : Directory
only_groups = record {
  users = [];
  groups = alice ∷ [];
  allow_anonymous_bind = false;
  controls = [];
  token_groups = [];
  user_dn = codes "ou=people";
  group_dn = codes "ou=groups";
  server = none;
}

modify_answer-group_example :
    modify_answer only_groups sample_modify plain_response ≡ (plain_response, only_groups)
modify_answer-group_example =
    modify_answer-group only_groups sample_modify plain_response
      (refl, (refl, (refl, (refl, (refl, (refl, (refl, (refl, tt)))))))) tt

add_answer-cases_example :
    (NoMatch (in_parentheses alice_dn) (bob ∷ alice ∷ [])
      → (e : Entry) × (add_answer sample_directory sample_add plain_response ≡ (
        set_result_code result_success plain_response,
        record sample_directory { users = (bob ∷ alice ∷ []) ++ e ∷ [] },
      ))
        × (e.dn ≡ alice_dn)
        × ((k : Text) → get_attribute_values e k ≡ last_vals k (sample_attribute ∷ []) []))
    × ((before after : List Entry) (e : Entry)
        → bob ∷ alice ∷ [] ≡ before ++ e ∷ after
        → match_filter (in_parentheses alice_dn) e.dn ≡ true
        → add_answer sample_directory sample_add plain_response ≡ (
          set_diagnostic_message
              (codes "entry exists for DN: " ++ alice_dn)
              (set_result_code result_entry_already_exists plain_response),
          sample_directory,
        ))
add_answer-cases_example = add_answer-cases sample_directory sample_add plain_response
