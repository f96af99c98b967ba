-- ===== src/Directory/Searching.antt =====
-- The search handlers of testdirectory/directory.go. Each makes the response that ends the search,
-- writes the entries that it has found, changes that response and writes it at the end (`defer`). A nil
-- list of controls leaves the response as an empty one does.
use gldap.Base.{
  Bool, List, Text, [], codes, drop, false, if◌then◌else◌, length, map, not, some, suc, text_eq,
  true, ℕ, ◌&&◌, ◌++◌, ◌==◌, ◌||◌, ◌∷◌,
}
use gldap.Outcome.{ok}
use gldap.Options.Apply.{with_response_code}
use gldap.Ber.{Ber}
use gldap.Codes.{result_no_such_object, result_success}
use gldap.Attribute.{Entry, EntryAttribute, get_attribute_values}
use gldap.Message.{SearchMessage}
use gldap.Response.{Response, add_entry_attribute, set_controls, set_result_code}
use gldap.Response.Writer.{write}
use gldap.Request.{Request, get_search_message, new_search_done_response, new_search_response_entry}
use gldap.Route.{HandlerFunc, Session}
use gldap.Mux.{write_response}
use gldap.Directory.{Directory}
use gldap.Directory.Search.{contains, find, has_prefix, in_parentheses, match_filter}
pub mod Found
pub mod Sent

-- The entries that a search has found, each with the number of its object: `slices.Contains` compares
-- pointers.
abbrev pub Found : Type 0
Found = List (ℕ × Entry)

abbrev pub entries_of : Found → List Entry
entries_of found = map (λ e. e.1) found

abbrev pub is_listed : ℕ → Found → Bool
is_listed i [] = false
is_listed i (e ∷ es) = e.0 == i || is_listed i es

-- The loop of `findMembers` over the values of one group's attribute "member". Its caller gives no
-- options.
unfoldable pub member_matches : Text → ℕ → Entry → List Text → Found
member_matches filter i e [] = []
member_matches filter i e (m ∷ ms) =
    let rest = member_matches filter i e ms in
    if match_filter filter (codes "member=" ++ m) then (i, e) ∷ rest else rest

-- `findMembers` on the groups from the number `i` on.
unfoldable pub find_members : Text → ℕ → List Entry → Found
find_members filter i [] = []
find_members filter i (e ∷ es) =
    member_matches filter i e (get_attribute_values e (codes "member"))
    ++ find_members filter (suc i) es

-- The loop over the groups that skips those that it has.
unfoldable pub add_matches : Text → ℕ → List Entry → Found → Found
add_matches filter i [] found = found
add_matches filter i (e ∷ es) found = add_matches filter (suc i) es (
    if not (match_filter filter e.dn)
    then found
    else if is_listed i found
    then found
    else found ++ (i, e) ∷ [])

-- The loop of `handleSearchGeneric` over the users, numbered from `i` on.
unfoldable pub match_users : Text → ℕ → List Entry → Found → Found
match_users filter i [] found = found
match_users filter i (e ∷ es) found =
    match_users filter (suc i) es
      (if not (match_filter filter e.dn) then found else found ++ (i, e) ∷ [])

-- What `handleSearchGroups` finds.
unfoldable pub found_groups : Text → Directory → Found
found_groups filter d = add_matches filter 0 d.groups (find_members filter 0 d.groups)

-- What `handleSearchGeneric` finds; the groups are numbered behind the users.
unfoldable pub found_generic : Text → Directory → Found
found_generic filter d =
    add_matches filter (length d.users) d.groups (match_users filter 0 d.users [])

-- The filter that `handleSearchGeneric` uses.
unfoldable pub generic_filter : Directory → SearchMessage → Text
generic_filter d m = if contains m.base_dn d.user_dn then in_parentheses m.base_dn else m.filter

-- `strings.TrimPrefix`
abbrev pub trim_prefix : Text → Text → Text
trim_prefix s part = if has_prefix s part then drop (length part) s else s

-- `strings.TrimSuffix`
unfoldable pub trim_suffix : Text → Text → Text
trim_suffix [] part = []
trim_suffix (c ∷ s) part = if text_eq (c ∷ s) part then [] else c ∷ trim_suffix s part

-- The security identifier in a search base.
unfoldable pub sid_of : Text → Text
sid_of base_dn = trim_suffix (trim_prefix base_dn (codes "<SID=")) (codes ">")

-- `d.tokenGroups[sid]`, nil for a missing key.
unfoldable pub token_groups_of : List (Text × List Entry) → Text → List Entry
token_groups_of [] sid = []
token_groups_of ((key, entries) ∷ rest) sid =
    if text_eq key sid then entries else token_groups_of rest sid

abbrev pub has_token_groups : List (Text × List Entry) → Bool
has_token_groups [] = false
has_token_groups (t ∷ ts) = true

module _ (b : Ber) where
  -- `result.AddAttribute` for each attribute of an entry.
  abbrev pub add_attributes : List EntryAttribute → Response → Response
  add_attributes [] result = result
  add_attributes (a ∷ rest) result =
      add_attributes rest (add_entry_attribute a.name a.values result)

  -- The loop that writes the entries; false says that it has stopped at an error.
  unfoldable pub send_entries : List Entry → Request → Session Directory → Bool × Session Directory
  send_entries [] r s = (true, s)
  send_entries (e ∷ es) r s =
      let result = add_attributes e.attributes (new_search_response_entry r e.dn []) in
      elim (write b s.write_ok s.flush_ok (some result) s.sent).0 [
        | ok x ↦ send_entries es r (write_response b result s)
        | _ ↦ (false, write_response b result s)
      ]

  -- The end of the search handlers, on the entries that they found.
  unfoldable pub send_found :
      List Entry → Request → Response → Session Directory → Session Directory
  send_found [] r res s = write_response b res s
  send_found (e ∷ es) r res s =
      let sent = send_entries (e ∷ es) r s in
      if sent.0
      then write_response b (set_result_code result_success (set_controls s.state.controls res))
          sent.1
      else write_response b res sent.1

  -- The end of the search of token groups; it succeeds without any, and without the controls.
  abbrev pub send_token_groups :
      List Entry → Request → Response → Session Directory → Session Directory
  send_token_groups entries r res s =
      let sent = send_entries entries r s in
      if sent.0
      then write_response b (set_result_code result_success res) sent.1
      else write_response b res sent.1

  -- `handleSearchGeneric` behind the type of the message.
  unfoldable pub search_generic :
      SearchMessage → Request → Response → Session Directory → Session Directory
  search_generic m r res s =
      if has_token_groups s.state.token_groups && has_prefix m.base_dn (codes "<SID=")
      then send_token_groups (token_groups_of s.state.token_groups (sid_of m.base_dn)) r res s
      else send_found (entries_of (found_generic (generic_filter s.state m) s.state)) r res s

  -- The three handlers, by what they do with a search message.
  abbrev pub on_search :
      (SearchMessage → Request → Response → Session Directory → Session Directory)
      → HandlerFunc Directory
  on_search f w r s =
      let res = new_search_done_response r (with_response_code result_no_such_object ∷ []) in
      some (elim (get_search_message r) [ ok m ↦ f m r res s | _ ↦ write_response b res s ])

  -- `handleSearchUsers`
  unfoldable pub handle_search_users : HandlerFunc Directory
  handle_search_users w r s =
      on_search (λ m r res s. send_found (find m.filter s.state.users).1 r res s) w r s

  -- `handleSearchGroups`
  unfoldable pub handle_search_groups : HandlerFunc Directory
  handle_search_groups w r s =
      on_search (λ m r res s. send_found (entries_of (found_groups m.filter s.state)) r res s) w r s

  -- `handleSearchGeneric`
  unfoldable pub handle_search_generic : HandlerFunc Directory
  handle_search_generic w r s = on_search search_generic w r s
