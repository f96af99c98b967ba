-- ===== src/Directory/Searching/Sent.antt =====
-- What the search handlers of the directory for tests send.
use gldap.Base.{
  Bool, List, Text, [], ap, append-nil, append_assoc, arith, codes, false, if◌then◌else◌, map, not,
  refl, select, some, suc, sym, true, ℕ, ◌&&◌, ◌++◌, ◌∙◌, ◌∷◌, ◌≡◌,
}
use gldap.Outcome.{ok}
use gldap.Options.Apply.{with_response_code}
use gldap.Ber.{Ber}
use gldap.Codes.{result_no_such_object, result_success}
use gldap.Attribute.{Entry}
use gldap.Control.{Control}
use gldap.Message.{SearchMessage}
use gldap.Response.{Response, response_packet, set_controls, set_result_code}
use gldap.Response.Writer.{ResponseWriter, write}
use gldap.Request.{Request, get_search_message, new_search_done_response, new_search_response_entry}
use gldap.Route.{Session}
use gldap.Mux.{write_response}
use gldap.Directory.{Directory}
use gldap.Directory.Search.{find, find_from, has_prefix, match_filter}
use gldap.Directory.Searching.{
  add_attributes, entries_of, found_generic, found_groups, generic_filter, handle_search_generic,
  handle_search_groups, handle_search_users, has_token_groups, search_generic, send_entries,
  send_found, send_token_groups, sid_of, token_groups_of,
}
use gldap.Directory.Searching.Found.{
  by_dn, by_member, found_generic-entries, found_groups-entries, has_member,
}

-- The groups by their members, and then those with no member that matches by their DNs.
abbrev pub matching_groups : Text → List Entry → List Entry
matching_groups filter es =
    by_member filter es ++ select (λ e. match_filter filter e.dn && not (has_member filter e)) es

-- A search of the token groups of a security identifier.
abbrev pub asks_token_groups : Directory → SearchMessage → Bool
asks_token_groups d m = has_token_groups d.token_groups && has_prefix m.base_dn (codes "<SID=")

module _ (b : Ber) where
  -- The text of one entry, as an answer to a request.
  abbrev pub entry_text : Request → Entry → Text
  entry_text r e =
      b.bytes
        (response_packet b (add_attributes b e.attributes (new_search_response_entry r e.dn [])))

  -- The response that ends a search.
  abbrev pub search_end : Request → List Control → List Entry → Response
  search_end r controls [] =
      new_search_done_response r (with_response_code result_no_such_object ∷ [])
  search_end r controls (e ∷ es) = set_result_code result_success (
      set_controls controls
        (new_search_done_response r (with_response_code result_no_such_object ∷ [])))

  -- The session behind a search that found these entries: they are sent in order, and the end follows.
  abbrev pub searched : Request → List Control → List Entry → Session Directory → Session Directory
  searched r controls es s = record s {
    sent =
        s.sent
        ++ (map (entry_text r) es ++ b.bytes (response_packet b (search_end r controls es)) ∷ []);
  }

  -- The next write and the next flush succeed.
  abbrev pub IsWorking : Session Directory → Type 0
  IsWorking s = (s.write_ok ≡ true) × (s.flush_ok ≡ true)

  write_response-IsWorking :
      (res : Response) (s : Session Directory)
      → IsWorking s
      → write_response b res s ≡ record s { sent = s.sent ++ b.bytes (response_packet b res) ∷ [] }
  unfolding write_response write
  write_response-IsWorking res s h = rw (h.0, h.1)

  abbrev working : Directory → List Text → Session Directory
  working d sent = record { state = d; sent = sent; write_ok = true; flush_ok = true }

  send_entries-working :
      (es : List Entry) (r : Request) (d : Directory) (sent : List Text)
      → send_entries b es r (working d sent) ≡ (true, working d (sent ++ map (entry_text r) es))
  unfolding send_entries write write_response
  send_entries-working [] r d sent = ap (λ l. (true, working d l)) (sym (append-nil sent))
  send_entries-working (e ∷ es) r d sent =
      send_entries-working es r d (sent ++ entry_text r e ∷ [])
      ∙ ap (λ l. (true, working d l))
          (append_assoc sent (entry_text r e ∷ []) (map (entry_text r) es))

  send_entries-IsWorking :
      (es : List Entry) (r : Request) (s : Session Directory)
      → IsWorking s
      → send_entries b es r s ≡ (true, record s { sent = s.sent ++ map (entry_text r) es })
  send_entries-IsWorking es r s h = rw (h.0, h.1) (send_entries-working es r s.state s.sent)

  send_found-IsWorking :
      (es : List Entry) (r : Request) (s : Session Directory)
      → IsWorking s
      → send_found b es r (search_end r [] []) s ≡ searched r s.state.controls es s
  unfolding send_found
  send_found-IsWorking [] r s h = write_response-IsWorking (search_end r [] []) s h
  send_found-IsWorking (e ∷ es) r s h =
      let all : Session Directory = record s { sent = s.sent ++ map (entry_text r) (e ∷ es) } in
      rw (send_entries-IsWorking (e ∷ es) r s h) (
        write_response-IsWorking (search_end r s.state.controls (e ∷ es)) all h
        ∙ ap (λ sent. record s { sent = sent }) (append_assoc s.sent _ _))

  find_from-by_dn :
      (filter : Text) (i : ℕ) (es : List Entry) → (find_from filter i es).1 ≡ by_dn filter es
  unfolding find_from
  find_from-by_dn filter i [] = refl
  find_from-by_dn filter i (e ∷ es) = ground (arith, find_from-by_dn filter (suc i) es)

  -- The session behind a search of token groups, whose end has no controls.
  abbrev pub searched_token_groups : Request → List Entry → Session Directory → Session Directory
  searched_token_groups r es s = record s {
    sent =
        s.sent
        ++ (map (entry_text r) es
            ++ b.bytes (response_packet b (set_result_code result_success (search_end r [] [])))
              ∷ []);
  }

  -- The session behind a search with no route of its own.
  abbrev pub searched_generic : Request → SearchMessage → Session Directory → Session Directory
  searched_generic r m s =
      let filter = generic_filter s.state m in
      if asks_token_groups s.state m
      then searched_token_groups r (token_groups_of s.state.token_groups (sid_of m.base_dn)) s
      else searched r s.state.controls (by_dn filter s.state.users ++ by_dn filter s.state.groups) s

  send_token_groups-IsWorking :
      (es : List Entry) (r : Request) (s : Session Directory)
      → IsWorking s
      → send_token_groups b es r (search_end r [] []) s ≡ searched_token_groups r es s
  send_token_groups-IsWorking es r s h =
      let all : Session Directory = record s { sent = s.sent ++ map (entry_text r) es } in
      rw (send_entries-IsWorking es r s h) (
        write_response-IsWorking (set_result_code result_success (search_end r [] [])) all h
        ∙ ap (λ sent. record s { sent = sent }) (append_assoc s.sent _ _))

  search_generic-IsWorking :
      (r : Request) (m : SearchMessage) (s : Session Directory)
      → IsWorking s
      → search_generic b m r (search_end r [] []) s ≡ searched_generic r m s
  unfolding search_generic
  search_generic-IsWorking r m s h =
      let filter = generic_filter s.state m in
      rw (
        send_token_groups-IsWorking (token_groups_of s.state.token_groups (sid_of m.base_dn)) r s h,
        send_found-IsWorking (entries_of (found_generic filter s.state)) r s h,
        found_generic-entries filter s.state,
      )

  -- On a search message and a connection that takes every write, the three search handlers send one
  -- entry for each that they find, in order, and then the end: "no such object" if they found none,
  -- otherwise success with the directory's controls. Users are found by their DN; groups once for
  -- each of their members that matches, and then those with no such member by their DN; a search of
  -- neither finds the users and the groups by their DN, or the token groups of a SID, whose end is
  -- success without controls in any case.
  pub search-searched :
      (w : ResponseWriter) (r : Request) (m : SearchMessage) (s : Session Directory)
      → get_search_message r ≡ ok m
      → IsWorking s
      → (handle_search_users b w r s
          ≡ some (searched r s.state.controls (by_dn m.filter s.state.users) s))
        × (handle_search_groups b w r s
            ≡ some (searched r s.state.controls (matching_groups m.filter s.state.groups) s))
        × (handle_search_generic b w r s ≡ some (searched_generic r m s))
  unfolding handle_search_users handle_search_groups handle_search_generic
  search-searched w r m s g h = (
    rw (
      g,
      send_found-IsWorking (find m.filter s.state.users).1 r s h,
      find_from-by_dn m.filter 0 s.state.users,
    ),
    rw (
      g,
      send_found-IsWorking (entries_of (found_groups m.filter s.state)) r s h,
      found_groups-entries m.filter s.state,
    ),
    rw (g, search_generic-IsWorking r m s h),
  )

  -- A write that fails sends nothing, neither an entry nor the end.
  write_response-broken :
      (res : Response) (s : Session Directory) → s.write_ok ≡ false → write_response b res s ≡ s
  unfolding write_response write
  write_response-broken res s h = rw h
