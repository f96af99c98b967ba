-- ===== src/Directory/Handlers.antt =====
-- The handlers of testdirectory/directory.go for bind, StartTLS, add, delete, modify and other requests. Each makes its response, changes it and writes it at the end (`defer`); an error of that
-- write is only logged. A nil list of controls leaves the response as an empty one does.
use gldap.Base.{
  Bool, List, Option, Text, [], codes, false, if◌then◌else◌, is_empty, length, none, not, pos, some,
  text_eq, ℕ, ◌&&◌, ◌++◌, ◌||◌, ◌∷◌,
}
use gldap.Outcome.{Outcome, err, ok, panic}
use gldap.Options.Apply.{with_application_code, with_diagnostic_message, with_response_code}
use gldap.Ber.{Ber}
use gldap.Codes.{
  application_add_response, application_del_response, result_entry_already_exists,
  result_inappropriate_matching, result_invalid_credentials, result_no_such_object,
  result_operations_error, result_success,
}
use gldap.Strconv.{format_uint}
use gldap.Attribute.{Entry, get_attribute_values, new_entry}
use gldap.Message.{
  AddMessage, DeleteMessage, ModifyMessage, SimpleBindMessage, extended_operation_start_tls,
  simple_auth_choice,
}
use gldap.Response.{
  Response, general_response, set_controls, set_diagnostic_message, set_matched_dn,
  set_response_name, set_result_code,
}
use gldap.Response.Writer.{write}
use gldap.Request.{
  Request, get_add_message, get_delete_message, get_modify_message, get_simple_bind_message,
  new_bind_response, new_extended_response, new_modify_response, new_response, start_tls,
}
use gldap.Route.{HandlerFunc, Session}
use gldap.Mux.{write_response}
use gldap.Directory.{Directory}
use gldap.Directory.Search.{find, in_parentheses}
use gldap.Directory.Update.{apply_changes, assign_all, remove_at, replace_at}

-- The loop of `handleBind` over the users: the user name, and the first value of its password.
abbrev pub is_password : List Text → Text → Bool
is_password [] password = false
is_password (v ∷ vs) password = text_eq password v

unfoldable pub has_user : List Entry → Text → Text → Bool
has_user [] name password = false
has_user (u ∷ us) name password =
    (text_eq u.dn name && is_password (get_attribute_values u (codes "password")) password)
    || has_user us name password

unfoldable pub bind_reply : Directory → SimpleBindMessage → Response → Response
bind_reply d m resp =
    if not (text_eq m.auth_choice simple_auth_choice)
    then resp
    else if is_empty m.password && d.allow_anonymous_bind
    then set_result_code result_success resp
    else if has_user d.users m.user_name m.password
    then set_controls d.controls (set_result_code result_success resp)
    else resp

unfoldable pub more_than_one : ℕ → Text
more_than_one n = codes "more than one match: " ++ format_uint n ++ codes " entries"

-- An answer, and the directory that is left.
abbrev pub Answer : Type 0
Answer = Response × Directory

-- `handleAdd` by the indexes of the users that it found.
abbrev pub add_found : List ℕ → Directory → AddMessage → Response → Answer
add_found [] d m res = (
  set_result_code result_success res,
  record d { users = d.users ++ new_entry m.dn (assign_all m.attributes []) ∷ [] },
)
add_found (i ∷ more) d m res = (
  set_diagnostic_message (codes "entry exists for DN: " ++ m.dn)
      (set_result_code result_entry_already_exists res),
  d,
)

-- `handleAdd` behind the type of the message.
unfoldable pub add_answer : Directory → AddMessage → Response → Answer
add_answer d m res = add_found (find (in_parentheses m.dn) d.users).0 d m res

-- The index at which `handleDelete` removes, or the answer that it gives instead.
abbrev pub delete_found : List ℕ → Response → Directory → (ℕ → Directory) → Answer → Answer
delete_found [] res d remove otherwise = otherwise
delete_found (i ∷ []) res d remove otherwise = (set_result_code result_success res, remove i)
delete_found (i ∷ j ∷ more) res d remove otherwise = (
  set_diagnostic_message (more_than_one (length (i ∷ j ∷ more)))
      (set_result_code result_inappropriate_matching res),
  d,
)

-- `handleDelete` behind the type of the message: the users first, then the groups.
unfoldable pub delete_answer : Directory → DeleteMessage → Response → Answer
delete_answer d m res =
    delete_found (find (in_parentheses m.dn) d.users).0 res d
      (λ i. record d { users = remove_at i d.users })
      (delete_found (find (in_parentheses m.dn) d.groups).0 res d
        (λ i. record d { groups = remove_at i d.groups }) (res, d))

-- `handleModify` on the entry that it found.
abbrev pub modify_one :
    List ℕ
    → List Entry
    → ModifyMessage
    → Response
    → Directory
    → (ℕ → Entry → Directory)
    → Answer
    → Answer
modify_one (i ∷ []) (e ∷ []) m res d put otherwise =
    (set_result_code result_success (set_matched_dn e.dn res), put i (apply_changes m.changes e))
modify_one (i ∷ j ∷ more) es m res d put otherwise = (
  set_diagnostic_message (more_than_one (length (i ∷ j ∷ more)))
      (set_result_code result_inappropriate_matching res),
  d,
)
modify_one is es m res d put otherwise = otherwise

-- `handleModify` behind the type of the message. Groups are searched with the DN alone.
unfoldable pub modify_answer : Directory → ModifyMessage → Response → Answer
modify_answer d m res =
    let in_users = find (in_parentheses m.dn) d.users in
    let in_groups = find m.dn d.groups in
    modify_one in_users.0 in_users.1 m res d (λ i e. record d { users = replace_at i e d.users })
      (modify_one in_groups.0 in_groups.1 m res d
        (λ i e. record d { groups = replace_at i e d.groups }) (res, d))

-- An answer to a message of the handler's type; otherwise the response stands as it was made.
abbrev pub answered : {A : Type 0} → Outcome A → (A → Answer) → Response → Directory → Answer
answered (ok m) f res d = f m
answered (err e) f res d = (res, d)
answered panic f res d = (res, d)

module _ (b : Ber) where
  -- The deferred write.
  abbrev pub conclude : Answer → Session Directory → Option (Session Directory)
  conclude a s = some (write_response b a.0 (record s { state = a.1 }))

  -- `handleBind`
  unfoldable pub handle_bind : HandlerFunc Directory
  handle_bind w r s =
      let resp = new_bind_response r (with_response_code result_invalid_credentials ∷ []) in
      conclude
        (answered (get_simple_bind_message r) (λ m. (bind_reply s.state m resp, s.state)) resp
          s.state)
        s

  -- `handleNotFound`
  unfoldable pub handle_not_found : HandlerFunc Directory
  handle_not_found w r s = some (
      write_response b
        (general_response
          (new_response r (with_diagnostic_message (codes "intentionally not handled") ∷ [])))
        s)

  -- `handleAdd`
  unfoldable pub handle_add : HandlerFunc Directory
  handle_add w r s =
      let res = general_response (
        new_response r (
          with_application_code (pos application_add_response)
          ∷ with_response_code result_operations_error
          ∷ [])) in
      conclude (answered (get_add_message r) (λ m. add_answer s.state m res) res s.state) s

  -- `handleDelete`, with no other handler between its search and its lock; Directory.Deletes has both
  -- halves of it.
  unfoldable pub handle_delete : HandlerFunc Directory
  handle_delete w r s =
      let res = general_response (
        new_response r (
          with_response_code result_no_such_object
          ∷ with_application_code (pos application_del_response)
          ∷ [])) in
      conclude (answered (get_delete_message r) (λ m. delete_answer s.state m res) res s.state) s

  -- `handleModify`, on the response that `NewModifyResponse` makes or panics for.
  abbrev pub modify_with :
      Request → Session Directory → Outcome Response → Option (Session Directory)
  modify_with r s (ok res) =
      conclude (answered (get_modify_message r) (λ m. modify_answer s.state m res) res s.state) s
  modify_with r s (err e) = none
  modify_with r s panic = none

  unfoldable pub handle_modify : HandlerFunc Directory
  handle_modify w r s =
      modify_with r s (new_modify_response r (with_response_code result_no_such_object ∷ []))

  -- `handleStartTLS` behind its answer, on the error of the handshake.
  abbrev pub after_start_tls : Option Text → Response → Session Directory → Session Directory
  after_start_tls none res s = s
  after_start_tls (some e) res s =
      write_response b
        (set_result_code result_operations_error
          (set_diagnostic_message (codes "StartTLS Handshake error : \"" ++ e ++ codes "\"") res))
        s

  -- `handleStartTLS`; `handshake` is the error of the TLS handshake, if it fails. The writer stays that
  -- of the connection as it was.
  unfoldable pub handle_start_tls : (handshake : Option Text) → HandlerFunc Directory
  handle_start_tls handshake w r s =
      let res =
        set_response_name extended_operation_start_tls
          (new_extended_response r (with_response_code result_success ∷ [])) in
      some (elim (write b s.write_ok s.flush_ok (some res) s.sent).0 [
        | ok x ↦ after_start_tls (start_tls s.state.server handshake) res (write_response b res s)
        | _ ↦ write_response b res s
      ])
