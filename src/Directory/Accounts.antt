-- ===== src/Directory/Accounts.antt =====
-- The life of an account in the directory for tests: it is added, it logs in, it is deleted.
use gldap.Base.{
  List, Text, [], append-nil, codes, false, inl, inr, pos, refl, some, subst, sym, ◌++◌, ◌↔◌, ◌∙◌,
  ◌∷◌, ◌≡◌, ◌≢◌, ◌⊎◌,
}
use gldap.Outcome.{ok}
use gldap.Options.Apply.{with_application_code, with_response_code}
use gldap.Ber.{Ber}
use gldap.Codes.{
  application_add_response, application_del_response, result_no_such_object,
  result_operations_error, result_success,
}
use gldap.Attribute.{Entry, get_attribute_values}
use gldap.Message.{AddMessage, DeleteMessage, SimpleBindMessage, simple_auth_choice}
use gldap.Response.{Response, base_of, general_response, set_result_code}
use gldap.Response.Writer.{ResponseWriter}
use gldap.Request.{
  Request, get_add_message, get_delete_message, get_simple_bind_message, new_response,
}
use gldap.Route.{Session}
use gldap.Mux.{write_response}
use gldap.Directory.{Directory}
use gldap.Directory.Search.{in_parentheses, match_filter}
use gldap.Directory.Handlers.{handle_add, handle_bind, handle_delete}
use gldap.Directory.Authentication.{Authenticates, HasUser, IsUser, handle_bind-Authenticates}
use gldap.Directory.Updates.{IsOnlyMatch, NoMatch, delete_answer-user}
use gldap.Directory.Additions.{add_answer-cases, last_vals}
use gldap.Directory.Plain.{IsPlain, match_filter-plain}

module _ (dn password : Text) where
  -- A user whose DN the filter does not match does not have that DN.
  no_user :
      IsPlain dn → (us : List Entry) → NoMatch (in_parentheses dn) us → HasUser us dn password → ⊥
  no_user p [] n h = h
  no_user p (u ∷ us) n (inl (same, k)) =
      let found = match_filter-plain dn p in
      let missed : match_filter (in_parentheses dn) dn ≡ false =
        subst (λ t. match_filter (in_parentheses dn) t ≡ false) same n.0 in
      cc (found, missed)
  no_user p (u ∷ us) n (inr k) = no_user p us n.1 k

  HasUser-append :
      (us : List Entry) (e : Entry)
      → HasUser (us ++ e ∷ []) dn password ↔ (HasUser us dn password ⊎ IsUser dn password e)
  HasUser-append [] e = (
    (λ h. elim h [ inl k ↦ inr k | inr k ↦ absurd k ]),
    (λ h. elim h [ inl k ↦ absurd k | inr k ↦ inl k ]),
  )
  HasUser-append (u ∷ us) e =
      let rest = HasUser-append us e in
      (
        (λ h. elim h [
          | inl k ↦ inl (inl k)
          | inr k ↦ elim (rest.0 k) [ inl before ↦ inl (inr before) | inr last ↦ inr last ]
        ]),
        (λ h. elim h [
          | inl k ↦ elim k [ inl first ↦ inl first | inr before ↦ inr (rest.1 (inl before)) ]
          | inr last ↦ inr (rest.1 (inr last))
        ]),
      )

  -- Among users of which none matches the DN, only the one that is added has it.
  added_user :
      (us : List Entry) (e : Entry) (vals : List Text)
      → IsPlain dn
      → NoMatch (in_parentheses dn) us
      → e.dn ≡ dn
      → get_attribute_values e (codes "password") ≡ vals
      → HasUser (us ++ e ∷ []) dn password ↔ ((rest : List Text) × (vals ≡ password ∷ rest))
  added_user us e vals p n same v =
      let fresh = no_user p us n in
      let last = HasUser-append us e in
      (
        (λ h. elim (last.0 h) [
          | inl k ↦ absurd (fresh k)
          | inr (d, (rest, k)) ↦ (rest, sym v ∙ k)
        ]),
        (λ (rest, k). last.1 (inr (same, (rest, v ∙ k)))),
      )

-- A login with a password succeeds exactly for a user.
Authenticates-HasUser :
    (d : Directory) (m : SimpleBindMessage) (dn : Text)
    → m.auth_choice ≡ simple_auth_choice
    → m.user_name ≡ dn
    → m.password ≢ []
    → Authenticates d m ↔ HasUser d.users dn m.password
Authenticates-HasUser d m dn simple name given = (
  (λ (_, h). elim h [
    | inl (none_given, k) ↦ absurd (given none_given)
    | inr k ↦ subst (λ t. HasUser d.users t m.password) name k
  ]),
  (λ h. (simple, inr (subst (λ t. HasUser d.users t m.password) (sym name) h))),
)

-- The only match of its own plain DN, behind users that the DN does not match.
added-IsOnlyMatch :
    (dn filtered : Text) (us : List Entry) (e : Entry)
    → IsPlain dn
    → NoMatch (in_parentheses dn) us
    → filtered ≡ dn
    → e.dn ≡ dn
    → IsOnlyMatch (in_parentheses filtered) us [] e
added-IsOnlyMatch dn filtered us e p n same has_dn =
    rw same (record {
      none_before = n;
      matches_it = rw has_dn (match_filter-plain dn p);
      none_after = tt;
    })

module _ (b : Ber) where
  -- An add request for a plain DN that matches no user makes an account: a simple bind with that DN
  -- and a password that is not empty succeeds exactly if the password is the first value that the
  -- request's last attribute "password" has, and a delete request for the DN, after that, restores
  -- the directory as it was.
  pub handle_add-account :
      (w : ResponseWriter) (s : Session Directory) (adding binding deleting : Request)
      (a : AddMessage) (m : SimpleBindMessage) (x : DeleteMessage)
      → get_add_message adding ≡ ok a
      → get_simple_bind_message binding ≡ ok m
      → get_delete_message deleting ≡ ok x
      → IsPlain a.dn
      → NoMatch (in_parentheses a.dn) s.state.users
      → m.auth_choice ≡ simple_auth_choice
      → m.user_name ≡ a.dn
      → m.password ≢ []
      → x.dn ≡ a.dn
      → (t u : Session Directory) × (resp : Response) × (handle_add b w adding s ≡ some t)
        × (handle_bind b w binding t ≡ some (write_response b resp t))
        × (((base_of resp).code ≡ result_success) ↔ (
            (rest : List Text) × (last_vals (codes "password") a.attributes []
              ≡ m.password ∷ rest)))
        × (handle_delete b w deleting (write_response b resp t) ≡ some u)
        × (u.state ≡ s.state)
  unfolding handle_add handle_delete write_response
  handle_add-account w s adding binding deleting a m x ha hm hx p n simple name given dn =
      let made = general_response (
        new_response adding (
          with_application_code (pos application_add_response)
          ∷ with_response_code result_operations_error
          ∷ [])) in
      let (e, added, has_dn, vals) = (add_answer-cases s.state a made).0 n in
      let t =
        write_response b (set_result_code result_success made)
          (record s { state = record s.state { users = s.state.users ++ e ∷ [] } }) in
      let (resp, written, same_id, code) = handle_bind-Authenticates b w binding m t hm in
      let login = Authenticates-HasUser t.state m a.dn simple name given in
      let user =
        added_user a.dn m.password s.state.users e _ p n has_dn (vals (codes "password")) in
      let res = general_response (
        new_response deleting (
          with_response_code result_no_such_object
          ∷ with_application_code (pos application_del_response)
          ∷ [])) in
      let deleted =
        delete_answer-user t.state x res s.state.users [] e refl
          (added-IsOnlyMatch a.dn x.dn s.state.users e p n dn has_dn) in
      (
        t,
        write_response b (set_result_code result_success res) (record (write_response b resp t) {
          state = record s.state { users = s.state.users ++ [] };
        }),
        resp,
        rw (ha, added),
        written,
        ((λ h. user.0 (login.0 (code.0 h))), (λ h. code.1 (login.1 (user.1 h)))),
        rw (hx, deleted),
        (λ i. record s.state { users = append-nil s.state.users i }),
      )
