-- ===== src/Directory/Fixtures/Accounts.antt =====
-- How the fixtures' users and groups fit together, and that the users can log in.
use gldap.Base.{
  List, Text, [], ap, codes, inl, inr, map, refl, some, sym, text_eq, ◌++◌, ◌∙◌, ◌∷◌, ◌≡◌,
}
use gldap.Outcome.{ok}
use gldap.Ber.{Ber}
use gldap.Codes.{result_success}
use gldap.Attribute.{get_attribute_values, map_index, new_entry}
use gldap.Attribute.Order.{get_attribute_values-new_entry}
use gldap.Message.{SimpleBindMessage, simple_auth_choice}
use gldap.Response.{Response, base_of}
use gldap.Response.Writer.{ResponseWriter}
use gldap.Request.{Request, get_simple_bind_message}
use gldap.Route.{Session}
use gldap.Mux.{write_response}
use gldap.Directory.{Directory}
use gldap.Directory.Handlers.{handle_bind}
use gldap.Directory.Authentication.{HasUser, handle_bind-Authenticates}
use gldap.Directory.Settings.{TestOptions}
use gldap.Directory.Fixtures.{
  member_dns, new_group, new_member_of, new_users, user_attributes, user_dn_of,
}

new_users-dn :
    (opts : TestOptions) (ns : List Text) → map (λ u. u.dn) (new_users opts ns) ≡ member_dns opts ns
unfolding new_users member_dns new_entry
new_users-dn opts [] = refl
new_users-dn opts (n ∷ ns) = ap (λ l. user_dn_of opts.with_defaults n ∷ l) (new_users-dn opts ns)

-- A group that `NewGroup` makes has the DNs of `NewUsers` as its members, and the DN of `NewMemberOf`.
new_group-member :
    (opts : TestOptions) (g : Text) (ns : List Text)
    → (get_attribute_values (new_group opts g ns) (codes "member")
        ≡ map (λ u. u.dn) (new_users opts ns))
      × ((new_group opts g ns).dn ∷ [] ≡ new_member_of opts (g ∷ []))
unfolding new_group map_index text_eq new_member_of new_entry
new_group-member opts g ns = (
  get_attribute_values-new_entry _ ((codes "member", member_dns opts ns) ∷ []) (codes "member")
      ∙ sym (new_users-dn opts ns),
  refl,
)

new_user-password :
    (opts : TestOptions) (n : Text)
    → get_attribute_values
        (new_entry (user_dn_of opts.with_defaults n) (user_attributes opts n))
        (codes "password")
      ≡ codes "password" ∷ []
unfolding user_attributes map_index text_eq
new_user-password opts n =
    get_attribute_values-new_entry (user_dn_of opts.with_defaults n) (user_attributes opts n)
      (codes "password")

new_users-HasUser :
    (opts : TestOptions) (before after : List Text) (n : Text)
    → HasUser
        (new_users opts (before ++ n ∷ after))
        (user_dn_of opts.with_defaults n)
        (codes "password")
unfolding new_users new_entry
new_users-HasUser opts [] after n = inl (refl, ([], new_user-password opts n))
new_users-HasUser opts (x ∷ before) after n = inr (new_users-HasUser opts before after n)

-- A bind request that names one of the users, with the password that `NewUsers` gives to all.
pub record IsLogin (opts : TestOptions) (n : Text) (m : SimpleBindMessage) : Type 0 where
  pub is_simple : m.auth_choice ≡ simple_auth_choice
  pub names_user : m.user_name ≡ user_dn_of opts.with_defaults n
  pub has_password : m.password ≡ codes "password"

module _ (b : Ber) where
  -- A simple bind with the DN of one of the users that `NewUsers` made and the password "password"
  -- succeeds in a directory of these users, whatever options they were made with.
  pub handle_bind-new_users :
      (w : ResponseWriter) (r : Request) (m : SimpleBindMessage) (s : Session Directory)
      (opts : TestOptions) (before after : List Text) (n : Text)
      → get_simple_bind_message r ≡ ok m
      → IsLogin opts n m
      → s.state.users ≡ new_users opts (before ++ n ∷ after)
      → (resp : Response) × (handle_bind b w r s ≡ some (write_response b resp s))
        × ((base_of resp).code ≡ result_success)
  handle_bind-new_users w r m s opts before after n g l u =
      let (resp, written, same_id, code) = handle_bind-Authenticates b w r m s g in
      let known : HasUser s.state.users m.user_name m.password =
        rw (u, l.names_user, l.has_password) (new_users-HasUser opts before after n) in
      (resp, written, code.1 (l.is_simple, inr known))
