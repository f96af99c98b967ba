-- ===== src/Directory/Authentication.antt =====
-- Which binds the directory for tests accepts.
use gldap.Base.{
  List, Text, [], ap, arith, codes, is_empty, refl, some, sym, text_eq_iff, true, ◌↔◌, ◌∙◌, ◌∷◌,
  ◌≡◌, ◌⊎◌,
}
use gldap.Outcome.{ok}
use gldap.Options.Apply.{with_response_code}
use gldap.Ber.{Ber}
use gldap.Codes.{result_invalid_credentials, result_success}
use gldap.Attribute.{Entry, get_attribute_values}
use gldap.Control.{Control}
use gldap.Message.{SimpleBindMessage, get_id, simple_auth_choice}
use gldap.Response.{Response, base_of, set_controls, set_result_code}
use gldap.Response.Writer.{ResponseWriter}
use gldap.Request.{Request, get_simple_bind_message, new_bind_response}
use gldap.Route.{Session}
use gldap.Mux.{write_response}
use gldap.Directory.{Directory}
use gldap.Directory.Handlers.{bind_reply, handle_bind, has_user, is_password}

-- One of the users has the name as its DN and the password as the first value of its attribute
-- "password".
abbrev pub IsUser : Text → Text → Entry → Type 0
IsUser name password u =
    (u.dn ≡ name) × ((vs : List Text) × (get_attribute_values u (codes "password") ≡ password ∷ vs))

abbrev pub HasUser : List Entry → Text → Text → Type 0
HasUser [] name password = ⊥
HasUser (u ∷ us) name password = IsUser name password u ⊎ HasUser us name password

-- A simple bind without a password where anonymous binds are allowed, or with a user's.
abbrev pub Authenticates : Directory → SimpleBindMessage → Type 0
Authenticates d m =
    (m.auth_choice ≡ simple_auth_choice)
    × (((m.password ≡ []) × (d.allow_anonymous_bind ≡ true))
        ⊎ HasUser d.users m.user_name m.password)

is_password_iff :
    (vs : List Text) (password : Text)
    → (is_password vs password ≡ true) ↔ ((rest : List Text) × (vs ≡ password ∷ rest))
is_password_iff [] password = ((λ e. cc e), λ (rest, e). cc e)
is_password_iff (v ∷ vs) password = (
  (λ e. (vs, ap (λ t. t ∷ vs) (sym ((text_eq_iff password v).0 e)))),
  λ (rest, e). (text_eq_iff password v).1 (sym (cons_injective e)),
)
  where
    cons_injective : {a c : Text} {as' cs : List Text} → a ∷ as' ≡ c ∷ cs → a ≡ c
    cons_injective e = cc e

has_user_iff :
    (us : List Entry) (name password : Text)
    → (has_user us name password ≡ true) ↔ HasUser us name password
unfolding has_user
has_user_iff [] name password = ground arith
has_user_iff (u ∷ us) name password =
    let same_dn = text_eq_iff u.dn name in
    let same_password = is_password_iff (get_attribute_values u (codes "password")) password in
    let others = has_user_iff us name password in ground (arith, same_dn, same_password, others)

is_empty_iff : (s : Text) → (is_empty s ≡ true) ↔ (s ≡ [])
is_empty_iff [] = ground arith
is_empty_iff (c ∷ s) = ground arith

set_result_code-success :
    (r : Response) → (base_of (set_result_code result_success r)).code ≡ result_success
unfolding set_result_code
set_result_code-success r = ground arith

set_controls-code :
    (cs : List Control) (r : Response) → (base_of (set_controls cs r)).code ≡ (base_of r).code
unfolding set_controls
set_controls-code cs r = ground arith

bind_reply_iff :
    (d : Directory) (m : SimpleBindMessage) (resp : Response)
    → (base_of resp).code ≡ result_invalid_credentials
    → ((base_of (bind_reply d m resp)).code ≡ result_success) ↔ Authenticates d m
unfolding bind_reply
bind_reply_iff d m resp h =
    let simple = text_eq_iff m.auth_choice simple_auth_choice in
    let empty = is_empty_iff m.password in
    let user = has_user_iff d.users m.user_name m.password in
    let code = set_result_code-success resp in
    let with_controls = set_controls-code d.controls (set_result_code result_success resp) ∙ code in
    ground (arith, simple, empty, user, code, with_controls, h)

bind_reply-message_id :
    (d : Directory) (m : SimpleBindMessage) (resp : Response)
    → (base_of (bind_reply d m resp)).message_id ≡ (base_of resp).message_id
unfolding bind_reply set_result_code set_controls
bind_reply-message_id d m resp = ground arith

module _ (b : Ber) where
  -- On a simple bind message the directory's bind handler writes one response, with the request's
  -- message ID, and changes nothing; its code is success exactly if the bind names a user with the
  -- user's password, or has no password where anonymous binds are allowed.
  pub handle_bind-Authenticates :
      (w : ResponseWriter) (r : Request) (m : SimpleBindMessage) (s : Session Directory)
      → get_simple_bind_message r ≡ ok m
      → (resp : Response) × (handle_bind b w r s ≡ some (write_response b resp s))
        × ((base_of resp).message_id ≡ get_id r.message)
        × (((base_of resp).code ≡ result_success) ↔ Authenticates s.state m)
  unfolding handle_bind new_bind_response
  handle_bind-Authenticates w r m s h =
      let made = new_bind_response r (with_response_code result_invalid_credentials ∷ []) in
      (
        bind_reply s.state m made,
        rw h,
        bind_reply-message_id s.state m made,
        bind_reply_iff s.state m made refl,
      )
