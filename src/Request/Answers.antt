-- ===== src/Request/Answers.antt =====
-- Requests and the responses that are made to answer them.
use gldap.Base.{List, Option, Text, ap, arith, false, none, refl, some, sym, ℤ, ◌∙◌, ◌≡◌}
use gldap.Outcome.{>>=-eq-ok, ok}
use gldap.Options.{GoOption}
use gldap.Ber.{Ber, IsBer}
use gldap.Packet.{
  LdapPacket, RequestType, add_request_type, bind_request_type, delete_request_type,
  extended_request_type, modify_request_type, request_message_id, request_type, search_request_type,
  unbind_request_type,
}
use gldap.Control.{Control}
use gldap.Decode.{Ldap}
use gldap.Message.{Message, get_id, message_of_type, new_message}
use gldap.Response.{
  Response, add_entry_attribute, base_of, general_response, response_packet, set_controls,
  set_diagnostic_message, set_matched_dn, set_response_name, set_result_code,
}
use gldap.Response.Shape.{response_packet-IsResponse}
use gldap.Request.{
  Request, new_bind_response, new_extended_response, new_modify_response, new_request, new_response,
  new_search_done_response, new_search_response_entry,
}

-- A response that is made for a request.
pub data IsAnswerTo (req : Request) : Response → Type 0 where
  by_new_response : (opt : List GoOption) → IsAnswerTo req (general_response (new_response req opt))
  by_new_modify_response :
      (opt : List GoOption) (r : Response) → new_modify_response req opt ≡ ok r → IsAnswerTo req r
  by_new_extended_response : (opt : List GoOption) → IsAnswerTo req (new_extended_response req opt)
  by_new_bind_response : (opt : List GoOption) → IsAnswerTo req (new_bind_response req opt)
  by_new_search_done_response :
      (opt : List GoOption) → IsAnswerTo req (new_search_done_response req opt)
  by_new_search_response_entry :
      (dn : Text) (opt : List GoOption) → IsAnswerTo req (new_search_response_entry req dn opt)
  by_set_result_code :
      (code : ℤ) (r : Response) → IsAnswerTo req r → IsAnswerTo req (set_result_code code r)
  by_set_diagnostic_message :
      (msg : Text) (r : Response) → IsAnswerTo req r → IsAnswerTo req (set_diagnostic_message msg r)
  by_set_matched_dn :
      (dn : Text) (r : Response) → IsAnswerTo req r → IsAnswerTo req (set_matched_dn dn r)
  by_set_response_name :
      (name : Text) (r : Response) → IsAnswerTo req r → IsAnswerTo req (set_response_name name r)
  by_set_controls :
      (cs : List Control) (r : Response) → IsAnswerTo req r → IsAnswerTo req (set_controls cs r)
  by_add_attribute :
      (name : Text) (values : List Text) (r : Response)
      → IsAnswerTo req r
      → IsAnswerTo req (add_entry_attribute name values r)

set_result_code-message_id :
    (code : ℤ) (r : Response)
    → (base_of (set_result_code code r)).message_id ≡ (base_of r).message_id
unfolding set_result_code
set_result_code-message_id code r = ground arith

set_diagnostic_message-message_id :
    (msg : Text) (r : Response)
    → (base_of (set_diagnostic_message msg r)).message_id ≡ (base_of r).message_id
unfolding set_diagnostic_message
set_diagnostic_message-message_id msg r = ground arith

set_matched_dn-message_id :
    (dn : Text) (r : Response) → (base_of (set_matched_dn dn r)).message_id ≡ (base_of r).message_id
unfolding set_matched_dn
set_matched_dn-message_id dn r = ground arith

set_response_name-message_id :
    (name : Text) (r : Response)
    → (base_of (set_response_name name r)).message_id ≡ (base_of r).message_id
unfolding set_response_name
set_response_name-message_id name r = ground arith

set_controls-message_id :
    (cs : List Control) (r : Response)
    → (base_of (set_controls cs r)).message_id ≡ (base_of r).message_id
unfolding set_controls
set_controls-message_id cs r = ground arith

add_entry_attribute-message_id :
    (name : Text) (values : List Text) (r : Response)
    → (base_of (add_entry_attribute name values r)).message_id ≡ (base_of r).message_id
unfolding add_entry_attribute
add_entry_attribute-message_id name values r = ground arith

new_modify_response-message_id :
    (req : Request) (opt : List GoOption) (r : Response)
    → new_modify_response req opt ≡ ok r
    → (base_of r).message_id ≡ get_id req.message
unfolding new_modify_response new_response
new_modify_response-message_id req opt r h = ground arith

IsAnswerTo-message_id :
    (req : Request) (r : Response) → IsAnswerTo req r → (base_of r).message_id ≡ get_id req.message
unfolding new_response new_extended_response new_bind_response new_search_done_response
    new_search_response_entry
IsAnswerTo-message_id req _ (by_new_response opt) = refl
IsAnswerTo-message_id req _ (by_new_modify_response opt r h) =
    new_modify_response-message_id req opt r h
IsAnswerTo-message_id req _ (by_new_extended_response opt) = refl
IsAnswerTo-message_id req _ (by_new_bind_response opt) = refl
IsAnswerTo-message_id req _ (by_new_search_done_response opt) = refl
IsAnswerTo-message_id req _ (by_new_search_response_entry dn opt) = refl
IsAnswerTo-message_id req _ (by_set_result_code code r i) =
    set_result_code-message_id code r ∙ IsAnswerTo-message_id req r i
IsAnswerTo-message_id req _ (by_set_diagnostic_message msg r i) =
    set_diagnostic_message-message_id msg r ∙ IsAnswerTo-message_id req r i
IsAnswerTo-message_id req _ (by_set_matched_dn dn r i) =
    set_matched_dn-message_id dn r ∙ IsAnswerTo-message_id req r i
IsAnswerTo-message_id req _ (by_set_response_name name r i) =
    set_response_name-message_id name r ∙ IsAnswerTo-message_id req r i
IsAnswerTo-message_id req _ (by_set_controls cs r i) =
    set_controls-message_id cs r ∙ IsAnswerTo-message_id req r i
IsAnswerTo-message_id req _ (by_add_attribute name values r i) =
    add_entry_attribute-message_id name values r ∙ IsAnswerTo-message_id req r i

module _ (b : Ber) (ldap : Ldap) where
  message_of_type-get_id :
      (t : RequestType) (id : ℤ) (p : LdapPacket) (m : Message)
      → message_of_type b ldap t id p ≡ ok m
      → get_id m ≡ id
  unfolding message_of_type
  message_of_type-get_id bind_request_type id p m h = ground arith
  message_of_type-get_id search_request_type id p m h = ground arith
  message_of_type-get_id extended_request_type id p m h = ground arith
  message_of_type-get_id modify_request_type id p m h = ground arith
  message_of_type-get_id add_request_type id p m h = ground arith
  message_of_type-get_id delete_request_type id p m h = ground arith
  message_of_type-get_id unbind_request_type id p m h = ground arith

  -- A message has the ID that is in its packet.
  new_message-get_id :
      (p : LdapPacket) (m : Message)
      → new_message b ldap p ≡ ok m
      → request_message_id p ≡ ok (get_id m)
  unfolding new_message
  new_message-get_id p m h =
      let (t, ht, h1) = >>=-eq-ok (request_type p) _ h in
      let (id, hi, h2) = >>=-eq-ok (request_message_id p) _ h1 in
      hi ∙ ap ok (sym (message_of_type-get_id t id p m h2))

  new_request-get_id :
      (id : ℤ) (c : Option ℤ) (p : LdapPacket) (req : Request)
      → new_request b ldap id c (some p) ≡ ok req
      → request_message_id p ≡ ok (get_id req.message)
  unfolding new_request
  new_request-get_id id none p req h = ground arith
  new_request-get_id id (some c) p req h =
      let (m, hm, h1) = >>=-eq-ok (new_message b ldap p) _ h in
      new_message-get_id p m hm ∙ ground arith

  -- Whatever response is made for the request of a packet, and however its setters change it, its
  -- packet has the message ID of the packet that asked.
  pub answer-message_id :
      (id : ℤ) (c : Option ℤ) (p : LdapPacket) (req : Request) (r : Response)
      → IsBer b
      → new_request b ldap id c (some p) ≡ ok req
      → IsAnswerTo req r
      → request_message_id (record { ber = response_packet b r; validated = false })
        ≡ request_message_id p
  answer-message_id id c p req r l h i =
      (response_packet-IsResponse b l r).has_message_id
      ∙ ap ok (IsAnswerTo-message_id req r i)
      ∙ sym (new_request-get_id id c p req h)
