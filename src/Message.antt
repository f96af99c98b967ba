-- ===== src/Message.antt =====
-- message.go: the messages, and `newMessage`. A message's `baseMessage` is its field `id`.
use gldap.Base.{Bool, List, Text, [], codes, ℤ}
use gldap.Outcome.{Outcome, ok, ◌>>=◌}
use gldap.Ber.{Ber}
use gldap.Packet.{
  LdapPacket, RequestType, add_request_type, bind_request_type, delete_request_type,
  extended_request_type, modify_request_type, request_message_id, request_type, search_request_type,
  unbind_request_type,
}
use gldap.Attribute.{Attribute, Change}
use gldap.Control.{Control}
use gldap.Decode.{
  Ldap, add_parameters, delete_parameters, extended_operation_name, modify_parameters,
  search_parameters, simple_bind_parameters,
}

-- `SimpleAuthChoice`
abbrev pub simple_auth_choice : Text
simple_auth_choice = codes "simple"

-- `ExtendedOperationUnknown`, `ExtendedOperationStartTLS` and `ExtendedOperationDisconnection` of
-- request.go
abbrev pub extended_operation_unknown : Text
extended_operation_unknown = codes "Unknown"

abbrev pub extended_operation_start_tls : Text
extended_operation_start_tls = codes "1.3.6.1.4.1.1466.20037"

abbrev pub extended_operation_disconnection : Text
extended_operation_disconnection = codes "1.3.6.1.4.1.1466.2003"

pub record SearchMessage : Type 0 where
  pub id : ℤ
  pub base_dn : Text
  pub scope : ℤ
  pub deref_aliases : ℤ
  pub time_limit : ℤ
  pub size_limit : ℤ
  pub types_only : Bool
  pub filter : Text
  pub attributes : List Text
  pub controls : List Control

pub record SimpleBindMessage : Type 0 where
  pub id : ℤ
  pub auth_choice : Text
  pub user_name : Text
  pub password : Text
  pub controls : List Control

pub record ExtendedOperationMessage : Type 0 where
  pub id : ℤ
  pub name : Text
  pub value : Text

pub record ModifyMessage : Type 0 where
  pub id : ℤ
  pub dn : Text
  pub changes : List Change
  pub controls : List Control

pub record AddMessage : Type 0 where
  pub id : ℤ
  pub dn : Text
  pub attributes : List Attribute
  pub controls : List Control

pub record DeleteMessage : Type 0 where
  pub id : ℤ
  pub dn : Text
  pub controls : List Control

-- The interface `Message`, by the type behind it.
pub data Message : Type 0 where
  simple_bind : SimpleBindMessage → Message
  search : SearchMessage → Message
  extended_operation : ExtendedOperationMessage → Message
  modify : ModifyMessage → Message
  add : AddMessage → Message
  delete : DeleteMessage → Message
  unbind : ℤ → Message

-- `GetID`
abbrev pub get_id : Message → ℤ
get_id (simple_bind m) = m.id
get_id (search m) = m.id
get_id (extended_operation m) = m.id
get_id (modify m) = m.id
get_id (add m) = m.id
get_id (delete m) = m.id
get_id (unbind id) = id

module _ (b : Ber) (ldap : Ldap) where
  -- The switch of `newMessage`, by the type of the request.
  unfoldable pub message_of_type : RequestType → ℤ → LdapPacket → Outcome Message
  message_of_type unbind_request_type id p = ok (unbind id)
  message_of_type bind_request_type id p = do
    (user_name, password, controls) ← simple_bind_parameters b p
    ok (
        simple_bind (record {
          id = id;
          auth_choice = simple_auth_choice;
          user_name = user_name;
          password = password;
          controls = controls;
        }))
  message_of_type search_request_type id p = do
    found ← search_parameters b ldap p
    ok (
        search (record {
          id = id;
          base_dn = found.base_dn;
          scope = found.scope;
          deref_aliases = found.deref_aliases;
          time_limit = found.time_limit;
          size_limit = found.size_limit;
          types_only = found.types_only;
          filter = found.filter;
          attributes = found.attributes;
          controls = found.controls;
        }))
  message_of_type extended_request_type id p = do
    name ← extended_operation_name p
    ok (extended_operation (record { id = id; name = name; value = [] }))
  message_of_type modify_request_type id p = do
    found ← modify_parameters b p
    ok (
        modify
          (record { id = id; dn = found.dn; changes = found.changes; controls = found.controls }))
  message_of_type add_request_type id p = do
    found ← add_parameters b p
    ok (
        add (record {
          id = id;
          dn = found.dn;
          attributes = found.attributes;
          controls = found.controls;
        }))
  message_of_type delete_request_type id p = do
    (dn, controls) ← delete_parameters b p
    ok (delete (record { id = id; dn = dn; controls = controls }))

  -- `newMessage`
  unfoldable pub new_message : LdapPacket → Outcome Message
  new_message p = do type ← request_type p; id ← request_message_id p; message_of_type type id p
