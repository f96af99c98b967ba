-- ===== src/Testing/RoundTrip.antt =====
-- `newMessage` reads the requests that testing.go builds back into the messages they came from.
use gldap.Base.{All, List, [], inl, pos, refl, ℤ, ◌∙◌, ◌∷◌, ◌≡◌}
use gldap.Outcome.{ok}
use gldap.Ber.{
  Ber, IsBer, Packet, class_application, class_context, class_universal, int64, nil, nil_value,
  node, string, tag, tag_integer, type_constructed, type_primitive,
}
use gldap.Ber.Strings.{string_node}
use gldap.Codes.{
  application_bind_request, application_del_request, application_extended_request,
  application_unbind_request,
}
use gldap.Packet.{
  LdapPacket, RequestType, assert, bind_request_type, check_version, delete_request_type,
  extended_request_type, request_type, type_of_tag, unbind_request_type,
}
use gldap.Control.{Control}
use gldap.Control.RoundTrip.{IsReadable}
use gldap.Decode.{Ldap, delete_parameters, extended_operation_name, simple_bind_parameters}
use gldap.Message.{
  DeleteMessage, SimpleBindMessage, delete, extended_operation, extended_operation_start_tls,
  message_of_type, new_message, simple_auth_choice, simple_bind, unbind,
}
use gldap.Testing.{
  begin_request, bind_request, delete_request, enveloped, start_tls_request,
  test_delete_request_packet, test_simple_bind_request_packet, test_start_tls_request_packet,
  test_unbind_request_packet,
}
use gldap.Testing.Envelope.{IsEnvelope, IsRequest, append_all-eq-built, built, enveloped-IsEnvelope}

module _ (b : Ber) (ldap : Ldap) (l : IsBer b) where
  -- The type of a request is that of its tag, so the message is what that type's decoder makes.
  pub new_message_of_type :
      (p : LdapPacket) (id : ℤ) (r : Packet) (cs : List Control) (t : RequestType)
      → IsEnvelope b l p id r cs
      → type_of_tag (tag r) ≡ ok t
      → new_message b ldap p ≡ message_of_type b ldap t id p
  unfolding new_message request_type
  new_message_of_type p id r cs t e h = rw (e.has_request, h, e.has_id)

  -- Bind.
  abbrev bind_children : SimpleBindMessage → List Packet
  bind_children m =
      node class_universal type_primitive tag_integer (int64 (pos 3))
        (b.integer_data (int64 (pos 3))) nil
      ∷ string_node m.user_name
      ∷ node class_context type_primitive 0 (string m.password) m.password nil
      ∷ []

  bind_request_eq :
      (m : SimpleBindMessage)
      → bind_request b m ≡ built b l class_application application_bind_request (bind_children m)
  unfolding bind_request
  bind_request_eq m =
      simp (l.new_integer_node, l.new_string_node)
        (append_all-eq-built b l class_application application_bind_request (bind_children m))

  bind_request-IsRequest : (m : SimpleBindMessage) → IsRequest b l (bind_request b m)
  unfolding check_version assert
  bind_request-IsRequest m =
      rw (bind_request_eq m)
        (record { of_application = refl; of_shape = inl refl; of_version = refl })

  simple_bind_parameters_lem :
      (p : LdapPacket) (m : SimpleBindMessage)
      → IsEnvelope b l p m.id (bind_request b m) m.controls
      → simple_bind_parameters b p ≡ ok (m.user_name, m.password, m.controls)
  unfolding simple_bind_parameters assert
  simple_bind_parameters_lem p m e = rw (e.has_request, bind_request_eq m, e.has_controls)

  pub bind-IsEnvelope :
      (m : SimpleBindMessage)
      → All IsReadable m.controls
      → IsEnvelope b l (test_simple_bind_request_packet b m) m.id (bind_request b m) m.controls
  unfolding test_simple_bind_request_packet
  bind-IsEnvelope m h =
      enveloped-IsEnvelope b l m.id (bind_request b m) m.controls (bind_request-IsRequest m) h

  -- Any packet in which the decoders find a bind request is read as that request.
  pub new_message-bind_request :
      (p : LdapPacket) (m : SimpleBindMessage)
      → m.auth_choice ≡ simple_auth_choice
      → IsEnvelope b l p m.id (bind_request b m) m.controls
      → new_message b ldap p ≡ ok (simple_bind m)
  unfolding message_of_type
  new_message-bind_request p m a e =
      new_message_of_type p m.id (bind_request b m) m.controls bind_request_type e
        (rw (bind_request_eq m))
      ∙ rw (simple_bind_parameters_lem p m e, ← a)

  -- A bind request is read back, with its password and its controls.
  pub new_message-simple_bind :
      (m : SimpleBindMessage)
      → m.auth_choice ≡ simple_auth_choice
      → All IsReadable m.controls
      → new_message b ldap (test_simple_bind_request_packet b m) ≡ ok (simple_bind m)
  new_message-simple_bind m a h =
      new_message-bind_request (test_simple_bind_request_packet b m) m a (bind-IsEnvelope m h)

  -- Unbind and StartTLS.
  new_message-unbind :
      (id : ℤ) → new_message b ldap (test_unbind_request_packet b id) ≡ ok (unbind id)
  unfolding test_unbind_request_packet message_of_type
  new_message-unbind id =
      let r = built b l class_application application_unbind_request [] in
      let q = begin_request b application_unbind_request in
      let same : q ≡ r = append_all-eq-built b l class_application application_unbind_request [] in
      let fits : IsRequest b l q =
        rw same (record { of_application = refl; of_shape = inl refl; of_version = refl }) in
      new_message_of_type (enveloped b id q []) id q [] unbind_request_type
        (enveloped-IsEnvelope b l id q [] fits tt) (rw same)

  -- A StartTLS request is read as the extended operation of that name.
  new_message-start_tls :
      (id : ℤ)
      → new_message b ldap (test_start_tls_request_packet b id)
        ≡ ok (
            extended_operation
              (record { id = id; name = extended_operation_start_tls; value = [] }))
  unfolding test_start_tls_request_packet message_of_type start_tls_request extended_operation_name
      assert
  new_message-start_tls id =
      let name =
        node class_context type_primitive 0 (string extended_operation_start_tls)
          extended_operation_start_tls nil in
      let r = built b l class_application application_extended_request (name ∷ []) in
      let q = start_tls_request b in
      let same : q ≡ r =
        rw (start_tls_request, l.new_string_node)
          (append_all-eq-built b l class_application application_extended_request (name ∷ [])) in
      let fits : IsRequest b l q =
        rw same (record { of_application = refl; of_shape = inl refl; of_version = refl }) in
      let e = enveloped-IsEnvelope b l id q [] fits tt in
      new_message_of_type (enveloped b id q []) id q [] extended_request_type e (rw same)
      ∙ rw (e.has_request, same)

  -- Delete.
  delete_request_eq :
      (m : DeleteMessage)
      → delete_request b m
        ≡ node class_application type_constructed application_del_request nil_value m.dn nil
  unfolding delete_request
  delete_request_eq m = rw (l.encode_nil)

  delete_request-IsRequest : (m : DeleteMessage) → IsRequest b l (delete_request b m)
  delete_request-IsRequest m =
      rw (delete_request_eq m)
        (record { of_application = refl; of_shape = inl refl; of_version = refl })

  delete_parameters_lem :
      (p : LdapPacket) (m : DeleteMessage)
      → IsEnvelope b l p m.id (delete_request b m) m.controls
      → delete_parameters b p ≡ ok (m.dn, m.controls)
  unfolding delete_parameters
  delete_parameters_lem p m e = rw (e.has_request, delete_request_eq m, e.has_controls)

  -- A delete request is read back.
  new_message-delete :
      (m : DeleteMessage)
      → All IsReadable m.controls
      → new_message b ldap (test_delete_request_packet b m) ≡ ok (delete m)
  unfolding test_delete_request_packet message_of_type
  new_message-delete m h =
      let p = enveloped b m.id (delete_request b m) m.controls in
      let e =
        enveloped-IsEnvelope b l m.id (delete_request b m) m.controls (delete_request-IsRequest m)
          h in
      new_message_of_type p m.id (delete_request b m) m.controls delete_request_type e
        (rw (delete_request_eq m))
      ∙ rw (delete_parameters_lem p m e)
