-- ===== src/Testing/Received.antt =====
-- `readRequest` reads the packets that testing.go builds, through the validation of `readPacket`.
use gldap.Base.{All, List, [], true, ℤ, ◌∙◌, ◌∷◌, ◌≡◌}
use gldap.Outcome.{ok}
use gldap.Ber.{Ber, IsBer, Packet}
use gldap.Packet.{
  LdapPacket, assert, basic_validation, control_packet, request_message_id, request_packet,
}
use gldap.Control.{Control}
use gldap.Control.RoundTrip.{IsReadable}
use gldap.Decode.{Ldap, request_controls}
use gldap.Message.{SimpleBindMessage, simple_auth_choice, simple_bind}
use gldap.Testing.{bind_request, enveloped, test_simple_bind_request_packet}
use gldap.Testing.Envelope.{IsEnvelope, enveloped_eq}
use gldap.Testing.RoundTrip.{bind-IsEnvelope, new_message-bind_request}
use gldap.Request.{new_request}
use gldap.Route.Matching.{request_of}
use gldap.Conn.{read_packet, read_request}

abbrev validated : LdapPacket → LdapPacket
validated p = record p { validated = true }

module _ (b : Ber) (ldap : Ldap) (l : IsBer b) where
  enveloped-validated :
      (id : ℤ) (r : Packet) (cs : List Control)
      → basic_validation (enveloped b id r cs) ≡ ok (validated (enveloped b id r cs))
  unfolding basic_validation assert
  enveloped-validated id r [] = rw (enveloped_eq b l id r [])
  enveloped-validated id r (c ∷ cs) = rw (enveloped_eq b l id r (c ∷ cs))

  same_request :
      (id : ℤ) (r : Packet) (cs : List Control)
      → request_packet (validated (enveloped b id r cs)) ≡ request_packet (enveloped b id r cs)
  unfolding request_packet basic_validation assert
  same_request id r [] = rw (enveloped_eq b l id r [])
  same_request id r (c ∷ cs) = rw (enveloped_eq b l id r (c ∷ cs))

  same_id :
      (id : ℤ) (r : Packet) (cs : List Control)
      → request_message_id (validated (enveloped b id r cs))
        ≡ request_message_id (enveloped b id r cs)
  unfolding request_message_id basic_validation assert
  same_id id r [] = rw (enveloped_eq b l id r [])
  same_id id r (c ∷ cs) = rw (enveloped_eq b l id r (c ∷ cs))

  -- What the decoders find in an envelope stays when `readPacket` has validated it.
  validated-IsEnvelope :
      (id : ℤ) (r : Packet) (cs : List Control)
      → IsEnvelope b l (enveloped b id r cs) id r cs
      → IsEnvelope b l (validated (enveloped b id r cs)) id r cs
  unfolding request_controls control_packet
  validated-IsEnvelope id r cs e = record {
    has_request = same_request id r cs ∙ e.has_request;
    has_id = same_id id r cs ∙ e.has_id;
    has_controls = e.has_controls;
  }

  -- A simple bind is read.
  pub read_request-simple_bind :
      (conn_id request_id : ℤ) (m : SimpleBindMessage)
      → m.auth_choice ≡ simple_auth_choice
      → All IsReadable m.controls
      → read_request b ldap conn_id request_id (test_simple_bind_request_packet b m).ber
        ≡ ok (request_of request_id conn_id (simple_bind m))
  unfolding read_request read_packet new_request test_simple_bind_request_packet enveloped
  read_request-simple_bind conn_id request_id m a h =
      let p = test_simple_bind_request_packet b m in
      let valid = enveloped-validated m.id (bind_request b m) m.controls in
      let e =
        validated-IsEnvelope m.id (bind_request b m) m.controls (bind-IsEnvelope b ldap l m h) in
      rw (valid, new_message-bind_request b ldap l (validated p) m a e)
