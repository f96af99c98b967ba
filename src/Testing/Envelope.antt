-- ===== src/Testing/Envelope.antt =====
-- What the decoders find in an envelope: the message ID, the request and the controls.
use gldap.Base.{
  All, All-map, List, Text, [], ap, append-nil, append_assoc, arith, false, if◌then◌else◌, map,
  refl, some, sym, ℕ, ℤ, ◌++◌, ◌==◌, ◌∙◌, ◌∷◌, ◌≡◌, ◌⊎◌,
}
use gldap.Outcome.{map_outcome-map, ok}
use gldap.Ber.{
  Ber, IsBer, Packet, Packets, Value, class_application, class_context, class_type, class_universal,
  cons, int64, nil, nil_value, node, snoc, tag, tag_integer, tag_sequence, tag_type, to_list,
  to_list-snoc, type_constructed, type_primitive,
}
use gldap.Codes.{application_bind_request, application_del_request}
use gldap.Packet.{
  LdapPacket, assert, assert_application_request, check_version, control_packet, request_message_id,
  request_packet,
}
use gldap.Control.{Control}
use gldap.Control.Encoding.{append_controls, encode_control, encode_controls}
use gldap.Control.Codec.{decode_control, decode_controls}
use gldap.Control.RoundTrip.{IsReadable, decode-encode_control}
use gldap.Decode.{request_controls}
use gldap.Testing.{append_all, enveloped, test_request_envelope}

module _ (b : Ber) (l : IsBer b) where
  -- Children appended one by one, and the data that they leave.
  abbrev pub snoc_all : Packets → List Packet → Packets
  snoc_all ps [] = ps
  snoc_all ps (q ∷ qs) = snoc_all (snoc ps q) qs

  abbrev pub data_all : Text → List Packet → Text
  data_all d [] = d
  data_all d (q ∷ qs) = data_all (d ++ b.bytes q) qs

  module _ (c t g : ℕ) (v : Value) where
    pub append_all_node :
        (d : Text) (ps : Packets) (qs : List Packet)
        → append_all b (node c t g v d ps) qs ≡ node c t g v (data_all d qs) (snoc_all ps qs)
    append_all_node d ps [] = refl
    append_all_node d ps (q ∷ qs) =
        rw (l.append_child_node) (append_all_node (d ++ b.bytes q) (snoc ps q) qs)

  -- A constructed packet with children.
  abbrev pub built : (class tag : ℕ) → List Packet → Packet
  built class tag qs = node class type_constructed tag nil_value (data_all [] qs) (snoc_all nil qs)

  pub append_all-eq-built :
      (class tag : ℕ) (qs : List Packet)
      → append_all b (b.encode class type_constructed tag nil_value) qs ≡ built class tag qs
  append_all-eq-built class tag qs =
      rw (l.encode_nil) (append_all_node class type_constructed tag nil_value [] nil qs)

  pub to_list-snoc_all :
      (ps : Packets) (qs : List Packet) → to_list (snoc_all ps qs) ≡ to_list ps ++ qs
  to_list-snoc_all ps [] = sym (append-nil (to_list ps))
  to_list-snoc_all ps (q ∷ qs) =
      to_list-snoc_all (snoc ps q) qs
      ∙ ap (λ r. r ++ qs) (to_list-snoc ps q)
      ∙ append_assoc (to_list ps) (q ∷ []) qs

  -- The controls of a packet, as its third child.
  abbrev pub controls_node : List Control → Packets
  controls_node [] = nil
  controls_node (c ∷ cs) = cons (encode_controls b (c ∷ cs)) nil

  abbrev pub id_node : ℤ → Packet
  id_node id =
      node class_universal type_primitive tag_integer (int64 id) (b.integer_data (int64 id)) nil

  abbrev pub envelope_data : ℤ → Packet → List Control → Text
  envelope_data id r [] = b.bytes (id_node id) ++ b.bytes r
  envelope_data id r (c ∷ cs) =
      (b.bytes (id_node id) ++ b.bytes r) ++ b.bytes (encode_controls b (c ∷ cs))

  enveloped_node :
      (id : ℤ) (r : Packet) (cs : List Control)
      → (enveloped b id r cs).ber
        ≡ node class_universal type_constructed tag_sequence nil_value
            (envelope_data id r cs)
            (cons (id_node id) (cons r (controls_node cs)))
  unfolding enveloped
  enveloped_node id r [] =
      simp (test_request_envelope, l.encode_nil, l.new_integer_node, l.append_child_node)
  enveloped_node id r (c ∷ cs) =
      simp (test_request_envelope, l.encode_nil, l.new_integer_node, l.append_child_node)

  pub enveloped_eq :
      (id : ℤ) (r : Packet) (cs : List Control)
      → enveloped b id r cs ≡ record {
        ber =
            node class_universal type_constructed tag_sequence nil_value
              (envelope_data id r cs)
              (cons (id_node id) (cons r (controls_node cs)));
        validated = false;
      }
  unfolding enveloped
  enveloped_eq id r cs = λ i. record { ber = enveloped_node id r cs i; validated = false }

  append_controls-eq-append_all :
      (p : Packet) (cs : List Control)
      → append_controls b p cs ≡ append_all b p (map (encode_control b) cs)
  append_controls-eq-append_all p [] = refl
  append_controls-eq-append_all p (c ∷ cs) =
      append_controls-eq-append_all (b.append_child p (encode_control b c)) cs

  encode_controls_node :
      (cs : List Control)
      → encode_controls b cs
        ≡ node class_context type_constructed 0 nil_value
            (data_all [] (map (encode_control b) cs))
            (snoc_all nil (map (encode_control b) cs))
  unfolding encode_controls
  encode_controls_node cs =
      append_controls-eq-append_all (b.encode class_context type_constructed 0 nil_value) cs
      ∙ rw (l.encode_nil) (
          append_all_node class_context type_constructed 0 nil_value [] nil
            (map (encode_control b) cs))

  decode-encode_controls :
      (cs : List Control)
      → All IsReadable cs
      → decode_controls b (map (encode_control b) cs) ≡ ok cs
  unfolding decode_controls
  decode-encode_controls cs h =
      map_outcome-map (λ p. decode_control b (some p)) (encode_control b) cs
        (All-map (decode-encode_control b l) cs h)

  -- What the decoders rely on: the request and the message ID of the packet, and its controls.
  pub record IsEnvelope (p : LdapPacket) (id : ℤ) (request : Packet) (cs : List Control)
      : Type 0 where
    pub has_request : request_packet p ≡ ok request
    pub has_id : request_message_id p ≡ ok id
    pub has_controls : request_controls b p ≡ ok cs

  has_controls_lem :
      (id : ℤ) (r : Packet) (cs : List Control)
      → All IsReadable cs
      → request_controls b (enveloped b id r cs) ≡ ok cs
  unfolding request_controls control_packet assert
  has_controls_lem id r [] h = rw (enveloped_eq id r [])
  has_controls_lem id r (c ∷ cs) h =
      simp (enveloped_eq id r (c ∷ cs), encode_controls_node (c ∷ cs), to_list-snoc_all)
        (decode-encode_controls (c ∷ cs) h)

  has_id_lem :
      (id : ℤ) (r : Packet) (cs : List Control) → request_message_id (enveloped b id r cs) ≡ ok id
  unfolding request_message_id
  has_id_lem id r [] = rw (enveloped_eq id r [])
  has_id_lem id r (c ∷ cs) = rw (enveloped_eq id r (c ∷ cs))

  -- A request that passes the checks of `requestPacket`.
  pub record IsRequest (r : Packet) : Type 0 where
    pub of_application : class_type r ≡ class_application
    pub of_shape :
        (tag_type r ≡ type_constructed)
        ⊎ ((tag_type r ≡ type_primitive) × (tag r ≡ application_del_request))
    pub of_version : (if tag r == application_bind_request then check_version r else ok tt) ≡ ok tt

  has_request_lem :
      (id : ℤ) (r : Packet) (cs : List Control)
      → IsRequest r
      → request_packet (enveloped b id r cs) ≡ ok r
  unfolding request_packet assert_application_request
  has_request_lem id r [] h = rw (enveloped_eq id r []) (ground arith)
  has_request_lem id r (c ∷ cs) h = rw (enveloped_eq id r (c ∷ cs)) (ground arith)

  pub enveloped-IsEnvelope :
      (id : ℤ) (r : Packet) (cs : List Control)
      → IsRequest r
      → All IsReadable cs
      → IsEnvelope (enveloped b id r cs) id r cs
  enveloped-IsEnvelope id r cs h k = record {
    has_request = has_request_lem id r cs h;
    has_id = has_id_lem id r cs;
    has_controls = has_controls_lem id r cs k;
  }
