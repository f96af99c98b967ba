-- ===== src/Attribute/RoundTrip.antt =====
-- `decodeAttribute` reads back what `(*Attribute).encode` wrote.
use gldap.Base.{
  List, Text, [], ap, append_assoc, arith, get_elem?, length, length-append, map, refl, some, suc,
  sym, ℕ, ◌++◌, ◌∙◌, ◌∷◌, ◌≡◌,
}
use gldap.Outcome.{ok}
use gldap.Options.Apply.{with_assert_child, with_tag}
use gldap.Ber.{
  Ber, IsBer, Packet, Value, children, class_universal, cons, nil, nil_value, node,
  tag_octet_string, tag_sequence, tag_set, to_list, type_constructed, type_primitive,
}
use gldap.Ber.Strings.{
  append_strings_node, snoc_strings, string_node, strings_data, to_list-snoc_strings,
}
use gldap.Packet.{assert, octet_strings}
use gldap.Attribute.{Attribute, decode_attribute, encode_attribute, encode_set, encode_typed}

get_elem?-append :
    (ps qs : List Packet) (c : Packet) → get_elem? (ps ++ c ∷ qs) (length ps) ≡ some c
get_elem?-append [] qs c = refl
get_elem?-append (p ∷ ps) qs c = get_elem?-append ps qs c

-- Asserting child `length ps` of a packet with these children checks the packet behind `ps`.
assert_at :
    (p : Packet) (ps qs : List Packet) (s : Text)
    → children p ≡ ps ++ string_node s ∷ qs
    → assert p class_universal type_primitive
        (with_tag tag_octet_string ∷ with_assert_child (length ps) ∷ [])
      ≡ ok tt
unfolding assert
assert_at p ps qs s e =
    let there : get_elem? (children p) (length ps) ≡ some (string_node s) =
      ap (λ l. get_elem? l (length ps)) e ∙ get_elem?-append ps qs (string_node s) in
    ground arith

snoc_children :
    (ps : List Packet) (c : Packet) (qs : List Packet) → ps ++ c ∷ qs ≡ (ps ++ c ∷ []) ++ qs
snoc_children ps c qs = sym (append_assoc ps (c ∷ []) qs)

length-snoc : (ps : List Packet) (c : Packet) → suc (length ps) ≡ length (ps ++ c ∷ [])
length-snoc ps c = omega (arith, length-append ps (c ∷ []))

-- The loop over string packets gives the strings back.
pub octet_strings_nodes :
    (p : Packet) (ps : List Packet) (vals : List Text)
    → children p ≡ ps ++ map string_node vals
    → octet_strings p (length ps) (map string_node vals) ≡ ok vals
unfolding octet_strings
octet_strings_nodes p ps [] e = refl
octet_strings_nodes p ps (v ∷ vs) e = rw (
  assert_at p ps (map string_node vs) v e,
  length-snoc ps (string_node v),
  octet_strings_nodes p (ps ++ string_node v ∷ []) vs
      (e ∙ snoc_children ps (string_node v) (map string_node vs)),
)

-- A packet whose children are built of strings gives the strings back.
pub octet_strings_built :
    (c t g : ℕ) (v : Value) (d : Text) (vals : List Text)
    → octet_strings (node c t g v d (snoc_strings nil vals)) 0 (to_list (snoc_strings nil vals))
      ≡ ok vals
octet_strings_built c t g v d vals =
    let p = node c t g v d (snoc_strings nil vals) in
    let e = to_list-snoc_strings nil vals in
    ap (octet_strings p 0) e ∙ octet_strings_nodes p [] vals e

module _ (b : Ber) (l : IsBer b) where
  pub encode_set_node :
      (vals : List Text)
      → encode_set b vals
        ≡ node class_universal type_constructed tag_set nil_value
            (strings_data b [] vals)
            (snoc_strings nil vals)
  encode_set_node vals =
      simp (encode_set, l.encode_nil)
        (append_strings_node b l class_universal type_constructed tag_set nil_value [] nil vals)

  -- The packet that the three `encode`s build: a sequence of the type and the set of values.
  pub encode_typed_node :
      (type : Text) (vals : List Text)
      → encode_typed b type vals
        ≡ node class_universal type_constructed tag_sequence nil_value
            (b.bytes (string_node type) ++ b.bytes (encode_set b vals))
            (cons (string_node type) (cons (encode_set b vals) nil))
  encode_typed_node type vals =
      simp (encode_typed, l.encode_nil, l.new_string_node, l.append_child_node)

  pub decode-encode_attribute :
      (a : Attribute) → decode_attribute (some (encode_attribute b a)) ≡ ok a
  unfolding encode_attribute decode_attribute
  decode-encode_attribute a = simp (encode_typed_node, encode_set_node) (rw octet_strings_built)
