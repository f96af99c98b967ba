-- ===== src/Ber/Strings.antt =====
-- The packet of a list of strings, as the library builds it.
use gldap.Base.{
  List, Text, [], ap, append-nil, append_assoc, map, refl, sym, ℕ, ◌++◌, ◌∙◌, ◌∷◌, ◌≡◌,
}
use gldap.Ber.{
  Ber, IsBer, Packet, Packets, Value, class_universal, nil, node, snoc, string, tag_octet_string,
  to_list, to_list-snoc, type_primitive,
}

-- The packet that `ber.NewString` makes of a universal octet string.
abbrev pub string_node : Text → Packet
string_node s = node class_universal type_primitive tag_octet_string (string s) s nil

abbrev pub snoc_strings : Packets → List Text → Packets
snoc_strings ps [] = ps
snoc_strings ps (v ∷ vs) = snoc_strings (snoc ps (string_node v)) vs

pub to_list-snoc_strings :
    (ps : Packets) (vals : List Text)
    → to_list (snoc_strings ps vals) ≡ to_list ps ++ map string_node vals
to_list-snoc_strings ps [] = sym (append-nil (to_list ps))
to_list-snoc_strings ps (v ∷ vs) =
    to_list-snoc_strings (snoc ps (string_node v)) vs
    ∙ ap (λ l. l ++ map string_node vs) (to_list-snoc ps (string_node v))
    ∙ append_assoc (to_list ps) (string_node v ∷ []) (map string_node vs)

module _ (b : Ber) where
  abbrev pub strings_data : Text → List Text → Text
  strings_data d [] = d
  strings_data d (v ∷ vs) = strings_data (d ++ b.bytes (string_node v)) vs

  abbrev pub append_strings : Packet → List Text → Packet
  append_strings p [] = p
  append_strings p (v ∷ vs) =
      append_strings
        (b.append_child p (b.new_string class_universal type_primitive tag_octet_string v)) vs

  module _ (l : IsBer b) (c t g : ℕ) (v : Value) where
    pub append_strings_node :
        (d : Text) (ps : Packets) (vals : List Text)
        → append_strings (node c t g v d ps) vals
          ≡ node c t g v (strings_data d vals) (snoc_strings ps vals)
    append_strings_node d ps [] = refl
    append_strings_node d ps (x ∷ xs) =
        simp (l.new_string_node, l.append_child_node)
          (append_strings_node (d ++ b.bytes (string_node x)) (snoc ps (string_node x)) xs)
