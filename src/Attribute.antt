-- ===== src/Attribute.antt =====
-- add.go, modify.go and entry.go: attributes, changes and entries, and their packets.
pub mod RoundTrip
pub mod Order
pub mod Printing
use gldap.Base.{
  Bool, List, Option, Text, [], false, get_elem?, if◌then◌else◌, ltb, map, none, pos, some, text_eq,
  true, ℤ, ◌&&◌, ◌++◌, ◌==◌, ◌||◌, ◌∷◌,
}
use gldap.Outcome.{Outcome, err, instead, invalid_parameter, ok, or_panic, ◌>>=◌, ◌>>◌}
use gldap.Options.Apply.{with_assert_child, with_tag}
use gldap.Ber.{
  Ber, Packet, children, class_universal, contents, int64, nil_value, tag_enumerated,
  tag_octet_string, tag_sequence, tag_set, type_constructed, type_primitive,
}
use gldap.Ber.Strings.{append_strings}
use gldap.Packet.{assert, octet_strings}

-- `Attribute` of add.go
pub record Attribute : Type 0 where
  pub type : Text
  pub vals : List Text

-- `PartialAttribute` and `Change` of modify.go; `operation` is an int64.
pub record PartialAttribute : Type 0 where
  pub type : Text
  pub vals : List Text

pub record Change : Type 0 where
  pub operation : ℤ
  pub modification : PartialAttribute

-- The change operations.
abbrev pub add_attribute : ℤ
add_attribute = pos 0

abbrev pub delete_attribute : ℤ
delete_attribute = pos 1

abbrev pub replace_attribute : ℤ
replace_attribute = pos 2

-- `EntryAttribute` and `Entry` of entry.go
pub record EntryAttribute : Type 0 where
  pub name : Text
  pub values : List Text
  pub byte_values : List Text

pub record Entry : Type 0 where
  pub dn : Text
  pub attributes : List EntryAttribute

-- `NewEntryAttribute`: the byte values are the bytes of the values.
unfoldable pub new_entry_attribute : Text → List Text → EntryAttribute
new_entry_attribute name values = record {
  name = name;
  values = values;
  byte_values = map (λ v. v) values;
}

-- `(*EntryAttribute).AddValue`
unfoldable pub add_value : List Text → EntryAttribute → EntryAttribute
add_value [] e = e
add_value (v ∷ vs) e =
    add_value vs (record e { values = e.values ++ v ∷ []; byte_values = e.byte_values ++ v ∷ [] })

-- The loop of `(*Entry).GetAttributeValues`.
unfoldable pub values_of : Text → List EntryAttribute → List Text
values_of attribute [] = []
values_of attribute (a ∷ as') =
    if text_eq a.name attribute then a.values else values_of attribute as'

-- `(*Entry).GetAttributeValues`
unfoldable pub get_attribute_values : Entry → Text → List Text
unfolding values_of
get_attribute_values e attribute = values_of attribute e.attributes

-- `<` on strings
unfoldable pub text_lt : Text → Text → Bool
text_lt [] [] = false
text_lt [] (d ∷ t) = true
text_lt (c ∷ s) [] = false
text_lt (c ∷ s) (d ∷ t) = ltb c d || (c == d && text_lt s t)

-- `sort.Strings`
unfoldable pub insert_text : Text → List Text → List Text
insert_text x [] = x ∷ []
insert_text x (y ∷ ys) = if text_lt y x then y ∷ insert_text x ys else x ∷ y ∷ ys

unfoldable pub sort_texts : List Text → List Text
unfolding insert_text
sort_texts [] = []
sort_texts (x ∷ xs) = insert_text x (sort_texts xs)

-- A Go map from names to values, listed in the order in which `range` meets its keys; an index
-- expression gives nil for a missing key.
abbrev pub AttributeMap : Type 0
AttributeMap = List (Text × List Text)

unfoldable pub map_index : AttributeMap → Text → List Text
map_index [] k = []
map_index ((j, v) ∷ m) k = if text_eq j k then v else map_index m k

abbrev pub keys : AttributeMap → List Text
keys [] = []
keys ((j, v) ∷ m) = j ∷ keys m

-- `NewEntry`
unfoldable pub new_entry : Text → AttributeMap → Entry
unfolding sort_texts map_index new_entry_attribute
new_entry dn attributes = record {
  dn = dn;
  attributes =
      map (λ n. new_entry_attribute n (map_index attributes n)) (sort_texts (keys attributes));
}

module _ (b : Ber) where
  -- The set of values, and the sequence of a type and a set, that the three `encode`s build.
  abbrev pub encode_set : List Text → Packet
  encode_set vals =
      append_strings b (b.encode class_universal type_constructed tag_set nil_value) vals

  abbrev pub encode_typed : Text → List Text → Packet
  encode_typed type vals =
      b.append_child
        (b.append_child (b.encode class_universal type_constructed tag_sequence nil_value)
          (b.new_string class_universal type_primitive tag_octet_string type))
        (encode_set vals)

  -- `(*Attribute).encode`
  unfoldable pub encode_attribute : Attribute → Packet
  encode_attribute a = encode_typed a.type a.vals

  -- `(*PartialAttribute).encode`
  unfoldable pub encode_partial_attribute : PartialAttribute → Packet
  encode_partial_attribute p = encode_typed p.type p.vals

  -- `(*EntryAttribute).encode`
  unfoldable pub encode_entry_attribute : EntryAttribute → Packet
  encode_entry_attribute e = encode_typed e.name e.values

  -- `(*Change).encode`
  unfoldable pub encode_change : Change → Packet
  encode_change c =
      b.append_child
        (b.append_child (b.encode class_universal type_constructed tag_sequence nil_value)
          (b.new_integer class_universal type_primitive tag_enumerated (int64 c.operation)))
        (encode_partial_attribute c.modification)

-- `decodeAttribute`
unfoldable pub decode_attribute : Option Packet → Outcome Attribute
unfolding assert octet_strings
decode_attribute none = err invalid_parameter
decode_attribute (some seq) = do
  instead invalid_parameter
      (assert seq class_universal type_constructed (with_tag tag_sequence ∷ []))
  instead invalid_parameter (
      assert seq class_universal type_primitive
        (with_tag tag_octet_string ∷ with_assert_child 0 ∷ []))
  type ← or_panic (get_elem? (children seq) 0)
  instead invalid_parameter
      (assert seq class_universal type_constructed (with_tag tag_set ∷ with_assert_child 1 ∷ []))
  values ← or_panic (get_elem? (children seq) 1)
  vals ← octet_strings values 0 (children values)
  ok (record { type = contents type; vals = vals })
