-- ===== src/Ber.antt =====
-- The part of github.com/go-asn1-ber/asn1-ber that the program relies on. The library is not in the
-- repository: a packet is a struct whose fields the program reads, and the library's functions are
-- the fields of `Ber`, a parameter of the model, with `IsBer` for what they are documented to do.
-- Descriptions, which only logs show, are left out.
pub mod Model
pub mod Strings
pub mod Append
use gldap.Base.{
  ℕ, ◌<◌, ◌≡◌, Text, ℤ, pos, Fits, Bool, Option, none, some, List, [], ◌∷◌, ◌++◌, refl, ap,
}

-- `ber.Class`, `ber.Type` and `ber.Tag`: the numbers of X.690's identifier octets.
abbrev pub class_universal : ℕ
class_universal = 0

abbrev pub class_application : ℕ
class_application = 64

abbrev pub class_context : ℕ
class_context = 128

abbrev pub type_primitive : ℕ
type_primitive = 0

abbrev pub type_constructed : ℕ
type_constructed = 32

abbrev pub tag_boolean : ℕ
tag_boolean = 1

abbrev pub tag_integer : ℕ
tag_integer = 2

abbrev pub tag_octet_string : ℕ
tag_octet_string = 4

abbrev pub tag_enumerated : ℕ
tag_enumerated = 10

abbrev pub tag_sequence : ℕ
tag_sequence = 16

abbrev pub tag_set : ℕ
tag_set = 17

abbrev pub tag_general_string : ℕ
tag_general_string = 27

-- `Packet.Value`, an `interface{}`: nil, or a value of a dynamic type. `other` is any type that the
-- program does not ask for.
pub data Value : Type 0 where
  nil_value : Value
  int64 : ℤ → Value
  int16 : ℤ → Value
  int8 : ℤ → Value
  boolean : Bool → Value
  string : Text → Value
  byte_slice : Text → Value
  other : Value

-- `ber.Packet`: class, type, tag, value, the bytes of `Data`, and the children.
mutual
  pub data Packet : Type 0 where
    node : ℕ → ℕ → ℕ → Value → Text → Packets → Packet

  pub data Packets : Type 0 where
    nil : Packets
    cons : Packet → Packets → Packets

abbrev pub class_type : Packet → ℕ
class_type (node c t g v d ps) = c

abbrev pub tag_type : Packet → ℕ
tag_type (node c t g v d ps) = t

abbrev pub tag : Packet → ℕ
tag (node c t g v d ps) = g

abbrev pub value : Packet → Value
value (node c t g v d ps) = v

-- `Data.Bytes()`, `Data.String()`
abbrev pub contents : Packet → Text
contents (node c t g v d ps) = d

abbrev pub to_list : Packets → List Packet
to_list nil = []
to_list (cons p ps) = p ∷ to_list ps

abbrev pub of_list : List Packet → Packets
of_list [] = nil
of_list (p ∷ ps) = cons p (of_list ps)

abbrev pub children : Packet → List Packet
children (node c t g v d ps) = to_list ps

abbrev pub snoc : Packets → Packet → Packets
snoc nil q = cons q nil
snoc (cons p ps) q = cons p (snoc ps q)

-- `Value.(int64)`, `Value.(string)` and `Value.(bool)` with their second result: `none` is not ok.
abbrev pub as_int64 : Value → Option ℤ
as_int64 (int64 n) = some n
as_int64 _ = none

abbrev pub as_string : Value → Option Text
as_string (string s) = some s
as_string _ = none

abbrev pub as_bool : Value → Option Bool
as_bool (boolean b) = some b
as_bool _ = none

-- The functions of the library that the program calls.
pub record Ber : Type 0 where
  pub encode : (class type tag : ℕ) → Value → Packet
  pub new_string : (class type tag : ℕ) → Text → Packet
  pub new_integer : (class type tag : ℕ) → Value → Packet
  pub new_boolean : (class type tag : ℕ) → Bool → Packet
  pub append_child : Packet → Packet → Packet
  -- `Packet.Bytes()`
  pub bytes : Packet → Text
  -- The content octets that `NewInteger` and `NewBoolean` write.
  pub integer_data : Value → Text
  pub boolean_data : Bool → Text
  pub decode_packet : Text → Option Packet
  pub parse_int64 : Text → Option ℤ
  pub decode_string : Text → Text

-- What those functions are documented to do: a new packet has the identifier and the value that it
-- is given, a string's content is its bytes, a child is added behind the others, and an integer's
-- content octets parse back.
pub record IsBer (b : Ber) : Type 0 where
  pub encode_nil : (c t g : ℕ) → b.encode c t g nil_value ≡ node c t g nil_value [] nil
  pub new_string_node : (c t g : ℕ) (s : Text) → b.new_string c t g s ≡ node c t g (string s) s nil
  pub new_integer_node :
      (c t g : ℕ) (v : Value) → b.new_integer c t g v ≡ node c t g v (b.integer_data v) nil
  pub new_boolean_node :
      (c t g : ℕ) (x : Bool) → b.new_boolean c t g x ≡ node c t g (boolean x) (b.boolean_data x) nil
  pub append_child_node :
      (c t g : ℕ) (v : Value) (d : Text) (ps : Packets) (q : Packet)
      → b.append_child (node c t g v d ps) q ≡ node c t g v (d ++ b.bytes q) (snoc ps q)
  pub parse_int64_data : (n : ℤ) → Fits 63 n → b.parse_int64 (b.integer_data (int64 n)) ≡ some n
  pub small_integer_data : (n : ℕ) → n < 128 → b.integer_data (int8 (pos n)) ≡ n ∷ []
  pub decode_string_data : (d : Text) → b.decode_string d ≡ d

pub to_list-snoc : (ps : Packets) (q : Packet) → to_list (snoc ps q) ≡ to_list ps ++ q ∷ []
to_list-snoc nil q = refl
to_list-snoc (cons p ps) q = ap (λ r. p ∷ r) (to_list-snoc ps q)

pub to_list-of_list : (ps : List Packet) → to_list (of_list ps) ≡ ps
to_list-of_list [] = refl
to_list-of_list (p ∷ ps) = ap (λ r. p ∷ r) (to_list-of_list ps)
