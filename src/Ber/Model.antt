-- ===== src/Ber/Model.antt =====
-- A library that meets `IsBer`, for the theorems' examples: identifiers and lengths of one byte and
-- content octets in base 256. It is no part of the program.
use gldap.Base.{
  suc, zero, ◌+◌, ◌≡◌, refl, Text, ℤ, pos, negsuc, Option, none, some, [], ◌∷◌, ◌++◌, length,
}
use gldap.Ber.{Value, int64, int8, boolean, string, Packet, node, nil, snoc, Ber, IsBer}

-- An integer as a sign and its magnitude; a byte where an int8 has one.
abbrev integer_octets : Value → Text
integer_octets (int8 (pos n)) = n ∷ []
integer_octets (int64 (pos n)) = 0 ∷ n ∷ []
integer_octets (int64 (negsuc n)) = 1 ∷ n ∷ []
integer_octets _ = []

abbrev parse_octets : Text → Option ℤ
parse_octets (zero ∷ n ∷ []) = some (pos n)
parse_octets (suc m ∷ n ∷ []) = some (negsuc n)
parse_octets _ = none

abbrev append_node : Packet → Packet → Text → Packet
append_node (node c t g v d ps) q e = node c t g v (d ++ e) (snoc ps q)

abbrev octets : Packet → Text
octets (node c t g v d ps) = (c + t + g) ∷ length d ∷ d

abbrev pub sample_ber : Ber
sample_ber = record {
  encode = λ c t g v. node c t g v [] nil;
  new_string = λ c t g s. node c t g (string s) s nil;
  new_integer = λ c t g v. node c t g v (integer_octets v) nil;
  new_boolean = λ c t g x. node c t g (boolean x) [] nil;
  append_child = λ p q. append_node p q (octets q);
  bytes = octets;
  integer_data = integer_octets;
  boolean_data = λ x. [];
  decode_packet = λ d. none;
  parse_int64 = parse_octets;
  decode_string = λ d. d;
}

parse_integer_octets : (n : ℤ) → parse_octets (integer_octets (int64 n)) ≡ some n
parse_integer_octets (pos n) = refl
parse_integer_octets (negsuc n) = refl

pub sample_ber-IsBer : IsBer sample_ber
sample_ber-IsBer = record {
  encode_nil = λ c t g. refl;
  new_string_node = λ c t g s. refl;
  new_integer_node = λ c t g v. refl;
  new_boolean_node = λ c t g x. refl;
  append_child_node = λ c t g v d ps q. refl;
  parse_int64_data = λ n h. parse_integer_octets n;
  small_integer_data = λ n h. refl;
  decode_string_data = λ d. refl;
}
