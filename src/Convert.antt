-- ===== src/Convert.antt =====
-- `ConvertString` and `readLength` of request.go: the content of BER strings that are given as bytes.
-- A byte index out of range panics.
pub mod Encoded
pub mod Bounds
use gldap.Base.{
  List, Text, [], drop, if◌then◌else◌, ltb, minus_one, pos, signed, suc, zero, ℕ, ℤ, ◌%◌, ◌*◌, ◌+◌,
  ◌-◌, ◌==◌, ◌^◌, ◌||◌, ◌∷◌,
}
use gldap.Outcome.{Outcome, err, invalid_parameter, ok, panic, plain, ◌>>=◌, ◌>>◌}
use gldap.Ber.{tag, tag_general_string, tag_octet_string}

-- The loop of the long form: `count` bytes, from the bytes that are left. `length64` is the number
-- read so far, in the 64 bits of an int64.
unfoldable pub read_length_octets : (count : ℕ) (bytes : Text) (read length64 : ℕ) → Outcome (ℤ × ℕ)
read_length_octets zero bytes read length64 = ok (signed 63 length64, read)
read_length_octets (suc count) [] read length64 = panic
read_length_octets (suc count) (b ∷ bytes) read length64 =
    read_length_octets count bytes (suc read) ((length64 * 256 + b) % 2 ^ 64)

-- `readLength`: the length and the number of bytes that give it. An int has 64 bits here, so the cast
-- of the last check does not overflow; -1 is `ber.LengthIndefinite`.
unfoldable pub read_length : Text → Outcome (ℤ × ℕ)
read_length [] = panic
read_length (b ∷ bytes) =
    if b == 255
    then err plain
    else if b == 128
    then ok (minus_one, 1)
    else if ltb b 128
    then ok (pos b, 1)
    else if ltb 8 (b - 128)
    then err plain
    else read_length_octets (b - 128) bytes 1 0

-- One turn of the loop of `ConvertString`: a slice from behind the tag and the length.
unfoldable pub convert_one : Text → Outcome Text
convert_one [] = panic
convert_one (tag ∷ bytes) =
    if tag == tag_octet_string || tag == tag_general_string
    then (do (n, str_data_len) ← read_length bytes; ok (drop (1 + str_data_len) (tag ∷ bytes)))
    else err invalid_parameter

-- `ConvertString`
unfoldable pub convert_string : List Text → Outcome (List Text)
convert_string [] = ok []
convert_string (s ∷ octet_string) = do
  first ← convert_one s
  rest ← convert_string octet_string
  ok (first ∷ rest)
