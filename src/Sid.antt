-- ===== src/Sid.antt =====
-- sid.go: security identifiers as bytes and as text. `binary.Write` to a buffer does not fail, and
-- `binary.Read` fails if the bytes run out.
pub mod RoundTrip
use gldap.Base.{List, Text, [], codes, suc, zero, ℕ, ◌%◌, ◌*◌, ◌++◌, ◌+◌, ◌/◌, ◌^◌, ◌∷◌}
use gldap.Outcome.{Outcome, err, library, ok, ◌>>=◌, ◌>>◌}
use gldap.Strconv.{format_uint}

-- `binary.BigEndian` of a uint16, `binary.LittleEndian` of a uint32.
abbrev pub big_endian_16 : ℕ → Text
big_endian_16 n = n / 256 % 256 ∷ n % 256 ∷ []

-- `SIDBytes`, of a uint8 and a uint16.
unfoldable pub sid_bytes : (revision identifier_authority : ℕ) → Outcome Text
sid_bytes revision identifier_authority =
    ok (revision ∷ 0 ∷ big_endian_16 0 ++ big_endian_16 0 ++ big_endian_16 identifier_authority)

-- `binary.Read` of a uint8, of a big-endian uint16 and of a little-endian uint32, with what is left.
abbrev pub read_8 : Text → Outcome (ℕ × Text)
read_8 [] = err library
read_8 (b0 ∷ rest) = ok (b0, rest)

abbrev pub read_big_endian_16 : Text → Outcome (ℕ × Text)
read_big_endian_16 (b0 ∷ b1 ∷ rest) = ok (b0 * 256 + b1, rest)
read_big_endian_16 _ = err library

abbrev pub read_little_endian_32 : Text → Outcome (ℕ × Text)
read_little_endian_32 (b0 ∷ b1 ∷ b2 ∷ b3 ∷ rest) =
    ok (b0 + b1 * 256 + b2 * 65536 + b3 * 16777216, rest)
read_little_endian_32 _ = err library

-- `binary.Read` of a slice of `count` uint32.
unfoldable pub read_sub_authorities : (count : ℕ) → Text → Outcome (List ℕ)
read_sub_authorities zero bytes = ok []
read_sub_authorities (suc count) bytes = do
  (first, rest) ← read_little_endian_32 bytes
  others ← read_sub_authorities count rest
  ok (first ∷ others)

-- The loop that appends `-%d` for each.
unfoldable pub format_parts : List ℕ → Text
format_parts [] = []
format_parts (part ∷ parts) = codes "-" ++ format_uint part ++ format_parts parts

-- `SIDBytesToString`
unfoldable pub sid_bytes_to_string : Text → Outcome Text
sid_bytes_to_string b = do
  (revision, b1) ← read_8 b
  (sub_authority_count, b2) ← read_8 b1
  (part0, b3) ← read_big_endian_16 b2
  (part1, b4) ← read_big_endian_16 b3
  (part2, b5) ← read_big_endian_16 b4
  sub_authority ← read_sub_authorities sub_authority_count b5
  let identifier_authority = (part0 * 2 ^ 32 + part1 * 2 ^ 16 + part2) % 2 ^ 64
  ok (
      codes "S-"
      ++ format_uint revision
      ++ codes "-"
      ++ format_uint identifier_authority
      ++ format_parts sub_authority)
