-- ===== src/Sid/RoundTrip.antt =====
-- The text of a security identifier that is given as bytes.
use gldap.Base.{
  All, List, Text, [], ap, append-nil, arith, codes, length, refl, ℕ, ◌%◌, ◌*◌, ◌++◌, ◌+◌, ◌/◌, ◌<◌,
  ◌^◌, ◌∙◌, ◌∷◌, ◌≡◌,
}
use gldap.Outcome.{ok, ◌>>=◌}
use gldap.Strconv.{format_uint}
use gldap.Sid.{big_endian_16, format_parts, read_sub_authorities, sid_bytes, sid_bytes_to_string}

-- The bytes of an identifier, as [MS-DTYP] lays them out: a revision, the count of the
-- sub-authorities, the authority in 48 bits, and the sub-authorities, lowest byte first.
pub record Identifier : Type 0 where
  pub revision : ℕ
  pub authority : ℕ
  pub sub_authorities : List ℕ

abbrev pub little_endian_32 : ℕ → Text
little_endian_32 n = n % 256 ∷ n / 256 % 256 ∷ n / 65536 % 256 ∷ n / 16777216 % 256 ∷ []

abbrev pub sub_authority_octets : List ℕ → Text
sub_authority_octets [] = []
sub_authority_octets (n ∷ ns) = little_endian_32 n ++ sub_authority_octets ns

abbrev pub identifier_octets : Identifier → Text
identifier_octets s =
    s.revision ∷ length s.sub_authorities ∷ big_endian_16 (s.authority / 2 ^ 32)
    ++ big_endian_16 (s.authority / 2 ^ 16)
    ++ big_endian_16 s.authority
    ++ sub_authority_octets s.sub_authorities

pub record IsIdentifier (s : Identifier) : Type 0 where
  pub authority_fits : s.authority < 2 ^ 48
  pub sub_authorities_fit : All (λ n. n < 2 ^ 32) s.sub_authorities

little_endian_lem :
    (n : ℕ)
    → n < 2 ^ 32
    → n % 256 + n / 256 % 256 * 256 + n / 65536 % 256 * 65536 + n / 16777216 % 256 * 16777216 ≡ n
little_endian_lem n h = omega arith

read_sub_authorities-octets :
    (ns : List ℕ) (rest : Text)
    → All (λ n. n < 2 ^ 32) ns
    → read_sub_authorities (length ns) (sub_authority_octets ns ++ rest) ≡ ok ns
unfolding read_sub_authorities
read_sub_authorities-octets [] rest h = refl
read_sub_authorities-octets (n ∷ ns) rest h =
    rw (little_endian_lem n h.0, read_sub_authorities-octets ns rest h.1)

authority_lem :
    (n : ℕ)
    → n < 2 ^ 48
    → ((n / 2 ^ 32 / 256 % 256 * 256 + n / 2 ^ 32 % 256) * 2 ^ 32
          + (n / 2 ^ 16 / 256 % 256 * 256 + n / 2 ^ 16 % 256) * 2 ^ 16
          + (n / 256 % 256 * 256 + n % 256))
        % 2 ^ 64
      ≡ n
authority_lem n h = omega (arith)

-- The bytes of every security identifier with an authority below 2^48 and sub-authorities below
-- 2^32, with anything behind them, become "S-", the revision, the authority and the sub-authorities
-- in decimal, with dashes between them.
pub sid_bytes_to_string-octets :
    (s : Identifier) (trailing : Text)
    → IsIdentifier s
    → sid_bytes_to_string (identifier_octets s ++ trailing)
      ≡ ok (
          codes "S-"
          ++ format_uint s.revision
          ++ codes "-"
          ++ format_uint s.authority
          ++ format_parts s.sub_authorities)
unfolding sid_bytes_to_string
sid_bytes_to_string-octets s trailing i = rw (
  read_sub_authorities-octets s.sub_authorities trailing i.sub_authorities_fit,
  authority_lem s.authority i.authority_fits,
)

zero_octet : (n : ℕ) → n < 2 ^ 16 → 0 ≡ n / 2 ^ 32 / 256 % 256
zero_octet n h = omega arith

zero_octet_1 : (n : ℕ) → n < 2 ^ 16 → 0 ≡ n / 2 ^ 32 % 256
zero_octet_1 n h = omega arith

zero_octet_2 : (n : ℕ) → n < 2 ^ 16 → 0 ≡ n / 2 ^ 16 / 256 % 256
zero_octet_2 n h = omega arith

zero_octet_3 : (n : ℕ) → n < 2 ^ 16 → 0 ≡ n / 2 ^ 16 % 256
zero_octet_3 n h = omega arith

abbrev plain_identifier : ℕ → ℕ → Identifier
plain_identifier revision authority = record {
  revision = revision;
  authority = authority;
  sub_authorities = [];
}

sid_bytes-octets :
    (revision n : ℕ)
    → n < 2 ^ 16
    → sid_bytes revision n ≡ ok (identifier_octets (plain_identifier revision n) ++ [])
unfolding sid_bytes
sid_bytes-octets revision n h =
    cc (zero_octet n h, zero_octet_1 n h, zero_octet_2 n h, zero_octet_3 n h)

-- What `SIDBytes` makes becomes "S-", the revision and the authority.
sid_bytes_to_string-sid_bytes :
    (revision identifier_authority : ℕ)
    → identifier_authority < 2 ^ 16
    → (sid_bytes revision identifier_authority >>= sid_bytes_to_string)
      ≡ ok (codes "S-" ++ format_uint revision ++ codes "-" ++ format_uint identifier_authority)
unfolding format_parts
sid_bytes_to_string-sid_bytes revision identifier_authority h =
    let s = plain_identifier revision identifier_authority in
    ap (λ o. o >>= sid_bytes_to_string) (sid_bytes-octets revision identifier_authority h)
    ∙ sid_bytes_to_string-octets s []
        (record { authority_fits = omega (arith, h); sub_authorities_fit = tt })
    ∙ rw (append-nil (format_uint revision ++ codes "-" ++ format_uint identifier_authority))
