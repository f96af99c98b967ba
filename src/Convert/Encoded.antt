-- ===== src/Convert/Encoded.antt =====
-- What `ConvertString` makes of encoded strings.
use gldap.Base.{
  All, List, Text, [], ap, arith, drop, false, length, ltb, map, pos, refl, signed, suc, true, ℕ, ℤ,
  ◌%◌, ◌*◌, ◌++◌, ◌+◌, ◌-◌, ◌<◌, ◌==◌, ◌^◌, ◌||◌, ◌∙◌, ◌∷◌, ◌≡◌, ◌≤◌, ◌⊎◌,
}
use gldap.Outcome.{ok, panic}
use gldap.Ber.{tag_general_string, tag_octet_string}
use gldap.Convert.{convert_one, convert_string, read_length, read_length_octets}

-- The length octets of X.690, 8.1.3: one octet below 128, or an octet that counts up to eight others.
pub data IsLength : Text → Type 0 where
  short : (n : ℕ) → n < 128 → IsLength (n ∷ [])
  long :
      (octets : Text)
      → 0 < length octets
      → length octets ≤ 8
      → IsLength ((128 + length octets) ∷ octets)

-- An encoded string: its tag, its length octets and its content.
pub record Encoded : Type 0 where
  pub tag : ℕ
  pub length_octets : Text
  pub content : Text

abbrev pub encoded_octets : Encoded → Text
encoded_octets e = e.tag ∷ e.length_octets ++ e.content

pub record IsEncoded (e : Encoded) : Type 0 where
  pub is_string : (e.tag ≡ tag_octet_string) ⊎ (e.tag ≡ tag_general_string)
  pub is_length : IsLength e.length_octets

one_plus : (n : ℕ) → 1 + n ≡ suc n
one_plus n = omega arith

drop-append : (xs ys : Text) → drop (length xs) (xs ++ ys) ≡ ys
drop-append [] ys = refl
drop-append (x ∷ xs) ys = drop-append xs ys

read_length_octets-read :
    (octets rest : Text) (read n : ℕ)
    → (m : ℤ) × (read_length_octets (length octets) (octets ++ rest) read n
        ≡ ok (m, read + length octets))
unfolding read_length_octets
read_length_octets-read [] rest read n = (signed 63 n, ap (λ r. ok (signed 63 n, r)) (omega arith))
read_length_octets-read (b ∷ octets) rest read n =
    let (m, e) = read_length_octets-read octets rest (suc read) ((n * 256 + b) % 2 ^ 64) in
    (m, e ∙ ap (λ r. ok (m, r)) (omega arith))

read_length-long :
    (k : ℕ) (bytes : Text)
    → 0 < k
    → k ≤ 8
    → read_length ((128 + k) ∷ bytes) ≡ read_length_octets k bytes 1 0
unfolding read_length
read_length-long k bytes h l =
    let not_ff : (128 + k == 255) ≡ false = ground arith in
    let not_indefinite : (128 + k == 128) ≡ false = ground arith in
    let not_short : ltb (128 + k) 128 ≡ false = ground arith in
    let not_over : ltb 8 (128 + k - 128) ≡ false = ground arith in
    let count : 128 + k - 128 ≡ k = omega arith in
    rw (not_ff, not_indefinite, not_short, not_over, count)

read_length-read :
    (octets rest : Text)
    → IsLength octets
    → (m : ℤ) × (read_length (octets ++ rest) ≡ ok (m, length octets))
unfolding read_length
read_length-read _ rest (short n h) = (pos n, ground arith)
read_length-read _ rest (long octets h k) =
    let (m, e) = read_length_octets-read octets rest 1 0 in
    (
      m,
      read_length-long (length octets) (octets ++ rest) h k
          ∙ e
          ∙ ap (λ r. ok (m, r)) (one_plus (length octets)),
    )

convert_one-encoded_octets :
    (e : Encoded) → IsEncoded e → convert_one (encoded_octets e) ≡ ok e.content
unfolding convert_one
convert_one-encoded_octets e i =
    let (m, r) = read_length-read e.length_octets e.content i.is_length in
    let string_tag : (e.tag == tag_octet_string || e.tag == tag_general_string) ≡ true =
      ground (arith, i.is_string) in
    rw (string_tag, r, one_plus (length e.length_octets))
      (ap ok (drop-append e.length_octets e.content))

-- `ConvertString` gives the contents of encoded octet strings and general strings, in order,
-- whether their lengths are in the short or the long form.
pub convert_string-encoded :
    (es : List Encoded)
    → All IsEncoded es
    → convert_string (map encoded_octets es) ≡ ok (map (λ e. e.content) es)
unfolding convert_string
convert_string-encoded [] h = refl
convert_string-encoded (e ∷ es) h =
    rw (convert_one-encoded_octets e h.0, convert_string-encoded es h.1)

-- An empty string behind any encoded strings makes `ConvertString` panic.
pub convert_string-empty :
    (es : List Encoded) (rest : List Text)
    → All IsEncoded es
    → convert_string (map encoded_octets es ++ [] ∷ rest) ≡ panic
unfolding convert_string convert_one
convert_string-empty [] rest h = refl
convert_string-empty (e ∷ es) rest h =
    rw (convert_one-encoded_octets e h.0, convert_string-empty es rest h.1)
