-- ===== src/Strconv/RoundTrip.antt =====
-- Parsing what was printed.
use gldap.Base.{
  ℕ, zero, suc, ◌+◌, ◌/◌, ◌%◌, ◌<◌, ◌≤◌, ◌≡◌, refl, ap, ◌∙◌, Text, ℤ, pos, negsuc, Fits, true,
  false, some, [], ◌∷◌, arith,
}
use gldap.Strconv.{digits_from, format_uint, format_int, scan, parse_digits, in_range, parse_int}

scan-digits_from : (f n : ℕ) (out : Text) → n < f → scan (digits_from f n out) 0 ≡ scan out n
unfolding digits_from scan
scan-digits_from zero n out h = elim h [ ]
scan-digits_from (suc f) n out h =
    ground (arith, scan-digits_from f (n / 10) ((b'0' + n % 10) ∷ out))

-- A printed number begins with a digit.
abbrev pub BeginsWithDigit : Text → Type 0
BeginsWithDigit [] = ⊥
BeginsWithDigit (c ∷ s) = (b'0' ≤ c) × (c ≤ b'9')

digits_from-BeginsWithDigit : (f n : ℕ) (out : Text) → n < f → BeginsWithDigit (digits_from f n out)
unfolding digits_from
digits_from-BeginsWithDigit zero n out h = elim h [ ]
digits_from-BeginsWithDigit (suc f) n out h =
    ground (arith, digits_from-BeginsWithDigit f (n / 10) ((b'0' + n % 10) ∷ out))

pub format_uint-BeginsWithDigit : (n : ℕ) → BeginsWithDigit (format_uint n)
unfolding format_uint
format_uint-BeginsWithDigit n = digits_from-BeginsWithDigit (suc n) n [] (omega arith)

parse_digits-eq-scan : (s : Text) → BeginsWithDigit s → parse_digits s ≡ scan s 0
unfolding parse_digits
parse_digits-eq-scan [] h = absurd h
parse_digits-eq-scan (c ∷ s) h = refl

scan-format_uint : (n : ℕ) → scan (format_uint n) 0 ≡ some n
unfolding format_uint scan
scan-format_uint n = scan-digits_from (suc n) n [] (omega arith)

parse_digits-format_uint : (n : ℕ) → parse_digits (format_uint n) ≡ some n
parse_digits-format_uint n =
    parse_digits-eq-scan (format_uint n) (format_uint-BeginsWithDigit n) ∙ scan-format_uint n

parse_int_of_digits : (s : Text) → BeginsWithDigit s → parse_int s ≡ in_range false (parse_digits s)
unfolding parse_int
parse_int_of_digits [] h = absurd h
parse_int_of_digits (c ∷ s) h = ground arith

parse_int_of_minus : (s : Text) → parse_int (b'-' ∷ s) ≡ in_range true (parse_digits s)
unfolding parse_int
parse_int_of_minus s = refl

in_range_pos : (n : ℕ) → Fits 63 (pos n) → in_range false (some n) ≡ some (pos n)
unfolding in_range
in_range_pos n h = ground arith

in_range_negsuc : (n : ℕ) → Fits 63 (negsuc n) → in_range true (some (suc n)) ≡ some (negsuc n)
unfolding in_range
in_range_negsuc n h = ground arith

-- Every int64 is read back as it was written.
pub parse_int-format_int : (n : ℤ) → Fits 63 n → parse_int (format_int n) ≡ some n
unfolding format_int
parse_int-format_int (pos n) h =
    parse_int_of_digits (format_uint n) (format_uint-BeginsWithDigit n)
    ∙ ap (in_range false) (parse_digits-format_uint n)
    ∙ in_range_pos n h
parse_int-format_int (negsuc n) h =
    parse_int_of_minus (format_uint (suc n))
    ∙ ap (in_range true) (parse_digits-format_uint (suc n))
    ∙ in_range_negsuc n h
