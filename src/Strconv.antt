-- ===== src/Strconv.antt =====
-- The decimal conversions of Go's standard library that the program calls: `strconv.FormatInt` and
-- `%d`, and `strconv.ParseInt(s, 10, 64)`. Every parse error is one failure here.
pub mod RoundTrip
use gldap.Base.{
  ℕ, zero, suc, ◌+◌, ◌-◌, ◌*◌, ◌/◌, ◌%◌, ◌^◌, Text, ℤ, pos, negsuc, Bool, true, false, ◌||◌, Option,
  none, some, [], ◌∷◌, ltb, ◌==◌, if◌then◌else◌,
}

-- The digits of `n` in front of `out`; one round for each digit, so `suc n` rounds are enough.
digits_from : ℕ → ℕ → Text → Text
digits_from zero n out = out
digits_from (suc f) n out =
    let more = digits_from f (n / 10) ((b'0' + n % 10) ∷ out) in
    if ltb n 10 then (b'0' + n) ∷ out else more

-- `%d` of an unsigned number
unfoldable pub format_uint : ℕ → Text
unfolding digits_from
format_uint n = digits_from (suc n) n []

-- `strconv.FormatInt(i, 10)`
unfoldable pub format_int : ℤ → Text
format_int (pos n) = format_uint n
format_int (negsuc n) = b'-' ∷ format_uint (suc n)

-- The value of digits behind the number `n`.
scan : Text → ℕ → Option ℕ
scan [] n = some n
scan (c ∷ s) n =
    let rest = scan s (n * 10 + (c - b'0')) in if ltb c b'0' || ltb b'9' c then none else rest

parse_digits : Text → Option ℕ
unfolding scan
parse_digits [] = none
parse_digits (c ∷ s) = scan (c ∷ s) 0

-- The range of an int64.
in_range : Bool → Option ℕ → Option ℤ
in_range neg none = none
in_range false (some n) = if ltb n (2 ^ 63) then some (pos n) else none
in_range true (some zero) = some (pos 0)
in_range true (some (suc n)) = if ltb n (2 ^ 63) then some (negsuc n) else none

unfoldable pub parse_int : Text → Option ℤ
unfolding parse_digits in_range
parse_int [] = none
parse_int (c ∷ s) =
    if c == b'-'
    then in_range true (parse_digits s)
    else if c == b'+'
    then in_range false (parse_digits s)
    else in_range false (parse_digits (c ∷ s))
