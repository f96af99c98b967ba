-- ===== src/Route/Fold.antt =====
-- `strings.EqualFold`, which route.go compares base DNs and filters with. The comparison of the first
-- texts that are not ASCII, by Unicode's simple folding, is the argument `fold`.
use gldap.Base.{
  All, Bool, Text, [], arith, false, if◌then◌else◌, leb, map, true, ℕ, ◌&&◌, ◌+◌, ◌<◌, ◌==◌, ◌||◌,
  ◌↔◌, ◌∷◌, ◌≡◌,
}

-- `'A' <= sr && sr <= 'Z' && tr == sr+'a'-'A'`
abbrev other_case : ℕ → ℕ → Bool
other_case lower upper = leb 65 upper && leb upper 90 && lower == upper + 32

unfoldable pub equal_fold : (Text → Text → Bool) → Text → Text → Bool
equal_fold fold [] [] = true
equal_fold fold [] (d ∷ t) = false
equal_fold fold (c ∷ s) [] = false
equal_fold fold (c ∷ s) (d ∷ t) =
    if leb 128 c || leb 128 d
    then fold (c ∷ s) (d ∷ t)
    else ((c == d || other_case c d || other_case d c) && equal_fold fold s t)

-- The lower case of an ASCII byte.
abbrev pub lower : ℕ → ℕ
lower c = if leb 65 c && leb c 90 then c + 32 else c

abbrev pub IsAscii : Text → Type 0
IsAscii = All (λ c. c < 128)

-- On ASCII texts `EqualFold` is equality of the lower-case texts, whatever the folding of others is.
pub equal_fold_iff :
    (fold : Text → Text → Bool) (s t : Text)
    → IsAscii s
    → IsAscii t
    → (equal_fold fold s t ≡ true) ↔ (map lower s ≡ map lower t)
unfolding equal_fold
equal_fold_iff fold [] [] hs ht = ground arith
equal_fold_iff fold [] (d ∷ t) hs ht = ground arith
equal_fold_iff fold (c ∷ s) [] hs ht = ground arith
equal_fold_iff fold (c ∷ s) (d ∷ t) hs ht = ground (arith, equal_fold_iff fold s t hs.1 ht.1)
