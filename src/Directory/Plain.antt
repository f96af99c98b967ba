-- ===== src/Directory/Plain.antt =====
-- `match` on a DN in parentheses, as the handlers write it: a plain DN matches itself.
use gldap.Base.{
  All, All-append, All-map, Bool, Bool-cases, Text, [], ap, arith, false, inl, inr, is_empty,
  length, refl, some, subst, suc, sym, true, zero, ℕ, ◌&&◌, ◌++◌, ◌==◌, ◌||◌, ◌↔◌, ◌∙◌, ◌∷◌, ◌≡◌,
}
use gldap.Directory.Search.{
  any_contained, clean, contains, find_all, has_prefix, in_parentheses, is_space, match_filter,
  prepend, trim, trim_left, trim_right, until_close, without_stars,
}

-- The bytes that `match` takes apart or cuts off.
abbrev pub special : ℕ → Bool
special c = c == b'(' || c == b')' || c == b'*' || c == b'|' || c == b'\n'

abbrev pub IsPlain : Text → Type 0
IsPlain = All (λ c. special c ≡ false)

-- None of the bytes is cut off.
abbrev IsUncut : (ℕ → Bool) → Text → Type 0
IsUncut cut = All (λ c. cut c ≡ false)

until_close-plain : (s : Text) → IsPlain s → until_close (s ++ b')' ∷ []) ≡ some (s, [])
unfolding until_close prepend
until_close-plain [] h = refl
until_close-plain (c ∷ s) h =
    let closes : (c == b')') ≡ false = ground (arith, h.0) in
    let ends : (c == b'\n') ≡ false = ground (arith, h.0) in
    rw (closes, ends, until_close-plain s h.1)

find_all-nil : (fuel : ℕ) → find_all fuel [] ≡ []
unfolding find_all
find_all-nil zero = refl
find_all-nil (suc fuel) = refl

find_all-plain :
    (s : Text) (h : IsPlain s)
    → find_all (length (in_parentheses s)) (in_parentheses s) ≡ in_parentheses s ∷ []
unfolding find_all
find_all-plain s h = rw (until_close-plain s h, find_all-nil (length (s ++ b')' ∷ [])))

without_stars-plain : (s : Text) → IsPlain s → without_stars (s ++ b')' ∷ []) ≡ s ++ b')' ∷ []
unfolding without_stars
without_stars-plain [] h = refl
without_stars-plain (c ∷ s) h =
    let star : (c == b'*') ≡ false = ground (arith, h.0) in rw (star, without_stars-plain s h.1)

trim_left-uncut : (cut : ℕ → Bool) (s : Text) → IsUncut cut s → trim_left cut s ≡ s
unfolding trim_left
trim_left-uncut cut [] h = refl
trim_left-uncut cut (c ∷ s) h = rw h.0

trim_right-uncut : (cut : ℕ → Bool) (s : Text) → IsUncut cut s → trim_right cut s ≡ s
unfolding trim_right
trim_right-uncut cut [] h = refl
trim_right-uncut cut (c ∷ s) h = rw (trim_right-uncut cut s h.1, h.0) (ground arith)

-- A byte behind the others is cut off alone.
trim_right-last :
    (cut : ℕ → Bool) (s : Text) (c : ℕ)
    → IsUncut cut s
    → cut c ≡ true
    → trim_right cut (s ++ c ∷ []) ≡ s
unfolding trim_right
trim_right-last cut [] c h k = rw k
trim_right-last cut (d ∷ s) c h k = rw (trim_right-last cut s c h.1 k, h.0) (ground arith)

has_prefix-trim_right : (cut : ℕ → Bool) (s : Text) → has_prefix s (trim_right cut s) ≡ true
unfolding has_prefix trim_right
has_prefix-trim_right cut [] = refl
has_prefix-trim_right cut (c ∷ s) = elim (Bool-cases (is_empty (trim_right cut s) && cut c)) [
  | inl on ↦ rw on
  | inr off ↦ rw off (ground (arith, has_prefix-trim_right cut s))
]

contains-prefix : (s part : Text) → has_prefix s part ≡ true → contains s part ≡ true
unfolding contains
contains-prefix [] part h = h
contains-prefix (c ∷ s) part h = rw h

contains-trim_left :
    (cut : ℕ → Bool) (s part : Text)
    → contains (trim_left cut s) part ≡ true
    → contains s part ≡ true
unfolding contains trim_left
contains-trim_left cut [] part h = h
contains-trim_left cut (c ∷ s) part h = elim (Bool-cases (cut c)) [
  | inl on ↦
      let left : trim_left cut (c ∷ s) ≡ trim_left cut s = rw on in
      let ih = contains-trim_left cut s part (subst (λ t. contains t part ≡ true) left h) in
      ground (arith, ih)
  | inr off ↦
      let left : trim_left cut (c ∷ s) ≡ c ∷ s = rw off in
      subst (λ t. contains t part ≡ true) left h
]

-- A text contains what is left of it without the space around it.
contains-trim : (cut : ℕ → Bool) (s : Text) → contains s (trim cut s) ≡ true
contains-trim cut s =
    contains-trim_left cut s (trim cut s)
      (contains-prefix (trim_left cut s) (trim cut s) (has_prefix-trim_right cut (trim_left cut s)))

trim-uncut : (cut : ℕ → Bool) (s : Text) → IsUncut cut s → trim cut s ≡ s
trim-uncut cut s h = rw (trim_left-uncut cut s h, trim_right-uncut cut s h)

-- A closing parenthesis behind a plain text stays where it is not cut off itself.
trim-closed :
    (cut : ℕ → Bool)
    → ((c : ℕ) → special c ≡ false → cut c ≡ false)
    → cut b')' ≡ false
    → (s : Text) → IsPlain s
    → trim cut (s ++ b')' ∷ []) ≡ s ++ b')' ∷ []
trim-closed cut f k s h =
    trim-uncut cut (s ++ b')' ∷ [])
      (All-append (λ c. cut c ≡ false) s (b')' ∷ []) (All-map f s h) (k, tt))

trim-close : (s : Text) → IsPlain s → trim (λ c. c == b')') (s ++ b')' ∷ []) ≡ s
unfolding trim_left trim_right
trim-close [] h = refl
trim-close (c ∷ s) h =
    let uncut : IsUncut (λ d. d == b')') (c ∷ s) = All-map (λ d k. ground (arith, k)) (c ∷ s) h in
    rw uncut.0 (trim_right-last (λ d. d == b')') (c ∷ s) b')' uncut refl)

clean-plain : (s : Text) → IsPlain s → clean (in_parentheses s) ≡ trim is_space s
unfolding clean without_stars trim_left
clean-plain s h = rw (
  without_stars-plain s h,
  trim-closed (λ c. c == b'|' || c == b'(') (λ c k. ground (arith, k)) refl s h,
  trim-closed (λ c. c == b'(') (λ c k. ground (arith, k)) refl s h,
  trim-close s h,
)

match_filter-contains :
    (dn attr : Text)
    → IsPlain dn
    → match_filter (in_parentheses dn) attr ≡ contains attr (trim is_space dn)
unfolding match_filter any_contained
match_filter-contains dn attr h = rw (find_all-plain dn h, clean-plain dn h) (ground arith)

-- A plain DN matches itself.
pub match_filter-plain : (dn : Text) → IsPlain dn → match_filter (in_parentheses dn) dn ≡ true
match_filter-plain dn h = match_filter-contains dn dn h ∙ contains-trim is_space dn

tail_eq : (c d : ℕ) (s t : Text) → c ∷ s ≡ d ∷ t → s ≡ t
tail_eq c d s t e = cc e

has_prefix_iff : (s part : Text) → (has_prefix s part ≡ true) ↔ ((post : Text) × (s ≡ part ++ post))
unfolding has_prefix
has_prefix_iff s [] = ((λ h. (s, refl)), (λ h. refl))
has_prefix_iff [] (d ∷ part) = ((λ h. cc h), (λ (post, e). cc e))
has_prefix_iff (c ∷ s) (d ∷ part) =
    let ih = has_prefix_iff s part in
    (
      (λ h.
          let first : c ≡ d = ground (arith, h) in
          let others : has_prefix s part ≡ true = ground (arith, h) in
          let (post, e) = ih.0 others in (post, cc (first, e))),
      (λ (post, e).
          let first : c ≡ d = cc e in
          let others = ih.1 (post, tail_eq c d s (part ++ post) e) in
          ground (arith, first, others)),
    )

contains-middle : (s pre part post : Text) → s ≡ pre ++ part ++ post → contains s part ≡ true
unfolding contains
contains-middle [] [] part post e = (has_prefix_iff [] part).1 (post, e)
contains-middle [] (d ∷ pre) part post e = cc e
contains-middle (c ∷ s) [] part post e = rw ((has_prefix_iff (c ∷ s) part).1 (post, e))
contains-middle (c ∷ s) (d ∷ pre) part post e =
    let rest = contains-middle s pre part post (tail_eq c d s (pre ++ part ++ post) e) in
    ground (arith, rest)

contains-split :
    (s part : Text) → contains s part ≡ true → (pre post : Text) × (s ≡ pre ++ part ++ post)
unfolding contains
contains-split [] part h = let (post, e) = (has_prefix_iff [] part).0 h in ([], post, e)
contains-split (c ∷ s) part h = elim (Bool-cases (has_prefix (c ∷ s) part)) [
  | inl on ↦ let (post, e) = (has_prefix_iff (c ∷ s) part).0 on in ([], post, e)
  | inr off ↦
      let rest : contains s part ≡ true = ground (arith, h, off) in
      let (pre, post, e) = contains-split s part rest in (c ∷ pre, post, ap (λ t. c ∷ t) e)
]

-- The filter that the handlers make of a DN without parentheses, stars, bars and line feeds matches
-- exactly the DNs that contain the DN, without the space around it, anywhere.
pub match_filter_iff :
    (dn attr : Text)
    → IsPlain dn
    → (match_filter (in_parentheses dn) attr ≡ true)
      ↔ ((pre post : Text) × (attr ≡ pre ++ trim is_space dn ++ post))
match_filter_iff dn attr h =
    let e = match_filter-contains dn attr h in
    let part = trim is_space dn in
    (
      (λ k. contains-split attr part (sym e ∙ k)),
      (λ (pre, post, k). e ∙ contains-middle attr pre part post k),
    )
