-- ===== src/Directory/Filters.antt =====
-- The rounds that the search for parenthesised parts of a filter takes.
use gldap.Base.{
  Bool-cases, Option, Option-cases, Text, [], ap, arith, inl, inr, length, none, refl, some, subst,
  suc, sym, zero, ℕ, ◌++◌, ◌<◌, ◌==◌, ◌∷◌, ◌≡◌, ◌≤◌,
}
use gldap.Directory.Search.{find_all, prepend, until_close}

-- What is left behind a part is shorter.
abbrev IsShorter : Text → Option (Text × Text) → Type 0
IsShorter s none = Unit
IsShorter s (some (element, rest)) = length rest < length s

prepend-IsShorter :
    (c : ℕ) (s : Text) (o : Option (Text × Text)) → IsShorter s o → IsShorter (c ∷ s) (prepend c o)
prepend-IsShorter c s none h = tt
prepend-IsShorter c s (some (element, rest)) h = omega (arith, h)

until_close-IsShorter : (s : Text) → IsShorter s (until_close s)
unfolding until_close
until_close-IsShorter [] = tt
until_close-IsShorter (c ∷ s) = elim (Bool-cases (c == b')')) [
  | inl closes ↦
      let e : until_close (c ∷ s) ≡ some ([], s) = rw closes in
      subst (IsShorter (c ∷ s)) (sym e) (omega arith)
  | inr goes_on ↦ elim (Bool-cases (c == b'\n')) [
    | inl ends ↦
        let e : until_close (c ∷ s) ≡ none = rw (goes_on, ends) in
        subst (IsShorter (c ∷ s)) (sym e) tt
    | inr stays ↦
        let e : until_close (c ∷ s) ≡ prepend c (until_close s) = rw (goes_on, stays) in
        subst (IsShorter (c ∷ s)) (sym e)
          (prepend-IsShorter c s (until_close s) (until_close-IsShorter s))
  ]
]

-- With as many rounds as the filter has bytes, `FindAllString` has found every part: more rounds find
-- the same.
pub find_all-fuel : (f g : ℕ) (s : Text) → length s ≤ f → length s ≤ g → find_all f s ≡ find_all g s
unfolding find_all
find_all-fuel zero zero s hf hg = refl
find_all-fuel zero (suc g) [] hf hg = refl
find_all-fuel zero (suc g) (c ∷ s) hf hg = absurd (omega arith)
find_all-fuel (suc f) zero [] hf hg = refl
find_all-fuel (suc f) zero (c ∷ s) hf hg = absurd (omega arith)
find_all-fuel (suc f) (suc g) [] hf hg = refl
find_all-fuel (suc f) (suc g) (c ∷ s) hf hg =
    let skip : find_all f s ≡ find_all g s =
      find_all-fuel f g s (omega (arith, hf)) (omega (arith, hg)) in
    elim (Bool-cases (c == b'(')) [
      | inl opens ↦ elim (Option-cases (until_close s)) [
        | inl none_eq ↦ rw (opens, none_eq) skip
        | inr ((element, rest), some_eq) ↦
            let shorter = subst (IsShorter s) some_eq (until_close-IsShorter s) in
            rw (opens, some_eq)
              (ap (λ found. (b'(' ∷ element ++ b')' ∷ []) ∷ found)
                (find_all-fuel f g rest (omega (arith, hf, shorter)) (omega (arith, hg, shorter))))
      ]
      | inr off ↦ rw off skip
    ]
