-- ===== src/Directory/Search.antt =====
-- `match` and `find` of testdirectory/directory.go.
use gldap.Base.{
  Bool, List, Option, Text, [], false, if◌then◌else◌, is_empty, leb, length, none, some, suc, true,
  zero, ℕ, ◌&&◌, ◌++◌, ◌==◌, ◌||◌, ◌∷◌,
}
use gldap.Attribute.{Entry}

abbrev pub prepend : ℕ → Option (Text × Text) → Option (Text × Text)
prepend c none = none
prepend c (some (element, rest)) = some (c ∷ element, rest)

-- `(.*?)\)` of the regular expression: the text up to the next `)` and what follows it, if no line ends
-- in between.
unfoldable pub until_close : Text → Option (Text × Text)
until_close [] = none
until_close (c ∷ s) =
    if c == b')' then some ([], s) else if c == b'\n' then none else prepend c (until_close s)

-- `FindAllString` of `\((.*?)\)`. Each round takes a byte at least, so as many rounds as there are
-- bytes are enough.
unfoldable pub find_all : (fuel : ℕ) → Text → List Text
find_all zero s = []
find_all (suc fuel) [] = []
find_all (suc fuel) (c ∷ s) =
    let skip = find_all fuel s in
    if c == b'('
    then elim (until_close s) [
      | none ↦ skip
      | some (element, rest) ↦ (b'(' ∷ element ++ b')' ∷ []) ∷ find_all fuel rest
    ]
    else skip

-- `strings.ReplaceAll(element, "*", "")`
unfoldable pub without_stars : Text → Text
without_stars [] = []
without_stars (c ∷ s) = if c == b'*' then without_stars s else c ∷ without_stars s

unfoldable pub trim_left : (ℕ → Bool) → Text → Text
trim_left cut [] = []
trim_left cut (c ∷ s) = if cut c then trim_left cut s else c ∷ s

unfoldable pub trim_right : (ℕ → Bool) → Text → Text
trim_right cut [] = []
trim_right cut (c ∷ s) =
    let rest = trim_right cut s in if is_empty rest && cut c then [] else c ∷ rest

-- `strings.Trim`, by the bytes of the cutset
abbrev pub trim : (ℕ → Bool) → Text → Text
trim cut s = trim_right cut (trim_left cut s)

-- `unicode.IsSpace` on ASCII
abbrev pub is_space : ℕ → Bool
is_space c = (leb 9 c && leb c 13) || c == b' '

-- The body of the loop in `match`, up to its test.
unfoldable pub clean : Text → Text
clean element = trim is_space (
    trim (λ c. c == b')')
      (trim (λ c. c == b'(') (trim (λ c. c == b'|' || c == b'(') (without_stars element))))

unfoldable pub has_prefix : Text → Text → Bool
has_prefix s [] = true
has_prefix [] (d ∷ t) = false
has_prefix (c ∷ s) (d ∷ t) = c == d && has_prefix s t

-- `strings.Contains`
unfoldable pub contains : Text → Text → Bool
contains [] part = has_prefix [] part
contains (c ∷ s) part = has_prefix (c ∷ s) part || contains s part

-- The loop of `match`.
unfoldable pub any_contained : List Text → Text → Bool
any_contained [] attr = false
any_contained (e ∷ es) attr = contains attr (clean e) || any_contained es attr

-- `match`, whose error is always nil.
unfoldable pub match_filter : Text → Text → Bool
match_filter filter attr = any_contained (find_all (length filter) filter) attr

-- The loop of `find` from the index `i` on: the indexes and the entries that match. Its callers here
-- give no options.
unfoldable pub find_from : Text → ℕ → List Entry → List ℕ × List Entry
find_from filter i [] = ([], [])
find_from filter i (e ∷ es) =
    let rest = find_from filter (suc i) es in
    if match_filter filter e.dn then (i ∷ rest.0, e ∷ rest.1) else rest

-- `find`; its first result says whether there are any.
abbrev pub find : Text → List Entry → List ℕ × List Entry
find filter entries = find_from filter 0 entries

-- `fmt.Sprintf("(%s)", dn)`
abbrev pub in_parentheses : Text → Text
in_parentheses dn = b'(' ∷ dn ++ b')' ∷ []
