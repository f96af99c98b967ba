-- ===== src/Attribute/Printing.antt =====
-- The `PrettyPrint` methods of entry.go, as the text that they write.
use gldap.Base.{List, Text, [], codes, suc, zero, ℕ, ◌++◌, ◌+◌, ◌∷◌}
use gldap.Attribute.{Entry, EntryAttribute}

-- `strings.Repeat(" ", indent)`
abbrev spaces : ℕ → Text
spaces zero = []
spaces (suc n) = b' ' ∷ spaces n

-- `%s` of a slice of strings, within its brackets
abbrev joined : List Text → Text
joined [] = []
joined (v ∷ []) = v
joined (v ∷ w ∷ vs) = v ++ b' ' ∷ joined (w ∷ vs)

-- `(*EntryAttribute).PrettyPrint`
unfoldable pub print_attribute : (indent : ℕ) → EntryAttribute → Text
print_attribute indent e = spaces indent ++ e.name ++ codes ": [" ++ joined e.values ++ codes "]\n"

abbrev print_attributes : (indent : ℕ) → List EntryAttribute → Text
print_attributes indent [] = []
print_attributes indent (a ∷ as') = print_attribute indent a ++ print_attributes indent as'

-- `(*Entry).PrettyPrint`
unfoldable pub print_entry : (indent : ℕ) → Entry → Text
print_entry indent e =
    spaces indent
    ++ codes "DN: "
    ++ e.dn
    ++ codes "\n"
    ++ print_attributes (indent + 2) e.attributes
