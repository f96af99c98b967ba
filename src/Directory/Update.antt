-- ===== src/Directory/Update.antt =====
-- The changes that the handlers of add, delete and modify requests make, of
-- testdirectory/directory.go.
use gldap.Base.{
  List, Option, Text, [], if◌then◌else◌, int_eq, none, some, suc, text_eq, zero, ℕ, ◌++◌, ◌∷◌,
}
use gldap.Attribute.{
  Attribute, AttributeMap, Change, Entry, EntryAttribute, add_attribute, add_value,
  delete_attribute, new_entry_attribute,
}

-- `attrs[k] = vals`
unfoldable pub map_assign : Text → List Text → AttributeMap → AttributeMap
map_assign k vals [] = (k, vals) ∷ []
map_assign k vals ((j, old) ∷ m) =
    if text_eq j k then (k, vals) ∷ m else (j, old) ∷ map_assign k vals m

-- The loop of `handleAdd` over the attributes of the message.
unfoldable pub assign_all : List Attribute → AttributeMap → AttributeMap
assign_all [] m = m
assign_all (a ∷ rest) m = assign_all rest (map_assign a.type a.vals m)

-- `append(l[:i], l[i+1:]...)`
unfoldable pub remove_at {ℓ} : {A : Type ℓ} → ℕ → List A → List A
remove_at i [] = []
remove_at zero (x ∷ xs) = xs
remove_at (suc i) (x ∷ xs) = x ∷ remove_at i xs

unfoldable pub replace_at {ℓ} : {A : Type ℓ} → ℕ → A → List A → List A
replace_at i y [] = []
replace_at zero y (x ∷ xs) = y ∷ xs
replace_at (suc i) y (x ∷ xs) = x ∷ replace_at i y xs

-- The inner loop of `handleModify`, from the index `i` on: the last attribute of the name.
unfoldable pub found_attr : Text → ℕ → List EntryAttribute → Option (ℕ × EntryAttribute)
found_attr name i [] = none
found_attr name i (a ∷ rest) = elim (found_attr name (suc i) rest) [
  | some found ↦ some found
  | none ↦ if text_eq a.name name then some (i, a) else none
]

-- The switch on the operation of a change. A replacement assigns a local pointer only, so it changes
-- nothing.
abbrev pub apply_found :
    Change → Option (ℕ × EntryAttribute) → List EntryAttribute → List EntryAttribute
apply_found chg none attributes =
    if int_eq chg.operation add_attribute
    then attributes ++ new_entry_attribute chg.modification.type chg.modification.vals ∷ []
    else attributes
apply_found chg (some (i, a)) attributes =
    if int_eq chg.operation add_attribute
    then replace_at i (add_value chg.modification.vals a) attributes
    else if int_eq chg.operation delete_attribute
    then remove_at i attributes
    else attributes

unfoldable pub apply_change : Change → Entry → Entry
apply_change chg e = record e {
  attributes = apply_found chg (found_attr chg.modification.type 0 e.attributes) e.attributes;
}

-- The loop of `handleModify` over the changes.
unfoldable pub apply_changes : List Change → Entry → Entry
apply_changes [] e = e
apply_changes (c ∷ cs) e = apply_changes cs (apply_change c e)
