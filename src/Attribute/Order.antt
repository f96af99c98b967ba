-- ===== src/Attribute/Order.antt =====
-- `NewEntry` does not depend on the order in which Go meets the keys of a map.
use mathlib.Core.List.{Permᴰ}
use mathlib.Core.Path.{fun_ext, subst}
use gldap.Base.{
  All, Bool, Bool-cases, List, Text, [], ap, arith, false, if◌then◌else◌, inl, inr, map, refl,
  subst, sym, text_eq, text_eq_iff, true, ◌||◌, ◌∙◌, ◌∷◌, ◌≡◌,
}
use gldap.Attribute.{
  AttributeMap, get_attribute_values, insert_text, keys, map_index, new_entry, new_entry_attribute,
  sort_texts, text_lt, values_of,
}

text_lt_asym : (s t : Text) → text_lt s t ≡ true → text_lt t s ≡ false
unfolding text_lt
text_lt_asym [] [] h = cc
text_lt_asym [] (d ∷ t) h = refl
text_lt_asym (c ∷ s) [] h = cc
text_lt_asym (c ∷ s) (d ∷ t) h = ground (arith, text_lt_asym s t)

-- Two different strings are in one order or the other.
text_eq_of_not_lt : (s t : Text) → text_lt s t ≡ false → text_lt t s ≡ false → s ≡ t
unfolding text_lt
text_eq_of_not_lt [] [] h k = refl
text_eq_of_not_lt [] (d ∷ t) h k = cc
text_eq_of_not_lt (c ∷ s) [] h k = cc
text_eq_of_not_lt (c ∷ s) (d ∷ t) h k = ground (arith, text_eq_of_not_lt s t)

text_lt_trans : (s t u : Text) → text_lt s t ≡ true → text_lt t u ≡ true → text_lt s u ≡ true
unfolding text_lt
text_lt_trans [] [] u h k = cc
text_lt_trans [] (d ∷ t) [] h k = cc
text_lt_trans [] (d ∷ t) (e ∷ u) h k = refl
text_lt_trans (c ∷ s) [] u h k = cc
text_lt_trans (c ∷ s) (d ∷ t) [] h k = cc
text_lt_trans (c ∷ s) (d ∷ t) (e ∷ u) h k = ground (arith, text_lt_trans s t u)

-- not (t < s) and not (u < t) give not (u < s)
text_le_trans : (s t u : Text) → text_lt t s ≡ false → text_lt u t ≡ false → text_lt u s ≡ false
text_le_trans s t u h k = elim (Bool-cases (text_lt u s)) [
  | inr e ↦ e
  | inl lt ↦ elim (Bool-cases (text_lt s t)) [
    | inl st ↦ cc (text_lt_trans u s t lt st)
    | inr ts ↦ cc (text_eq_of_not_lt s t ts h)
  ]
]

insert_text_comm :
    (x y : Text) (l : List Text) → insert_text x (insert_text y l) ≡ insert_text y (insert_text x l)
unfolding insert_text
insert_text_comm x y [] = ground (arith, text_lt_asym x y, text_lt_asym y x, text_eq_of_not_lt x y)
insert_text_comm x y (z ∷ l) = ground (
  arith,
  text_lt_asym x y,
  text_lt_asym y x,
  text_eq_of_not_lt x y,
  text_le_trans y x z,
  text_le_trans x y z,
  insert_text_comm x y l,
)

sort_texts-perm : {l m : List Text} → Permᴰ l m → sort_texts l ≡ sort_texts m
unfolding sort_texts
sort_texts-perm Permᴰ.nil = refl
sort_texts-perm (Permᴰ.cons e p) = rw (e, sort_texts-perm p)
sort_texts-perm (Permᴰ.swap {a} {b} {l} e f) = rw (← e, ← f) (insert_text_comm a b (sort_texts l))
sort_texts-perm (Permᴰ.trans p q) = sort_texts-perm p ∙ sort_texts-perm q

-- No key is listed twice: what makes a list of pairs a Go map.
abbrev pub IsNewKey : Text → AttributeMap → Type 0
IsNewKey k m = All (λ e. text_eq e.0 k ≡ false) m

abbrev pub IsMap : AttributeMap → Type 0
IsMap [] = Unit
IsMap ((k, v) ∷ m) = IsNewKey k m × IsMap m

keys-perm : {m n : AttributeMap} → Permᴰ m n → Permᴰ (keys m) (keys n)
keys-perm Permᴰ.nil = Permᴰ.nil
keys-perm (Permᴰ.cons e p) = Permᴰ.cons (ap (λ t. t.0) e) (keys-perm p)
keys-perm (Permᴰ.swap e f) = Permᴰ.swap (ap (λ t. t.0) e) (ap (λ t. t.0) f)
keys-perm (Permᴰ.trans p q) = Permᴰ.trans (keys-perm p) (keys-perm q)

IsNewKey-perm : (k : Text) {m n : AttributeMap} → Permᴰ m n → IsNewKey k m → IsNewKey k n
IsNewKey-perm k Permᴰ.nil h = tt
IsNewKey-perm k (Permᴰ.cons e p) h = (rw (← e) h.0, IsNewKey-perm k p h.1)
IsNewKey-perm k (Permᴰ.swap e f) h = (rw (← f) h.1.0, (rw (← e) h.0, h.1.1))
IsNewKey-perm k (Permᴰ.trans p q) h = IsNewKey-perm k q (IsNewKey-perm k p h)

text_eq_comm : (s t : Text) → text_eq s t ≡ false → text_eq t s ≡ false
text_eq_comm s t h = ground (arith, text_eq_iff s t, text_eq_iff t s)

IsMap-perm : {m n : AttributeMap} → Permᴰ m n → IsMap m → IsMap n
IsMap-perm Permᴰ.nil h = tt
IsMap-perm (Permᴰ.cons {a} e p) h = rw (← e) (IsNewKey-perm a.0 p h.0, IsMap-perm p h.1)
IsMap-perm (Permᴰ.swap {a} {b} {l} e f) h = (
  (rw (← e, ← f) (text_eq_comm b.0 a.0 h.0.0), subst (λ u. IsNewKey u.0 l) f h.1.0),
  (subst (λ u. IsNewKey u.0 l) e h.0.1, h.1.1),
)
IsMap-perm (Permᴰ.trans p q) h = IsMap-perm q (IsMap-perm p h)

map_index-perm :
    (k : Text) {m n : AttributeMap} → Permᴰ m n → IsMap m → map_index m k ≡ map_index n k
unfolding map_index
map_index-perm k Permᴰ.nil h = refl
map_index-perm k (Permᴰ.cons {a} e p) h = rw (← e, map_index-perm k p h.1)
map_index-perm k (Permᴰ.swap {a} {b} {l} e f) h =
    rw (← e, ← f) (ground (arith, text_eq_iff a.0 k, text_eq_iff b.0 k, text_eq_iff b.0 a.0))
map_index-perm k (Permᴰ.trans p q) h = map_index-perm k p h ∙ map_index-perm k q (IsMap-perm p h)

-- Whatever the order in which the keys of a map are met, `NewEntry` makes the same entry.
pub new_entry-perm :
    (dn : Text) (m n : AttributeMap) → IsMap m → Permᴰ m n → new_entry dn m ≡ new_entry dn n
unfolding new_entry
new_entry-perm dn m n h p = rw (sort_texts-perm (keys-perm p), fun_ext (λ k. map_index-perm k p h))

member : Text → List Text → Bool
member k [] = false
member k (x ∷ xs) = text_eq x k || member k xs

member-insert_text :
    (k x : Text) (l : List Text) → member k (insert_text x l) ≡ (text_eq x k || member k l)
unfolding member insert_text
member-insert_text k x [] = refl
member-insert_text k x (y ∷ l) = ground (arith, member-insert_text k x l)

member-sort_texts : (k : Text) (l : List Text) → member k (sort_texts l) ≡ member k l
unfolding member sort_texts
member-sort_texts k [] = refl
member-sort_texts k (x ∷ l) =
    member-insert_text k x (sort_texts l) ∙ ap (λ r. text_eq x k || r) (member-sort_texts k l)

map_index_of_not_member :
    (m : AttributeMap) (k : Text) → member k (keys m) ≡ false → map_index m k ≡ []
unfolding member map_index
map_index_of_not_member [] k h = refl
map_index_of_not_member ((j, v) ∷ m) k h = ground (arith, map_index_of_not_member m k)

module _ (f : Text → List Text) (k : Text) where
  values_of-map :
      (l : List Text)
      → values_of k (map (λ n. new_entry_attribute n (f n)) l) ≡ (if member k l then f k else [])
  unfolding member values_of new_entry_attribute
  values_of-map [] = refl
  values_of-map (x ∷ l) = elim (Bool-cases (text_eq x k)) [
    | inl e ↦ rw (e, (text_eq_iff x k).0 e)
    | inr e ↦ rw e (values_of-map l)
  ]

-- The new entry answers for each name what the map holds, and nothing for a name that it lacks.
pub get_attribute_values-new_entry :
    (dn : Text) (m : AttributeMap) (k : Text)
    → get_attribute_values (new_entry dn m) k ≡ map_index m k
unfolding get_attribute_values new_entry
get_attribute_values-new_entry dn m k =
    values_of-map (map_index m) k (sort_texts (keys m)) ∙ elim (Bool-cases (member k (keys m))) [
      | inl there ↦ rw (member-sort_texts k (keys m), there)
      | inr missing ↦
          rw (member-sort_texts k (keys m), missing) (sym (map_index_of_not_member m k missing))
    ]
