-- ===== src/Directory/Additions.antt =====
-- What an add request changes in the directory for tests.
use gldap.Base.{
  Bool-cases, List, Text, [], ap, arith, codes, false, if◌then◌else◌, inl, inr, refl, suc, text_eq,
  text_eq_iff, true, ℕ, ◌++◌, ◌∙◌, ◌∷◌, ◌≡◌, ◌≢◌,
}
use gldap.Codes.{result_entry_already_exists, result_success}
use gldap.Attribute.{Attribute, AttributeMap, Entry, get_attribute_values, map_index, new_entry}
use gldap.Attribute.Order.{get_attribute_values-new_entry}
use gldap.Message.{AddMessage}
use gldap.Response.{Response, set_diagnostic_message, set_result_code}
use gldap.Directory.{Directory}
use gldap.Directory.Search.{find, find_from, in_parentheses, match_filter}
use gldap.Directory.Update.{assign_all, map_assign}
use gldap.Directory.Updates.{NoMatch, find_from-none}
use gldap.Directory.Handlers.{add_answer}

find_from-some :
    (filter : Text) (i : ℕ) (before after : List Entry) (e : Entry)
    → match_filter filter e.dn ≡ true
    → (j : ℕ) × (more : List ℕ) × ((find_from filter i (before ++ e ∷ after)).0 ≡ j ∷ more)
unfolding find_from
find_from-some filter i [] after e h = (i, (find_from filter (suc i) after).0, rw h)
find_from-some filter i (x ∷ before) after e h =
    let (j, more, found) = find_from-some filter (suc i) before after e h in
    elim (Bool-cases (match_filter filter x.dn)) [
      | inl on ↦ (i, (find_from filter (suc i) (before ++ e ∷ after)).0, rw on)
      | inr off ↦ (j, more, rw off found)
    ]

-- The values of the last attribute of a name in an add request.
unfoldable pub last_vals : Text → List Attribute → List Text → List Text
last_vals k [] vals = vals
last_vals k (a ∷ rest) vals = last_vals k rest (if text_eq a.type k then a.vals else vals)

map_index-assign :
    (k j : Text) (vals : List Text) (m : AttributeMap)
    → map_index (map_assign j vals m) k ≡ (if text_eq j k then vals else map_index m k)
unfolding map_index map_assign
map_index-assign k j vals [] = ground arith
map_index-assign k j vals ((i, old) ∷ m) =
    let rest = map_index-assign k j vals m in
    elim (Bool-cases (text_eq i j)) [
      | inl on ↦
          let moved = ap (λ t. text_eq t k) ((text_eq_iff i j).0 on) in
          rw on (ground (arith, moved))
      | inr off ↦ rw off (ground (arith, rest, text_eq_iff i k, text_eq_iff j k, off, apart off))
    ]
  where
    apart : text_eq i j ≡ false → i ≢ j
    apart off e = cc (off, (text_eq_iff i j).1 e)

map_index-assign_all :
    (k : Text) (attrs : List Attribute) (m : AttributeMap)
    → map_index (assign_all attrs m) k ≡ last_vals k attrs (map_index m k)
unfolding assign_all last_vals
map_index-assign_all k [] m = refl
map_index-assign_all k (a ∷ rest) m =
    map_index-assign_all k rest (map_assign a.type a.vals m)
    ∙ ap (last_vals k rest) (map_index-assign k a.type a.vals m)

-- An add request whose DN matches no user appends one user with that DN, which answers for each
-- name the values of the request's last attribute of the name, and succeeds; one whose DN matches a
-- user changes nothing and answers "entry already exists".
pub add_answer-cases :
    (d : Directory) (m : AddMessage) (res : Response)
    → (NoMatch (in_parentheses m.dn) d.users
        → (e : Entry) × (add_answer d m res
            ≡ (set_result_code result_success res, record d { users = d.users ++ e ∷ [] }))
          × (e.dn ≡ m.dn)
          × ((k : Text) → get_attribute_values e k ≡ last_vals k m.attributes []))
      × ((before after : List Entry) (e : Entry)
          → d.users ≡ before ++ e ∷ after
          → match_filter (in_parentheses m.dn) e.dn ≡ true
          → add_answer d m res ≡ (
            set_diagnostic_message
                (codes "entry exists for DN: " ++ m.dn)
                (set_result_code result_entry_already_exists res),
            d,
          ))
unfolding add_answer new_entry map_index
add_answer-cases d m res = (
  (λ n. (
    new_entry m.dn (assign_all m.attributes []),
    rw (find_from-none (in_parentheses m.dn) 0 d.users n),
    refl,
    λ k.
        get_attribute_values-new_entry m.dn (assign_all m.attributes []) k
        ∙ map_index-assign_all k m.attributes [],
  )),
  λ before after e u h.
      let (j, more, found) = find_from-some (in_parentheses m.dn) 0 before after e h in
      rw (ap (λ us. (find (in_parentheses m.dn) us).0) u ∙ found),
)
