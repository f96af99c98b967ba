-- ===== src/Directory/Changes.antt =====
-- What the changes of a modify request do to the attributes of an entry.
use gldap.Base.{
  All, Bool-cases, List, Text, [], ap, append-nil, append_assoc, arith, false, inl, inr, int_eq,
  int_eq_iff, length, none, refl, some, suc, sym, text_eq, text_eq_iff, ℕ, ◌++◌, ◌+◌, ◌∙◌, ◌∷◌, ◌≡◌,
  ◌≢◌, ◌⊎◌,
}
use gldap.Attribute.{
  Change, Entry, EntryAttribute, add_attribute, add_value, delete_attribute, new_entry_attribute,
}
use gldap.Message.{ModifyMessage}
use gldap.Response.{Response, set_matched_dn, set_result_code}
use gldap.Codes.{result_success}
use gldap.Directory.{Directory}
use gldap.Directory.Search.{in_parentheses}
use gldap.Directory.Update.{apply_change, apply_changes, apply_found, found_attr}
use gldap.Directory.Updates.{IsOnlyMatch, modify_answer-user, remove_at-append, replace_at-append}
use gldap.Directory.Handlers.{modify_answer}

-- None of the attributes has the name.
abbrev pub IsUnnamed : Text → List EntryAttribute → Type 0
IsUnnamed name = All (λ a. text_eq a.name name ≡ false)

-- The last attribute of the name stands between others.
pub record IsLastNamed (name : Text) (as' before after : List EntryAttribute) (a : EntryAttribute)
    : Type 0 where
  pub stands : as' ≡ before ++ a ∷ after
  pub is_named : a.name ≡ name
  pub none_after : IsUnnamed name after

-- An attribute with more values behind those that it had.
pub record HasMore (vals : List Text) (a more : EntryAttribute) : Type 0 where
  pub same_name : more.name ≡ a.name
  pub more_values : more.values ≡ a.values ++ vals
  pub more_byte_values : more.byte_values ≡ a.byte_values ++ vals

-- What a change makes of an entry's attributes. An attribute is added with its values, or, if there is
-- one of the name, the last of these has the values behind its own; the last attribute of a name is
-- deleted; any other operation, a replacement among them, changes nothing.
pub data IsChanged (chg : Change) (as' bs : List EntryAttribute) : Type 0 where
  added :
      chg.operation ≡ add_attribute
      → IsUnnamed chg.modification.type as'
      → bs ≡ as' ++ new_entry_attribute chg.modification.type chg.modification.vals ∷ []
      → IsChanged chg as' bs
  extended :
      (before after : List EntryAttribute) (a more : EntryAttribute)
      → chg.operation ≡ add_attribute
      → IsLastNamed chg.modification.type as' before after a
      → HasMore chg.modification.vals a more
      → bs ≡ before ++ more ∷ after
      → IsChanged chg as' bs
  deleted :
      (before after : List EntryAttribute) (a : EntryAttribute)
      → chg.operation ≡ delete_attribute
      → IsLastNamed chg.modification.type as' before after a
      → bs ≡ before ++ after
      → IsChanged chg as' bs
  absent :
      chg.operation ≡ delete_attribute
      → IsUnnamed chg.modification.type as'
      → bs ≡ as'
      → IsChanged chg as' bs
  ignored :
      chg.operation ≢ add_attribute
      → chg.operation ≢ delete_attribute
      → bs ≡ as'
      → IsChanged chg as' bs

-- The changes of a request, one behind the other.
abbrev pub AreChanged : List Change → List EntryAttribute → List EntryAttribute → Type 0
AreChanged [] as' bs = bs ≡ as'
AreChanged (c ∷ cs) as' bs =
    (between : List EntryAttribute) × IsChanged c as' between × AreChanged cs between bs

add_value-HasMore : (vals : List Text) (a : EntryAttribute) → HasMore vals a (add_value vals a)
unfolding add_value
add_value-HasMore [] a = record {
  same_name = refl;
  more_values = sym (append-nil a.values);
  more_byte_values = sym (append-nil a.byte_values);
}
add_value-HasMore (v ∷ vals) a =
    let h =
      add_value-HasMore vals
        (record a { values = a.values ++ v ∷ []; byte_values = a.byte_values ++ v ∷ [] }) in
    record {
      same_name = h.same_name;
      more_values = h.more_values ∙ append_assoc a.values (v ∷ []) vals;
      more_byte_values = h.more_byte_values ∙ append_assoc a.byte_values (v ∷ []) vals;
    }

found_attr-cases :
    (name : Text) (i : ℕ) (as' : List EntryAttribute)
    → ((found_attr name i as' ≡ none) × IsUnnamed name as')
      ⊎ ((before after : List EntryAttribute) × (a : EntryAttribute) × IsLastNamed name as' before
            after a
          × (found_attr name i as' ≡ some (i + length before, a)))
unfolding found_attr
found_attr-cases name i [] = inl (refl, tt)
found_attr-cases name i (a ∷ rest) = elim (found_attr-cases name (suc i) rest) [
  | inl (missing, others) ↦ elim (Bool-cases (text_eq a.name name)) [
    | inl on ↦ inr (
      [],
      rest,
      a,
      record { stands = refl; is_named = (text_eq_iff a.name name).0 on; none_after = others },
      rw (missing, on) (ap (λ n. some (n, a)) (omega arith)),
    )
    | inr off ↦ inl (rw (missing, off), (off, others))
  ]
  | inr (before, after, b, last, found) ↦ inr (
    a ∷ before,
    after,
    b,
    record {
      stands = ap (λ l. a ∷ l) last.stands;
      is_named = last.is_named;
      none_after = last.none_after;
    },
    rw found (ap (λ n. some (n, b)) (omega arith)),
  )
]

change_with :
    (chg : Change) (as' : List EntryAttribute)
    → IsChanged chg as' (apply_found chg (found_attr chg.modification.type 0 as') as')
change_with chg as' =
    let adds = int_eq_iff chg.operation add_attribute in
    let deletes = int_eq_iff chg.operation delete_attribute in
    elim (found_attr-cases chg.modification.type 0 as') [
      | inl (missing, others) ↦ elim (Bool-cases (int_eq chg.operation add_attribute)) [
        | inl on ↦ added (adds.0 on) others (rw (missing, on))
        | inr off ↦ elim (Bool-cases (int_eq chg.operation delete_attribute)) [
          | inl on ↦ absent (deletes.0 on) others (rw (missing, off))
          | inr off' ↦
              ignored (λ e. cc (off, adds.1 e)) (λ e. cc (off', deletes.1 e)) (rw (missing, off))
        ]
      ]
      | inr (before, after, a, last, found_at) ↦
          let found : found_attr chg.modification.type 0 as' ≡ some (length before, a) =
            found_at ∙ ap (λ n. some (n, a)) (omega arith) in
          elim (Bool-cases (int_eq chg.operation add_attribute)) [
            | inl on ↦
                let more = add_value chg.modification.vals a in
                extended before after a more (adds.0 on) last
                  (add_value-HasMore chg.modification.vals a)
                  (rw (found, on, last.stands) (replace_at-append before after a more))
            | inr off ↦ elim (Bool-cases (int_eq chg.operation delete_attribute)) [
              | inl on ↦
                  deleted before after a (deletes.0 on) last
                    (rw (found, off, on, last.stands) (remove_at-append before after a))
              | inr off' ↦
                  ignored (λ e. cc (off, adds.1 e)) (λ e. cc (off', deletes.1 e))
                    (rw (found, off, off'))
            ]
          ]
    ]

apply_changes-AreChanged :
    (cs : List Change) (e : Entry)
    → (bs : List EntryAttribute) × AreChanged cs e.attributes bs
      × (apply_changes cs e ≡ record e { attributes = bs })
unfolding apply_changes apply_change
apply_changes-AreChanged [] e = (e.attributes, refl, refl)
apply_changes-AreChanged (c ∷ cs) e =
    let between = apply_found c (found_attr c.modification.type 0 e.attributes) e.attributes in
    let (bs, rest, same) = apply_changes-AreChanged cs (record e { attributes = between }) in
    (bs, (between, change_with c e.attributes, rest), same)

-- A modify request whose DN matches one user succeeds, with the user's DN as the matched DN, and
-- changes the attributes of that user and nothing else, one change behind the other. An addition
-- puts its values behind those of the last attribute of the name, or appends an attribute if there
-- is none; a deletion removes the last attribute of the name, if there is one; a replacement, and
-- any other operation, changes nothing.
pub modify_answer-changed :
    (d : Directory) (m : ModifyMessage) (res : Response) (before after : List Entry) (e : Entry)
    → d.users ≡ before ++ e ∷ after
    → IsOnlyMatch (in_parentheses m.dn) before after e
    → (bs : List EntryAttribute) × AreChanged m.changes e.attributes bs
      × (modify_answer d m res ≡ (
        set_result_code result_success (set_matched_dn e.dn res),
        record d { users = before ++ record e { attributes = bs } ∷ after },
      ))
modify_answer-changed d m res before after e u o =
    let (bs, changed, same) = apply_changes-AreChanged m.changes e in
    (
      bs,
      changed,
      modify_answer-user d m res before after e u o
          ∙ ap
              (λ f. (
                set_result_code result_success (set_matched_dn e.dn res),
                record d { users = before ++ f ∷ after },
              ))
              same,
    )
