-- ===== src/Directory/Updates.antt =====
-- What the add, delete and modify requests change in the directory for tests.
use gldap.Base.{
  All, List, Option, Text, [], ap, arith, false, length, none, refl, some, suc, true, zero, ℕ, ◌++◌,
  ◌+◌, ◌==◌, ◌∙◌, ◌∷◌, ◌≡◌,
}
use gldap.Codes.{result_success}
use gldap.Attribute.{Change, Entry, EntryAttribute, replace_attribute}
use gldap.Message.{DeleteMessage, ModifyMessage}
use gldap.Response.{Response, set_matched_dn, set_result_code}
use gldap.Directory.{Directory}
use gldap.Directory.Search.{any_contained, find, find_all, find_from, in_parentheses, match_filter}
use gldap.Directory.Update.{
  apply_change, apply_changes, apply_found, found_attr, remove_at, replace_at,
}
use gldap.Directory.Handlers.{delete_answer, modify_answer}

-- No entry's DN matches the filter.
abbrev pub NoMatch : Text → List Entry → Type 0
NoMatch filter = All (λ e. match_filter filter e.dn ≡ false)

-- Exactly one entry matches, between others that do not.
pub record IsOnlyMatch (filter : Text) (before after : List Entry) (e : Entry) : Type 0 where
  pub none_before : NoMatch filter before
  pub matches_it : match_filter filter e.dn ≡ true
  pub none_after : NoMatch filter after

pub find_from-none :
    (filter : Text) (i : ℕ) (es : List Entry) → NoMatch filter es → find_from filter i es ≡ ([], [])
unfolding find_from
find_from-none filter i [] h = refl
find_from-none filter i (e ∷ es) h = rw (h.0, find_from-none filter (suc i) es h.1)

find_from-only :
    (filter : Text) (i : ℕ) (before after : List Entry) (e : Entry)
    → IsOnlyMatch filter before after e
    → find_from filter i (before ++ e ∷ after) ≡ ((i + length before) ∷ [], e ∷ [])
unfolding find_from
find_from-only filter i [] after e o =
    rw (o.matches_it, find_from-none filter (suc i) after o.none_after)
      (ap (λ n. (n ∷ [], e ∷ [])) (omega arith))
find_from-only filter i (x ∷ before) after e o =
    let rest : IsOnlyMatch filter before after e = record {
      none_before = o.none_before.1;
      matches_it = o.matches_it;
      none_after = o.none_after;
    } in
    rw (o.none_before.0, find_from-only filter (suc i) before after e rest)
      (ap (λ n. (n ∷ [], e ∷ [])) (omega arith))

pub find-only :
    (filter : Text) (before after : List Entry) (e : Entry)
    → IsOnlyMatch filter before after e
    → find filter (before ++ e ∷ after) ≡ (length before ∷ [], e ∷ [])
find-only filter before after e o =
    find_from-only filter 0 before after e o ∙ ap (λ n. (n ∷ [], e ∷ [])) (omega arith)

pub remove_at-append {ℓ} :
    {A : Type ℓ} (before after : List A) (e : A)
    → remove_at (length before) (before ++ e ∷ after) ≡ before ++ after
unfolding remove_at
remove_at-append [] after e = refl
remove_at-append (x ∷ before) after e = ap (λ l. x ∷ l) (remove_at-append before after e)

pub replace_at-append {ℓ} :
    {A : Type ℓ} (before after : List A) (e f : A)
    → replace_at (length before) f (before ++ e ∷ after) ≡ before ++ f ∷ after
unfolding replace_at
replace_at-append [] after e f = refl
replace_at-append (x ∷ before) after e f = ap (λ l. x ∷ l) (replace_at-append before after e f)

-- A delete request whose DN matches one user removes that user and no other entry, and succeeds.
pub delete_answer-user :
    (d : Directory) (m : DeleteMessage) (res : Response) (before after : List Entry) (e : Entry)
    → d.users ≡ before ++ e ∷ after
    → IsOnlyMatch (in_parentheses m.dn) before after e
    → delete_answer d m res
      ≡ (set_result_code result_success res, record d { users = before ++ after })
unfolding delete_answer
delete_answer-user d m res before after e u o =
    rw (u, find-only (in_parentheses m.dn) before after e o, remove_at-append before after e)

-- A modify request whose DN matches one user applies its changes, in order, to that user and to no
-- other entry, and succeeds with the user's DN as the matched DN.
pub modify_answer-user :
    (d : Directory) (m : ModifyMessage) (res : Response) (before after : List Entry) (e : Entry)
    → d.users ≡ before ++ e ∷ after
    → IsOnlyMatch (in_parentheses m.dn) before after e
    → modify_answer d m res ≡ (
      set_result_code result_success (set_matched_dn e.dn res),
      record d { users = before ++ apply_changes m.changes e ∷ after },
    )
unfolding modify_answer
modify_answer-user d m res before after e u o = rw (
  u,
  find-only (in_parentheses m.dn) before after e o,
  replace_at-append before after e (apply_changes m.changes e),
)

apply_found-replace :
    (chg : Change) (found : Option (ℕ × EntryAttribute)) (attributes : List EntryAttribute)
    → chg.operation ≡ replace_attribute
    → apply_found chg found attributes ≡ attributes
apply_found-replace chg none attributes h = rw h
apply_found-replace chg (some (i, a)) attributes h = rw h

-- A replacement changes no entry.
apply_change-replace :
    (chg : Change) (e : Entry) → chg.operation ≡ replace_attribute → apply_change chg e ≡ e
unfolding apply_change
apply_change-replace chg e h =
    ap (λ attributes. record e { attributes = attributes })
      (apply_found-replace chg (found_attr chg.modification.type 0 e.attributes) e.attributes h)

-- A text without an opening parenthesis.
abbrev pub IsOpenless : Text → Type 0
IsOpenless = All (λ c. (c == b'(') ≡ false)

find_all-open : (fuel : ℕ) (s : Text) → IsOpenless s → find_all fuel s ≡ []
unfolding find_all
find_all-open zero s h = refl
find_all-open (suc fuel) [] h = refl
find_all-open (suc fuel) (c ∷ s) h = rw h.0 (find_all-open fuel s h.1)

filter-NoMatch : (filter : Text) (es : List Entry) → IsOpenless filter → NoMatch filter es
unfolding match_filter any_contained
filter-NoMatch filter [] h = tt
filter-NoMatch filter (e ∷ es) h =
    (rw (find_all-open (length filter) filter h), filter-NoMatch filter es h)

-- A modify request for a DN without parentheses never finds a group: unless it matches a user, it
-- leaves the directory and the response as they are, whatever groups there are.
pub modify_answer-group :
    (d : Directory) (m : ModifyMessage) (res : Response)
    → IsOpenless m.dn
    → NoMatch (in_parentheses m.dn) d.users
    → modify_answer d m res ≡ (res, d)
unfolding modify_answer
modify_answer-group d m res h n = rw (
  find_from-none (in_parentheses m.dn) 0 d.users n,
  find_from-none m.dn 0 d.groups (filter-NoMatch m.dn d.groups h),
)
