-- ===== src/Directory/Deletes.antt =====
-- `handleDelete` in its two halves: it looks entries up before it takes the directory's lock, and cuts
-- one out under the lock, when other handlers may have changed the directory.
use gldap.Base.{
  All, All-map, Bool-cases, List, Text, [], arith, if◌then◌else◌, inl, inr, length, length-append,
  ltb, lt→ltb, refl, suc, true, ℕ, ◌++◌, ◌+◌, ◌<◌, ◌↔◌, ◌∷◌, ◌≡◌, ◌≤◌,
}
use gldap.Outcome.{Outcome, ok, panic, ◌>>=◌}
use gldap.Attribute.{Entry}
use gldap.Message.{DeleteMessage}
use gldap.Response.{Response, set_diagnostic_message, set_result_code}
use gldap.Codes.{result_inappropriate_matching, result_success}
use gldap.Directory.{Directory}
use gldap.Directory.Search.{find, find_from, in_parentheses, match_filter}
use gldap.Directory.Update.{remove_at}
use gldap.Directory.Updates.{IsOnlyMatch, delete_answer-user, find-only}
use gldap.Directory.Handlers.{Answer, delete_answer, delete_found, more_than_one}

-- What the search has found: an index in the users, an index in the groups, or an answer at once.
pub data Lookup : Type 0 where
  cut_user : ℕ → Lookup
  cut_group : ℕ → Lookup
  answer_now : Response → Lookup

abbrev looked_up : List ℕ → (ℕ → Lookup) → Response → (otherwise : Lookup) → Lookup
looked_up [] cut res otherwise = otherwise
looked_up (i ∷ []) cut res otherwise = cut i
looked_up (i ∷ j ∷ more) cut res otherwise = answer_now (
    set_diagnostic_message (more_than_one (length (i ∷ j ∷ more)))
      (set_result_code result_inappropriate_matching res))

-- `handleDelete` in front of `d.mu.Lock()`
unfoldable pub look_up : Directory → DeleteMessage → Response → Lookup
look_up d m res =
    looked_up (find (in_parentheses m.dn) d.users).0 cut_user res
      (looked_up (find (in_parentheses m.dn) d.groups).0 cut_group res (answer_now res))

-- `append(l[:i], l[i+1:]...)`, which panics if the index is out of range.
abbrev pub cut_out : ℕ → List Entry → Outcome (List Entry)
cut_out i es = if ltb i (length es) then ok (remove_at i es) else panic

-- `handleDelete` behind `d.mu.Lock()`, on the directory as it is then.
unfoldable pub commit : Lookup → Response → Directory → Outcome Answer
commit (cut_user i) res d = do
  users ← cut_out i d.users
  ok (set_result_code result_success res, record d { users = users })
commit (cut_group i) res d = do
  groups ← cut_out i d.groups
  ok (set_result_code result_success res, record d { groups = groups })
commit (answer_now r) res d = ok (r, d)

find_from-bound :
    (filter : Text) (i : ℕ) (es : List Entry)
    → All (λ j. j < i + length es) (find_from filter i es).0
unfolding find_from
find_from-bound filter i [] = tt
find_from-bound filter i (e ∷ es) =
    let rest =
      All-map (λ j (h : j < suc i + length es). omega (arith, h)) (find_from filter (suc i) es).0
        (find_from-bound filter (suc i) es) in
    elim (Bool-cases (match_filter filter e.dn)) [
      | inl on ↦ rw on (omega arith, rest)
      | inr off ↦ rw off rest
    ]

in_range :
    (filter : Text) (es : List Entry) → All (λ j. ltb j (length es) ≡ true) (find filter es).0
in_range filter es =
    All-map (λ j (h : j < 0 + length es). lt→ltb j (length es) (omega (arith, h)))
      (find filter es).0 (find_from-bound filter 0 es)

commit-looked_up :
    (d : Directory) (res : Response) (us gs : List ℕ)
    → All (λ j. ltb j (length d.users) ≡ true) us
    → All (λ j. ltb j (length d.groups) ≡ true) gs
    → commit (looked_up us cut_user res (looked_up gs cut_group res (answer_now res))) res d
      ≡ ok (
          delete_found us res d
            (λ i. record d { users = remove_at i d.users })
            (delete_found gs res d (λ i. record d { groups = remove_at i d.groups }) (res, d)))
unfolding commit
commit-looked_up d res [] [] hu hg = refl
commit-looked_up d res [] (i ∷ []) hu hg = rw hg.0
commit-looked_up d res [] (i ∷ j ∷ gs) hu hg = refl
commit-looked_up d res (i ∷ []) gs hu hg = rw hu.0
commit-looked_up d res (i ∷ j ∷ us) gs hu hg = refl

-- Without another handler in between, the halves are `handleDelete` as a whole.
commit-look_up :
    (d : Directory) (m : DeleteMessage) (res : Response)
    → commit (look_up d m res) res d ≡ ok (delete_answer d m res)
unfolding look_up delete_answer
commit-look_up d m res =
    commit-looked_up d res (find (in_parentheses m.dn) d.users).0
      (find (in_parentheses m.dn) d.groups).0 (in_range (in_parentheses m.dn) d.users)
      (in_range (in_parentheses m.dn) d.groups)

cuts_user :
    (d : Directory) (m : DeleteMessage) (res : Response) (before after : List Entry) (e : Entry)
    → d.users ≡ before ++ e ∷ after
    → IsOnlyMatch (in_parentheses m.dn) before after e
    → look_up d m res ≡ cut_user (length before)
unfolding look_up
cuts_user d m res before after e u o = rw (u, find-only (in_parentheses m.dn) before after e o)

length_nil : (es : List Entry) → (length es ≡ 0) ↔ (es ≡ [])
length_nil [] = ground arith
length_nil (e ∷ es) = ground arith

-- `handleDelete` looks a user up before it takes the lock. With nothing in between, its two halves
-- answer as the whole. If the directory has changed in between, cutting the user out panics exactly
-- if there are no more users left than stood before the one that was found; so, of two requests to
-- delete the same user that have both found it, the second panics exactly if the user was the last
-- in the list.
pub commit-stale :
    (d now : Directory) (m : DeleteMessage) (res : Response) (before after : List Entry) (e : Entry)
    → d.users ≡ before ++ e ∷ after
    → IsOnlyMatch (in_parentheses m.dn) before after e
    → (commit (look_up d m res) res d ≡ ok (delete_answer d m res))
      × ((commit (look_up d m res) res now ≡ panic) ↔ (length now.users ≤ length before))
      × ((commit (look_up d m res) res (delete_answer d m res).1 ≡ panic) ↔ (after ≡ []))
unfolding commit
commit-stale d now m res before after e u o =
    let cuts : look_up d m res ≡ cut_user (length before) = cuts_user d m res before after e u o in
    let left = delete_answer-user d m res before after e u o in
    (
      commit-look_up d m res,
      rw cuts (ground arith),
      rw (cuts, left) (ground (arith, length-append before after, length_nil after)),
    )
