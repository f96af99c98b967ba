-- ===== src/Directory/Searching/Found.antt =====
-- What the searches of the directory for tests find.
use gldap.Base.{
  All, All-append, All-map, Bool, Bool-cases, List, Text, [], ap, append-nil, append_assoc, arith,
  codes, false, inl, inr, length, map, not, refl, select, subst, suc, sym, ℕ, ◌&&◌, ◌++◌, ◌+◌, ◌<◌,
  ◌||◌, ◌∙◌, ◌∷◌, ◌≡◌,
}
use gldap.Attribute.{Entry, get_attribute_values}
use gldap.Directory.{Directory}
use gldap.Directory.Search.{match_filter}
use gldap.Directory.Searching.{
  Found, add_matches, entries_of, find_members, found_generic, found_groups, is_listed, match_users,
  member_matches,
}

-- One of the values matches the filter as a member.
abbrev pub any_member : Text → List Text → Bool
any_member filter [] = false
any_member filter (m ∷ ms) = match_filter filter (codes "member=" ++ m) || any_member filter ms

abbrev pub has_member : Text → Entry → Bool
has_member filter e = any_member filter (get_attribute_values e (codes "member"))

-- The groups, each as often as one of its members matches.
abbrev pub by_member : Text → List Entry → List Entry
by_member filter [] = []
by_member filter (e ∷ es) =
    map (λ m. e)
      (select (λ m. match_filter filter (codes "member=" ++ m))
        (get_attribute_values e (codes "member")))
    ++ by_member filter es

abbrev pub by_dn : Text → List Entry → List Entry
by_dn filter = select (λ e. match_filter filter e.dn)

abbrev IsBelow : ℕ → Found → Type 0
IsBelow i = All (λ e. e.0 < i)

-- The entries, numbered from `i` on, are listed as a test says.
abbrev IsListing : (Entry → Bool) → ℕ → List Entry → Found → Type 0
IsListing p i [] found = Unit
IsListing p i (e ∷ es) found = (is_listed i found ≡ p e) × IsListing p (suc i) es found

is_listed-append :
    (i : ℕ) (front back : Found)
    → is_listed i (front ++ back) ≡ (is_listed i front || is_listed i back)
is_listed-append i [] back = refl
is_listed-append i (e ∷ front) back = ground (arith, is_listed-append i front back)

is_listed-IsBelow : (i : ℕ) (found : Found) → IsBelow i found → is_listed i found ≡ false
is_listed-IsBelow i [] h = refl
is_listed-IsBelow i (e ∷ found) h = ground (arith, is_listed-IsBelow i found h.1, h.0)

IsListing-append :
    (p : Entry → Bool) (i j : ℕ) (e : Entry) (es : List Entry) (found : Found)
    → i < j
    → IsListing p j es found
    → IsListing p j es (found ++ (i, e) ∷ [])
IsListing-append p i j e [] found h l = tt
IsListing-append p i j e (x ∷ es) found h l =
    let other : is_listed j (found ++ (i, e) ∷ []) ≡ is_listed j found =
      ground (arith, is_listed-append j found ((i, e) ∷ []), h) in
    (other ∙ l.0, IsListing-append p i (suc j) e es found (omega (arith, h)) l.1)

entries_of-append :
    (front back : Found) → entries_of (front ++ back) ≡ entries_of front ++ entries_of back
entries_of-append [] back = refl
entries_of-append (e ∷ front) back = ap (λ l. e.1 ∷ l) (entries_of-append front back)

-- What the loop that skips listed groups adds.
add_matches-entries :
    (filter : Text) (p : Entry → Bool) (i : ℕ) (es : List Entry) (found : Found)
    → IsListing p i es found
    → entries_of (add_matches filter i es found)
      ≡ entries_of found ++ select (λ e. match_filter filter e.dn && not (p e)) es
unfolding add_matches
add_matches-entries filter p i [] found l = sym (append-nil (entries_of found))
add_matches-entries filter p i (e ∷ es) found l = elim (Bool-cases (match_filter filter e.dn)) [
  | inl match ↦ elim (Bool-cases (p e)) [
    | inl listed ↦ rw (match, l.0, listed) (add_matches-entries filter p (suc i) es found l.1)
    | inr fresh ↦
        let next = IsListing-append p i (suc i) e es found (omega arith) l.1 in
        rw
          (
            match,
            l.0,
            fresh,
            add_matches-entries filter p (suc i) es (found ++ (i, e) ∷ []) next,
            entries_of-append found ((i, e) ∷ []),
          )
          (append_assoc (entries_of found) (e ∷ []) _)
  ]
  | inr off ↦ rw off (add_matches-entries filter p (suc i) es found l.1)
]

match_users-entries :
    (filter : Text) (i : ℕ) (es : List Entry) (found : Found)
    → entries_of (match_users filter i es found) ≡ entries_of found ++ by_dn filter es
unfolding match_users
match_users-entries filter i [] found = sym (append-nil (entries_of found))
match_users-entries filter i (e ∷ es) found = elim (Bool-cases (match_filter filter e.dn)) [
  | inl match ↦
      rw
        (
          match,
          match_users-entries filter (suc i) es (found ++ (i, e) ∷ []),
          entries_of-append found ((i, e) ∷ []),
        )
        (append_assoc (entries_of found) (e ∷ []) _)
  | inr off ↦ rw off (match_users-entries filter (suc i) es found)
]

IsBelow-suc : (i : ℕ) (found : Found) → IsBelow i found → IsBelow (suc i) found
IsBelow-suc i = All-map (λ e h. omega (arith, h))

match_users-IsBelow :
    (filter : Text) (i : ℕ) (es : List Entry) (found : Found)
    → IsBelow i found
    → IsBelow (i + length es) (match_users filter i es found)
unfolding match_users
match_users-IsBelow filter i [] found h = subst (λ n. IsBelow n found) (omega arith) h
match_users-IsBelow filter i (e ∷ es) found h =
    let next : (f : Found)
        → IsBelow (suc i) f
        → IsBelow (i + length (e ∷ es)) (match_users filter (suc i) es f) =
      λ f g.
        subst (λ n. IsBelow n (match_users filter (suc i) es f)) (omega arith)
          (match_users-IsBelow filter (suc i) es f g) in
    elim (Bool-cases (match_filter filter e.dn)) [
      | inl match ↦ rw match (
          next (found ++ (i, e) ∷ [])
            (All-append _ found ((i, e) ∷ []) (IsBelow-suc i found h) (omega arith, tt)))
      | inr off ↦ rw off (next found (IsBelow-suc i found h))
    ]

IsListing-IsBelow :
    (i : ℕ) (es : List Entry) (found : Found) → IsBelow i found → IsListing (λ e. false) i es found
IsListing-IsBelow i [] found h = tt
IsListing-IsBelow i (e ∷ es) found h =
    (is_listed-IsBelow i found h, IsListing-IsBelow (suc i) es found (IsBelow-suc i found h))

select-true :
    (filter : Text) (es : List Entry)
    → select (λ e. match_filter filter e.dn && not false) es ≡ by_dn filter es
select-true filter [] = refl
select-true filter (e ∷ es) = ground (arith, select-true filter es)

-- The generic search finds the users and the groups whose DN matches.
pub found_generic-entries :
    (filter : Text) (d : Directory)
    → entries_of (found_generic filter d) ≡ by_dn filter d.users ++ by_dn filter d.groups
unfolding found_generic
found_generic-entries filter d =
    let users = match_users filter 0 d.users [] in
    let below : IsBelow (length d.users) users =
      subst (λ n. IsBelow n users) (omega arith) (match_users-IsBelow filter 0 d.users [] tt) in
    add_matches-entries filter (λ e. false) (length d.users) d.groups users
      (IsListing-IsBelow (length d.users) d.groups users below)
    ∙ rw (match_users-entries filter 0 d.users [], select-true filter d.groups) refl

abbrev IsAbove : ℕ → Found → Type 0
IsAbove i = All (λ e. i < e.0)

is_listed-IsAbove : (i : ℕ) (found : Found) → IsAbove i found → is_listed i found ≡ false
is_listed-IsAbove i [] h = refl
is_listed-IsAbove i (e ∷ found) h = ground (arith, is_listed-IsAbove i found h.1, h.0)

module _ (filter : Text) where
  member_matches-All :
      (P : ℕ × Entry → Type 0) (i : ℕ) (e : Entry) (ms : List Text)
      → P (i, e)
      → All P (member_matches filter i e ms)
  unfolding member_matches
  member_matches-All P i e [] h = tt
  member_matches-All P i e (m ∷ ms) h =
      elim (Bool-cases (match_filter filter (codes "member=" ++ m))) [
        | inl match ↦ rw match (h, member_matches-All P i e ms h)
        | inr off ↦ rw off (member_matches-All P i e ms h)
      ]

  find_members-IsAbove : (i j : ℕ) (es : List Entry) → i < j → IsAbove i (find_members filter j es)
  unfolding find_members
  find_members-IsAbove i j [] h = tt
  find_members-IsAbove i j (e ∷ es) h =
      All-append _ (member_matches filter j e (get_attribute_values e (codes "member"))) _
        (member_matches-All (λ e. i < e.0) j e _ h)
        (find_members-IsAbove i (suc j) es (omega (arith, h)))

  is_listed-member_matches :
      (i : ℕ) (e : Entry) (ms : List Text)
      → is_listed i (member_matches filter i e ms) ≡ any_member filter ms
  unfolding member_matches
  is_listed-member_matches i e [] = refl
  is_listed-member_matches i e (m ∷ ms) = ground (arith, is_listed-member_matches i e ms)

  member_matches-entries :
      (i : ℕ) (e : Entry) (ms : List Text)
      → entries_of (member_matches filter i e ms)
        ≡ map (λ m. e) (select (λ m. match_filter filter (codes "member=" ++ m)) ms)
  unfolding member_matches
  member_matches-entries i e [] = refl
  member_matches-entries i e (m ∷ ms) =
      elim (Bool-cases (match_filter filter (codes "member=" ++ m))) [
        | inl match ↦ rw match (ap (λ l. e ∷ l) (member_matches-entries i e ms))
        | inr off ↦ rw off (member_matches-entries i e ms)
      ]

  find_members-entries :
      (i : ℕ) (es : List Entry) → entries_of (find_members filter i es) ≡ by_member filter es
  unfolding find_members
  find_members-entries i [] = refl
  find_members-entries i (e ∷ es) =
      let ms = get_attribute_values e (codes "member") in
      rw (
        entries_of-append (member_matches filter i e ms) (find_members filter (suc i) es),
        member_matches-entries i e ms,
        find_members-entries (suc i) es,
      )

  -- The groups found by their members are those with a member that matches.
  find_members-IsListing :
      (i : ℕ) (es : List Entry) (front : Found)
      → IsBelow i front
      → IsListing (has_member filter) i es (front ++ find_members filter i es)
  unfolding find_members
  find_members-IsListing i [] front h = tt
  find_members-IsListing i (e ∷ es) front h =
      let ms = get_attribute_values e (codes "member") in
      let own = member_matches filter i e ms in
      let later = find_members filter (suc i) es in
      let first : is_listed i (front ++ (own ++ later)) ≡ has_member filter e = ground (
        arith,
        is_listed-append i front (own ++ later),
        is_listed-append i own later,
        is_listed-IsBelow i front h,
        is_listed-member_matches i e ms,
        is_listed-IsAbove i later (find_members-IsAbove i (suc i) es (omega arith)),
      ) in
      let below =
        All-append _ front own (IsBelow-suc i front h)
          (member_matches-All (λ x. x.0 < suc i) i e ms (omega arith)) in
      (
        first,
        subst (IsListing (has_member filter) (suc i) es) (append_assoc front own later)
            (find_members-IsListing (suc i) es (front ++ own) below),
      )

  -- The search of groups finds the groups by their members and then the others by their DNs.
  pub found_groups-entries :
      (d : Directory)
      → entries_of (found_groups filter d)
        ≡ by_member filter d.groups
          ++ select (λ e. match_filter filter e.dn && not (has_member filter e)) d.groups
  unfolding found_groups
  found_groups-entries d =
      add_matches-entries filter (has_member filter) 0 d.groups (find_members filter 0 d.groups)
        (find_members-IsListing 0 d.groups [] tt)
      ∙ rw (find_members-entries 0 d.groups) refl
