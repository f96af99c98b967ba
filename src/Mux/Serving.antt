-- ===== src/Mux/Serving.antt =====
-- Which handler `serve` calls.
use gldap.Base.{
  All, All-middle, Bool, Bool-cases, List, Option, Option-cases, Text, [], ap, append-nil, false,
  inl, inr, none, refl, some, subst, sym, true, ◌++◌, ◌∙◌, ◌∷◌, ◌≡◌, ◌⊎◌,
}
use gldap.Ber.{Ber}
use gldap.Request.{Request}
use gldap.Response.Writer.{ResponseWriter}
use gldap.Route.{HandlerFunc, Route, Session, handler, matches}
use gldap.Mux.{Mux, no_handler, serve, serve_default, serve_loop, write_response}
use gldap.Mux.Registered.{IsRegistered, IsServable, IsServableOption}

module _ {ℓ} {S : Type ℓ} (b : Ber) (fold : Text → Text → Bool) where
  -- No route of the list matches.
  abbrev pub NoneMatches : Request → List (Route S) → Type 0
  NoneMatches req = All (λ r. matches fold r (some req) ≡ false)

  serve_loop-append :
      (before after : List (Route S)) (d : Option (Route S)) (w : ResponseWriter) (req : Request)
      (s : Session S)
      → NoneMatches req before
      → serve_loop b fold (before ++ after) d w req s ≡ serve_loop b fold after d w req s
  unfolding serve_loop
  serve_loop-append [] after d w req s h = refl
  serve_loop-append (r ∷ before) after d w req s h =
      rw (h.0) (serve_loop-append before after d w req s h.1)

  -- The first route that matches serves the request, alone: its handler's outcome is that of `serve`,
  -- whatever routes stand behind it and whatever the default route is.
  pub serve-first :
      (m : Mux S) (before after : List (Route S)) (r : Route S) (f : HandlerFunc S)
      (w : ResponseWriter) (req : Request) (s : Session S)
      → m.routes ≡ before ++ r ∷ after
      → NoneMatches req before
      → matches fold r (some req) ≡ true
      → handler r ≡ some f
      → serve b fold (some w) (some req) m s ≡ f w req s
  unfolding serve serve_loop
  serve-first m before after r f w req s e h k j =
      ap (λ rs. serve_loop b fold rs m.default_route w req s) e
      ∙ serve_loop-append before (r ∷ after) m.default_route w req s h
      ∙ rw (serve_loop, k, j)

  serve-no_match :
      (m : Mux S) (w : ResponseWriter) (req : Request) (s : Session S)
      → NoneMatches req m.routes
      → serve b fold (some w) (some req) m s ≡ serve_default b m.default_route w req s
  unfolding serve serve_loop
  serve-no_match m w req s h =
      ap (λ rs. serve_loop b fold rs m.default_route w req s) (sym (append-nil m.routes))
      ∙ serve_loop-append m.routes [] m.default_route w req s h

  -- A list of routes either has no match or is split by its first match.
  first_match :
      (rs : List (Route S)) (req : Request)
      → NoneMatches req rs
        ⊎ ((before : List (Route S)) × (r : Route S) × (after : List (Route S)) × (rs
              ≡ before ++ r ∷ after)
            × NoneMatches req before
            × (matches fold r (some req) ≡ true))
  first_match [] req = inl tt
  first_match (r ∷ rs) req = elim (Bool-cases (matches fold r (some req))) [
    | inl it ↦ inr ([], r, rs, refl, tt, it)
    | inr off ↦ elim (first_match rs req) [
      | inl none_matches ↦ inl (off, none_matches)
      | inr (before, q, after, e, h, k) ↦ inr (r ∷ before, q, after, ap (λ t. r ∷ t) e, (off, h), k)
    ]
  ]

  -- What `serve` does with a request, by the routes.
  pub data Served (m : Mux S) (w : ResponseWriter) (req : Request) (s : Session S)
      : Option (Session S) → Type ℓ where
    by_first :
        (before after : List (Route S)) (r : Route S) (f : HandlerFunc S)
        → m.routes ≡ before ++ r ∷ after
        → NoneMatches req before
        → matches fold r (some req) ≡ true
        → handler r ≡ some f
        → Served m w req s (f w req s)
    by_default :
        (r : Route S) (f : HandlerFunc S)
        → NoneMatches req m.routes
        → m.default_route ≡ some r
        → handler r ≡ some f
        → Served m w req s (f w req s)
    by_reply :
        NoneMatches req m.routes
        → m.default_route ≡ none
        → Served m w req s (some (write_response b (no_handler req) s))

  -- On a multiplexer made by registrations, `serve` meets the specification `Served`: the first
  -- route that matches handles the request, or else the default route, or else "unwilling to
  -- perform" is written, and the outcome is exactly that.
  pub serve-Served :
      (m : Mux S) (w : ResponseWriter) (req : Request) (s : Session S)
      → IsRegistered m
      → Served m w req s (serve b fold (some w) (some req) m s)
  serve-Served m w req s i = elim (first_match m.routes req) [
    | inr (before, r, after, e, h, k) ↦
        let servable =
          All-middle IsServable before after r (subst (All IsServable) e i.routes_servable) in
        subst (Served m w req s)
          (sym (serve-first m before after r servable.served w req s e h k servable.has_handler))
          (by_first before after r servable.served e h k servable.has_handler)
    | inl h ↦ elim (Option-cases m.default_route) [
      | inl none_eq ↦
          subst (Served m w req s) (sym (serve-no_match m w req s h ∙ rw none_eq))
            (by_reply h none_eq)
      | inr (r, some_eq) ↦
          let servable = subst IsServableOption some_eq i.default_servable in
          subst (Served m w req s)
            (sym (serve-no_match m w req s h ∙ rw (some_eq, servable.has_handler)))
            (by_default r servable.served h some_eq servable.has_handler)
    ]
  ]
