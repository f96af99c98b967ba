-- ===== src/Outcome.antt =====
-- How a Go function ends: it returns a value, it returns an error, or it panics. An error is known by
-- the sentinel of error.go that `%w` wraps in it (`errors.Is`), or by the code that it came from.
use gldap.Base.{
  ◌⊎◌, inl, inr, ◌≡◌, refl, Bool, true, false, Option, none, some, List, [], ◌∷◌, map, All,
}

-- error.go
pub data Error : Type 0 where
  unknown invalid_parameter invalid_state internal : Error
  -- made by `fmt.Errorf` or `errors.New` around no sentinel
  plain : Error
  -- returned by a library that is not part of the repository
  library : Error

pub data Outcome {ℓ} (A : Type ℓ) : Type ℓ where
  ok : A → Outcome A
  err : Error → Outcome A
  panic : Outcome A

-- The continuation of a value; an error or a panic is passed on.
infixl 5 ◌>>=◌ ◌>>◌
abbrev pub ◌>>=◌ {ℓ κ} : {B : Type κ} {A : Type ℓ} → Outcome A → (next : A → Outcome B) → Outcome B
panic >>= next = panic
err cause >>= next = err cause
ok value >>= next = next value

abbrev pub ◌>>◌ {ℓ} : {B : Type ℓ} → (check : Outcome (Unit {0})) (next : Outcome B) → Outcome B
check >> next = check >>= λ done. next

-- `if !b { return err }`
abbrev pub ensure : (holds : Bool) (cause : Error) → Outcome (Unit {0})
ensure false cause = err cause
ensure true cause = ok tt

-- `if err != nil { return fmt.Errorf("...: %w", e) }`, where the new error does not wrap the old.
abbrev pub instead {ℓ} : {A : Type ℓ} → Error → Outcome A → Outcome A
instead e (ok a) = ok a
instead e (err _) = err e
instead e panic = panic

-- An error of a library call.
abbrev pub from_library {ℓ} : {A : Type ℓ} → Option A → Outcome A
from_library (some a) = ok a
from_library none = err library

-- An index expression, or a dereference, that panics out of range.
abbrev pub or_panic {ℓ} : {A : Type ℓ} → Option A → Outcome A
or_panic (some a) = ok a
or_panic none = panic

pub ok_injective {ℓ} : {A : Type ℓ} {a c : A} → ok a ≡ ok c → a ≡ c
ok_injective e = cc e

pub Outcome-cases {ℓ} :
    {A : Type ℓ} (m : Outcome A)
    → ((a : A) × (m ≡ ok a)) ⊎ (((e : Error) × (m ≡ err e)) ⊎ (m ≡ panic))
Outcome-cases (ok a) = inl (a, refl)
Outcome-cases (err e) = inr (inl (e, refl))
Outcome-cases panic = inr (inr refl)

module _ {ℓ κ} {A : Type ℓ} {B : Type κ} where
  -- A chain that returns a value has returned one at each link.
  pub >>=-eq-ok :
      (first : Outcome A) (next : A → Outcome B) {result : B}
      → (first >>= next) ≡ ok result
      → (value : A) × (first ≡ ok value) × (next value ≡ ok result)
  >>=-eq-ok panic next returned = cc
  >>=-eq-ok (err cause) next returned = cc
  >>=-eq-ok (ok value) next returned = (value, refl, returned)

  -- A loop that appends one result for each element and stops at the first failure.
  unfoldable pub map_outcome : (A → Outcome B) → List A → Outcome (List B)
  map_outcome f [] = ok []
  map_outcome f (x ∷ xs) = do y ← f x; ys ← map_outcome f xs; ok (y ∷ ys)

module _ {ℓ κ} {A : Type ℓ} {B : Type κ} where
  -- A loop over what `g` made of a list reads the list back, if `f` reads each element back.
  pub map_outcome-map :
      (f : B → Outcome A) (g : A → B) (xs : List A)
      → All (λ x. f (g x) ≡ ok x) xs
      → map_outcome f (map g xs) ≡ ok xs
  unfolding map_outcome
  map_outcome-map f g [] h = refl
  map_outcome-map f g (x ∷ xs) h = rw (h.0, map_outcome-map f g xs h.1)
