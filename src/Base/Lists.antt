-- ===== src/Base/Lists.antt =====
-- Lists measured by the native numbers, tested by Boolean functions, with membership that computes.
use Prim.Native.Nat.{ℕ, zero, suc, ◌+◌}
use mathlib.Core.Path.{◌≡◌, sym, subst}
use mathlib.Core.Logic.{◌⊎◌, inl, inr}
use mathlib.Core.Bool.{Bool, true, false, ◌&&◌, ◌||◌}
use mathlib.Core.Option.{Option, none, some}
use mathlib.Core.List.{List, [], ◌∷◌, ◌++◌}
use native.Mathlib.Omega.{arith}
use omnuv_provider.Base.Tests.{if◌then◌else◌}

module _ {ℓ} {A : Type ℓ} where
  abbrev pub length : List A → ℕ
  length [] = 0
  length (x ∷ xs) = suc (length xs)

  abbrev pub is_empty : List A → Bool
  is_empty [] = true
  is_empty (x ∷ xs) = false

  -- `iter().filter(p)`
  abbrev pub keep : (A → Bool) → List A → List A
  keep p [] = []
  keep p (x ∷ xs) = if p x then x ∷ keep p xs else keep p xs

  -- `iter().any(p)`, `iter().all(p)`, `iter().find(p)`
  abbrev pub any : (A → Bool) → List A → Bool
  any p [] = false
  any p (x ∷ xs) = p x || any p xs

  abbrev pub all : (A → Bool) → List A → Bool
  all p [] = true
  all p (x ∷ xs) = p x && all p xs

  abbrev pub find : (A → Bool) → List A → Option A
  find p [] = none
  find p (x ∷ xs) = if p x then some x else find p xs

  abbrev pub take : ℕ → List A → List A
  take zero xs = []
  take (suc n) [] = []
  take (suc n) (x ∷ xs) = x ∷ take n xs

  -- Every element, and some element, satisfies a predicate.
  abbrev pub All {κ} : (A → Type κ) → List A → Type κ
  All P [] = Unit
  All P (x ∷ xs) = P x × All P xs

  pub length-append : (xs ys : List A) → length (xs ++ ys) ≡ length xs + length ys
  length-append [] ys = omega arith
  length-append (x ∷ xs) ys = omega (arith, length-append xs ys)

pub all-append {ℓ} :
    {A : Type ℓ} (p : A → Bool) (xs ys : List A)
    → all p xs ≡ true
    → all p ys ≡ true
    → all p (xs ++ ys) ≡ true
all-append p [] ys h k = k
all-append p (x ∷ xs) ys h k = ground (arith, all-append p xs ys)

abbrev pub In : {A : Type 0} → A → List A → Type 0
In a [] = ⊥
In a (x ∷ xs) = (a ≡ x) ⊎ In a xs

-- What holds of every element holds of one that is in the list.
pub In-All : {A : Type 0} (P : A → Type 0) (xs : List A) (a : A) → All P xs → In a xs → P a
In-All P (x ∷ xs) a (p, ps) (inl e) = subst P (sym e) p
In-All P (x ∷ xs) a (p, ps) (inr h) = In-All P xs a ps h
In-All P [] a h k = absurd k
