-- ===== src/Base/Assoc.antt =====
-- A hash map with text keys, as an association list without two entries of one key.
use mathlib.Core.Bool.{Bool}
use mathlib.Core.List.{List, [], ◌∷◌}
use mathlib.Core.Logic.{inl, inr}
use mathlib.Core.Option.{Option, none, some}
use mathlib.Core.Path.{◌≡◌, refl, ap, subst}
use native.Mathlib.Omega.{arith}
use omnuv_provider.Base.Tests.{if◌then◌else◌, ◌>>=◌, Bool-cases}
use omnuv_provider.Base.Text.{Text, same, same_iff, same→eq}

abbrev pub Assoc : Type 0 → Type 0
Assoc V = List (Text × V)

module _ {V : Type 0} where
  unfoldable pub get : Text → Assoc V → Option V
  get j [] = none
  get j ((k, v) ∷ m) = if same k j then some v else get j m

  unfoldable pub insert : Text → V → Assoc V → Assoc V
  insert j w [] = (j, w) ∷ []
  insert j w ((k, v) ∷ m) = if same k j then (j, w) ∷ m else (k, v) ∷ insert j w m

  unfoldable pub remove : Text → Assoc V → Assoc V
  remove j [] = []
  remove j ((k, v) ∷ m) = if same k j then remove j m else (k, v) ∷ remove j m

  unfoldable pub retain : (Text → V → Bool) → Assoc V → Assoc V
  retain p [] = []
  retain p ((k, v) ∷ m) = if p k v then (k, v) ∷ retain p m else retain p m

  pub get-insert :
      (j k : Text) (w : V) (m : Assoc V)
      → get k (insert j w m) ≡ (if same j k then some w else get k m)
  unfolding get insert
  get-insert j k w [] = refl
  get-insert j k w ((i, v) ∷ m) =
      ground (arith, same_iff j k, same_iff i j, same_iff i k, get-insert j k w m)

  pub get-remove :
      (j k : Text) (m : Assoc V) → get k (remove j m) ≡ (if same j k then none else get k m)
  unfolding get remove
  get-remove j k [] = ground arith
  get-remove j k ((i, v) ∷ m) =
      ground (arith, same_iff j k, same_iff i j, same_iff i k, get-remove j k m)

  -- No key stands twice.
  abbrev pub Unique : Assoc V → Type 0
  Unique [] = Unit {0}
  Unique ((k, v) ∷ m) = (get k m ≡ none) × Unique m

  pub insert-Unique : (j : Text) (w : V) (m : Assoc V) → Unique m → Unique (insert j w m)
  unfolding get insert
  insert-Unique j w [] u = (refl, tt)
  insert-Unique j w ((k, v) ∷ m) u =
      ground (arith, same_iff k j, same_iff j k, get-insert j k w m, insert-Unique j w m u.1)

  pub remove-Unique : (j : Text) (m : Assoc V) → Unique m → Unique (remove j m)
  unfolding get remove
  remove-Unique j [] u = tt
  remove-Unique j ((k, v) ∷ m) u = ground (arith, get-remove j k m, remove-Unique j m u.1)

  get-retain-none :
      (p : Text → V → Bool) (k : Text) (m : Assoc V) → get k m ≡ none → get k (retain p m) ≡ none
  unfolding get retain
  get-retain-none p k [] h = refl
  get-retain-none p k ((i, v) ∷ m) h = ground (arith, get-retain-none p k m)

  pub retain-Unique : (p : Text → V → Bool) (m : Assoc V) → Unique m → Unique (retain p m)
  unfolding get retain
  retain-Unique p [] u = tt
  retain-Unique p ((k, v) ∷ m) u = ground (arith, get-retain-none p k m, retain-Unique p m u.1)

  pub get-retain :
      (p : Text → V → Bool) (k : Text) (m : Assoc V)
      → Unique m
      → get k (retain p m) ≡ (get k m >>= λ v. if p k v then some v else none)
  unfolding get retain
  get-retain p k [] u = refl
  get-retain p k ((i, v) ∷ m) u = elim (Bool-cases (same i k)) [
    | inl e ↦
        let q = same→eq i k e in
        let free : get k m ≡ none = subst (λ t. get t m ≡ none) q u.0 in
        ground (arith, ap (λ t. p t v) q, get-retain-none p k m free)
    | inr ne ↦ ground (arith, get-retain p k m u.1)
  ]
