-- ===== src/FollowUp.antt =====
-- src/teardown.rs, `ProofFollowUp`: how soon the next pass comes when a destroy owes its proof. The
-- sets of ids are lists, of which only membership counts.
use omnuv_provider.Base.{
  ℕ, zero, suc, ◌-◌, ◌≤◌, ◌≡◌, refl, Bool, true, ◌&&◌, List, [], ◌∷◌, Option, none, some, arith,
  if◌then◌else◌, any, is_empty, leb,
}
use omnuv_provider.Base.Text.{Text, same, same_refl}
use omnuv_provider.Dur.{secs}

abbrev pub proof_follow_up : ℕ
proof_follow_up = secs 5

abbrev pub proof_follow_ups : ℕ
proof_follow_ups = 6

pub record FollowUp : Type 0 where
  pub seen : List Text
  pub streak : ℕ

abbrev pub is_in : List Text → Text → Bool
is_in xs x = any (λ y. same y x) xs

unfoldable pub is_subset : List Text → List Text → Bool
is_subset [] ys = true
is_subset (x ∷ xs) ys = is_in ys x && is_subset xs ys

unfoldable pub after_pass : List Text → FollowUp → Option ℕ × FollowUp
after_pass owed f =
    let streak = if is_subset owed f.seen then f.streak else 0 in
    if is_empty owed
    then (none, record { seen = []; streak = 0 })
    else if leb proof_follow_ups streak
    then (none, record { seen = owed; streak = streak })
    else (some proof_follow_up, record { seen = owed; streak = suc streak })

-- How many early passes `n` passes in a row ask for, that all leave one owed set.
unfoldable pub early_passes : List Text → ℕ → FollowUp → ℕ
early_passes owed zero f = 0
early_passes owed (suc n) f =
    let (soon, f') = after_pass owed f in
    let rest = early_passes owed n f' in elim soon [ none ↦ rest | some t ↦ suc rest ]

is_subset-cons :
    (x : Text) (xs ys : List Text) → is_subset xs ys ≡ true → is_subset xs (x ∷ ys) ≡ true
unfolding is_subset
is_subset-cons x [] ys h = refl
is_subset-cons x (y ∷ xs) ys h = ground (arith, is_subset-cons x xs ys)

is_subset_refl : (xs : List Text) → is_subset xs xs ≡ true
unfolding is_subset
is_subset_refl [] = refl
is_subset_refl (x ∷ xs) = ground (arith, same_refl x, is_subset-cons x xs xs (is_subset_refl xs))

early_passes-nil : (n : ℕ) (f : FollowUp) → early_passes [] n f ≡ 0
unfolding early_passes after_pass
early_passes-nil zero f = refl
early_passes-nil (suc n) f = early_passes-nil n (record { seen = []; streak = 0 })

early_passes-streak :
    (x : Text) (xs : List Text) (n k : ℕ)
    → early_passes (x ∷ xs) n (record { seen = x ∷ xs; streak = k }) ≤ proof_follow_ups - k
unfolding early_passes after_pass
early_passes-streak x xs zero k = omega arith
early_passes-streak x xs (suc n) k = ground (
  arith,
  is_subset_refl (x ∷ xs),
  early_passes-streak x xs n k,
  early_passes-streak x xs n (suc k),
)

-- However long one owed set stays, the passes it leaves ask for at most `proof_follow_ups` early
-- passes, whatever came before.
pub early_passes_bounded :
    (owed : List Text) (n : ℕ) (f : FollowUp) → early_passes owed n f ≤ proof_follow_ups
unfolding early_passes after_pass
early_passes_bounded [] n f = omega (arith, early_passes-nil n f)
early_passes_bounded (x ∷ xs) zero f = omega arith
early_passes_bounded (x ∷ xs) (suc n) f = ground (
  arith,
  early_passes-streak x xs n f.streak,
  early_passes-streak x xs n (suc f.streak),
  early_passes-streak x xs n 0,
  early_passes-streak x xs n 1,
)
