-- ===== src/Names/Stamp.antt =====
-- The stamp of crates/onv-agent-lib/src/names.rs: what its text determines, and that the first line
-- of a machine's description is it.
use omnuv_provider.Base.{
  ℕ, ◌≡◌, refl, ap, ◌⊎◌, Bool, true, false, ◌&&◌, not, [], ◌∷◌, ◌++◌, some, arith, any, all,
  all-append, ◌==◌, and-eq-true,
}
use omnuv_provider.Base.Text.{Text, codes, split_once-append, drop_return, first_line}
use omnuv_provider.Names.{label, stamped, description}

label-cases :
    (claim : Text)
    → (label claim ≡ codes "inference worker")
      ⊎ (label claim ≡ codes "card scrub")
      ⊎ (label claim ≡ codes "instance")
unfolding label
label-cases claim = ground arith

-- Two stamps with one text name one machine, and one kind of machine.
pub stamped-injective : (c d i j : Text) → stamped c i ≡ stamped d j → (label c ≡ label d) × (i ≡ j)
unfolding stamped
stamped-injective c d i j e = ground (arith, label-cases c, label-cases d)

-- A text on one line.
abbrev pub one_line : Text → Bool
one_line = all (λ c. not (c == 10) && not (c == 13))

drop_return-eq : (s : Text) → one_line s ≡ true → drop_return s ≡ s
unfolding drop_return
drop_return-eq [] h = refl
drop_return-eq (c ∷ []) h = ground arith
drop_return-eq (c ∷ d ∷ s) h = ap (λ t. c ∷ t) (drop_return-eq (d ∷ s) (and-eq-true _ _ h).1)

no_feed : (s : Text) → one_line s ≡ true → any (λ c. c == 10) s ≡ false
no_feed [] h = refl
no_feed (c ∷ s) h = ground (arith, no_feed s)

label-one_line : (claim : Text) → one_line (label claim) ≡ true
unfolding label
label-one_line claim = ground arith

stamped-one_line : (claim id : Text) → one_line id ≡ true → one_line (stamped claim id) ≡ true
unfolding stamped
stamped-one_line claim id h = all-append _ (label claim) (codes " " ++ id) (label-one_line claim) h

first_line-append :
    (c : ℕ) (s t : Text) → one_line (c ∷ s) ≡ true → first_line ((c ∷ s) ++ (10 ∷ t)) ≡ some (c ∷ s)
unfolding first_line
first_line-append c s t h =
    rw (split_once-append 10 (c ∷ s) t (no_feed (c ∷ s) h), first_line)
      (ap some (drop_return-eq (c ∷ s) h))

-- The first line of the description a machine is configured with is its stamp.
pub first_line-description :
    (claim id : Text)
    → one_line id ≡ true
    → first_line (description claim id) ≡ some (stamped claim id)
unfolding description stamped
first_line-description claim id h =
    first_line-append b'O' _ (codes "Managed by onv-provider. Do not edit.")
      (unfold stamped in stamped-one_line claim id h)
