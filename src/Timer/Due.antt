-- ===== src/Timer/Due.antt =====
-- Which leases the host timer finds past their time, in crates/onv-lease-expire/src/lib.rs.
use omnuv_provider.Base.{
  ℕ, ◌≡◌, refl, ap, ◌∙◌, inl, inr, Bool, ◌&&◌, ◌||◌, List, [], ◌∷◌, arith, leb, Bool-cases, any,
  keep,
}
use omnuv_provider.Base.Text.{Text, same, same→eq}
use omnuv_provider.RunLease.{Written}
use omnuv_provider.Lease.{insert_written, sort_written}
use omnuv_provider.Timer.{dedup, due_leases}

-- Whether a lease of the list names the machine, and whether one that is past its time does.
abbrev pub named : Text → List Written → Bool
named id ls = any (λ (l : Written). same l.id id) ls

abbrev pub past : ℕ → Text → List Written → Bool
past now id ls = any (λ (l : Written). leb l.until_unix now && same l.id id) ls

keep-named :
    (now : ℕ) (id : Text) (ls : List Written)
    → named id (keep (λ (l : Written). leb l.until_unix now) ls) ≡ past now id ls
keep-named now id [] = refl
keep-named now id (l ∷ ls) = ground (arith, keep-named now id ls)

insert_written-named :
    (id : Text) (a : Written) (ls : List Written)
    → named id (insert_written a ls) ≡ (same a.id id || named id ls)
unfolding insert_written
insert_written-named id a [] = refl
insert_written-named id a (b ∷ bs) = ground (arith, insert_written-named id a bs)

sort_written-named : (id : Text) (ls : List Written) → named id (sort_written ls) ≡ named id ls
unfolding sort_written
sort_written-named id [] = refl
sort_written-named id (a ∷ ls) =
    insert_written-named id a (sort_written ls)
    ∙ ap (λ b. same a.id id || b) (sort_written-named id ls)

dedup-named : (id : Text) (ls : List Written) → named id (dedup ls) ≡ named id ls
unfolding dedup
dedup-named id [] = refl
dedup-named id (a ∷ []) = refl
dedup-named id (a ∷ b ∷ rest) = go (dedup (b ∷ rest)) refl (dedup-named id (b ∷ rest))
  where
    go :
        (d : List Written)
        → dedup (b ∷ rest) ≡ d
        → named id d ≡ named id (b ∷ rest)
        → named id (dedup (a ∷ b ∷ rest)) ≡ named id (a ∷ b ∷ rest)
    go [] e h = rw (e, dedup) (ap (λ t. same a.id id || t) h)
    go (c ∷ more) e h = elim (Bool-cases (same a.id c.id)) [
      | inl q ↦ ground (arith, e, h, q, same→eq a.id c.id q)
      | inr q ↦ ground (arith, e, h, q)
    ]

-- A machine is due, once its time has come, exactly if some lease in the file that names it is past
-- its time; sorting and dropping repeated ids loses none and adds none.
pub due_leases-named :
    (now : ℕ) (id : Text) (ls : List Written) → named id (due_leases now ls) ≡ past now id ls
unfolding due_leases
due_leases-named now id ls =
    let due = keep (λ (l : Written). leb l.until_unix now) ls in
    dedup-named id (sort_written due) ∙ sort_written-named id due ∙ keep-named now id ls
