-- ===== src/Names/Keys.antt =====
-- The tags of crates/onv-agent-lib/src/names.rs: what `tags` writes, `carries_key` finds.
use mathlib.Core.List.{append-nil}
use omnuv_provider.Base.{
  ◌∙◌, ℕ, zero, suc, ◌≡◌, refl, ap, inl, inr, Bool, true, ◌&&◌, not, List, [], ◌∷◌, ◌++◌, some,
  none, Option, arith, any, all, all-append, ◌==◌, keep, take, is_empty, Bool-cases,
}
use omnuv_provider.Base.Text.{Text, same, same_refl, is_space, trim, trim-eq, split, all_mono}
use omnuv_provider.Names.{
  semicolon, short_tag, key_tag, is_key_of, carries_key, tags, key_suffix, env_suffix, tag_prefix,
}

-- A token: no separator and no white space.
abbrev pub is_token : Text → Bool
is_token = all (λ c. not (semicolon c) && not (is_space c))

split-shape :
    (p : ℕ → Bool) (s : Text) → (piece : Text) × (rest : List Text) × (split p s ≡ piece ∷ rest)
unfolding split
split-shape p [] = ([], [], refl)
split-shape p (c ∷ s) = let (piece, rest, e) = split-shape p s in go piece rest e
  where
    go :
        (piece : Text) (rest : List Text)
        → split p s ≡ piece ∷ rest
        → (piece' : Text) × (rest' : List Text) × (split p (c ∷ s) ≡ piece' ∷ rest')
    go piece rest e = elim (Bool-cases (p c)) [
      | inl cut ↦ ([], piece ∷ rest, rw (e, cut))
      | inr on ↦ (c ∷ piece, rest, rw (e, on))
    ]

-- A text cut at its first separator.
split-append :
    (p : ℕ → Bool) (s : Text) (d : ℕ) (t : Text)
    → all (λ c. not (p c)) s ≡ true
    → p d ≡ true
    → split p (s ++ (d ∷ t)) ≡ s ∷ split p t
unfolding split
split-append p [] d t h k = let (piece, rest, e) = split-shape p t in ground arith
split-append p (c ∷ s) d t h k = ground (arith, split-append p s d t)

split-token : (p : ℕ → Bool) (s : Text) → all (λ c. not (p c)) s ≡ true → split p s ≡ s ∷ []
unfolding split
split-token p [] h = refl
split-token p (c ∷ s) h = ground (arith, split-token p s)

-- The rest of the tags is empty or starts at a separator.
abbrev Cut : Text → Type 0
Cut [] = Unit {0}
Cut (c ∷ s) = semicolon c ≡ true

split-head :
    (s t : Text)
    → all (λ c. not (semicolon c)) s ≡ true
    → Cut t
    → (more : List Text) × (split semicolon (s ++ t) ≡ s ∷ more)
split-head s [] h k = ([], rw (append-nil s) (split-token semicolon s h))
split-head s (d ∷ t) h k = (split semicolon t, split-append semicolon s d t h k)

suffix-Cut : (key env : Option Text) → Cut (key_suffix key ++ env_suffix env)
suffix-Cut (some key) env = refl
suffix-Cut none none = tt
suffix-Cut none (some e) = elim (Bool-cases (is_empty (trim e))) [
  | inl bare ↦ rw bare tt
  | inr given ↦ rw given refl
]

take-token : (n : ℕ) (s : Text) → is_token s ≡ true → is_token (take n s) ≡ true
take-token zero s h = refl
take-token (suc n) [] h = refl
take-token (suc n) (c ∷ s) h = ground (arith, take-token n s)

keep-token : (p : ℕ → Bool) (s : Text) → is_token s ≡ true → is_token (keep p s) ≡ true
keep-token p [] h = refl
keep-token p (c ∷ s) h = ground (arith, keep-token p s)

short_tag-token : (id : Text) → is_token id ≡ true → is_token (short_tag id) ≡ true
unfolding short_tag is_space
short_tag-token id h =
    unfold is_space in
    all-append (λ c. not (semicolon c) && not (is_space c)) tag_prefix
      (take 12 (keep (λ c. not (c == b'-')) id)) refl
      (take-token 12 (keep (λ c. not (c == b'-')) id) (keep-token (λ c. not (c == b'-')) id h))

uncut : (s : Text) → is_token s ≡ true → all (λ c. not (semicolon c)) s ≡ true
uncut = all_mono _ _ λ c h. ground arith

trimmed : (s : Text) → is_token s ≡ true → trim s ≡ s
trimmed s h = trim-eq s (all_mono _ _ (λ c k. ground arith) s h)

-- The tokens of the tags begin with the claim and the short key.
split-tags :
    (claim id : Text) (environment : Option Text)
    → is_token claim ≡ true
    → is_token id ≡ true
    → (more : List Text) × (split semicolon (tags claim id environment)
        ≡ claim ∷ short_tag id ∷ more)
unfolding tags
split-tags claim id environment hc hi =
    let (more, e) =
      split-head (short_tag id) (key_suffix (key_tag id) ++ env_suffix environment)
        (uncut (short_tag id) (short_tag-token id hi)) (suffix-Cut (key_tag id) environment) in
    (more, split-append semicolon claim b';' _ (uncut claim hc) refl ∙ ap (λ r. claim ∷ r) e)

short_tag-is_key_of : (id : Text) → is_key_of (short_tag id) id ≡ true
unfolding is_key_of
short_tag-is_key_of id = rw (same_refl (short_tag id))

-- If the claim and the id hold no `;` and no white space, what a machine is tagged with carries the
-- claim as a whole token, and the machine's key.
pub carries_key-tags :
    (claim id : Text) (environment : Option Text)
    → is_token claim ≡ true
    → is_token id ≡ true
    → (any (same claim) (split semicolon (tags claim id environment)) ≡ true)
      × (carries_key (tags claim id environment) id ≡ true)
unfolding carries_key
carries_key-tags claim id environment hc hi =
    let (more, e) = split-tags claim id environment hc hi in
    (
      rw (e, same_refl claim),
      rw (e, trimmed (short_tag id) (short_tag-token id hi), short_tag-is_key_of id) (ground arith),
    )
