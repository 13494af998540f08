-- ===== src/Privileges.antt =====
-- crates/onv-lease-expire/src/lib.rs: what the host timer's token may do, read from the hypervisor's
-- own answer before any lease runs out.
use omnuv_provider.Base.{
  ◌≡◌, refl, ap, ◌↔◌, Bool, true, false, ◌&&◌, not, List, [], ◌∷◌, ◌++◌, map, Option, none, some,
  arith, inl, inr, ◌∙◌, if◌then◌else◌, any, all, is_empty, keep, Bool-cases,
}
use omnuv_provider.Base.Text.{Text, codes, same}
use omnuv_provider.Names.{pool_buyers}
use omnuv_provider.Hypervisor.{Answer, ok, fault}

-- What the token holds, path by path, against what it should: the two privileges on the buyers'
-- pool, and nothing else anywhere.
pub data Probe : Type 0 where
  token_refused : Probe
  beyond : List (Text × Text) → Probe
  lacking : List Text → Probe
  as_it_should : Probe

abbrev pub privileges : List Text
privileges = codes "VM.Audit" ∷ codes "VM.PowerMgmt" ∷ []

abbrev pub Permissions : Type 0
Permissions = List (Text × List Text)

abbrev pub is_privilege : Text → Bool
is_privilege p = any (λ q. same q p) privileges

unfoldable pub privileges_beyond : Permissions → List (Text × Text)
privileges_beyond [] = []
privileges_beyond ((path, ps) ∷ rest) =
    map (λ p. (p, path)) (keep (λ p. not (is_privilege p)) ps) ++ privileges_beyond rest

abbrev pub buyers_path : Text
buyers_path = codes "/pool/" ++ pool_buyers

-- The privileges on a path of the answer, whose paths are all different.
unfoldable pub held_on : Text → Permissions → Option (List Text)
held_on path [] = none
held_on path ((q, ps) ∷ rest) = if same q path then some ps else held_on path rest

abbrev pub holds : Option (List Text) → Text → Bool
holds none p = false
holds (some ps) p = any (λ q. same q p) ps

unfoldable pub probe : Answer Permissions → Probe
unfolding privileges_beyond held_on
probe (fault e) = token_refused
probe (ok held) =
    let extra = privileges_beyond held in
    let missing = keep (λ p. not (holds (held_on buyers_path held) p)) privileges in
    if not (is_empty extra)
    then beyond extra
    else if not (is_empty missing)
    then lacking missing
    else as_it_should

-- What the token should hold: on every path only the two privileges, and on the buyers' pool both.
abbrev pub only_ours : Permissions → Bool
only_ours held = all (λ (e : Text × List Text). all is_privilege e.1) held

abbrev pub holds_both : Permissions → Bool
holds_both held =
    holds (held_on buyers_path held) (codes "VM.Audit")
    && holds (held_on buyers_path held) (codes "VM.PowerMgmt")

none_beyond :
    (path : Text) (ps : List Text) (rest : List (Text × Text))
    → is_empty (map (λ p. (p, path)) (keep (λ p. not (is_privilege p)) ps) ++ rest)
      ≡ (all is_privilege ps && is_empty rest)
none_beyond path [] rest = refl
none_beyond path (p ∷ ps) rest = elim (Bool-cases (is_privilege p)) [
  | inl e ↦ ground (arith, none_beyond path ps rest)
  | inr ne ↦ ground arith
]

privileges_beyond-nil : (held : Permissions) → is_empty (privileges_beyond held) ≡ only_ours held
unfolding privileges_beyond
privileges_beyond-nil [] = refl
privileges_beyond-nil ((path, ps) ∷ rest) =
    none_beyond path ps (privileges_beyond rest)
    ∙ ap (λ b. all is_privilege ps && b) (privileges_beyond-nil rest)

-- The probe is content exactly if the token holds the two privileges on the buyers' pool, and holds
-- no other privilege on any path at all.
pub probe-as_it_should :
    (held : Permissions)
    → probe (ok held) ≡ as_it_should ↔ (only_ours held ≡ true) × (holds_both held ≡ true)
unfolding probe
probe-as_it_should held = (
  (λ h. ground (arith, privileges_beyond-nil held)),
  (λ h. ground (arith, privileges_beyond-nil held)),
)
