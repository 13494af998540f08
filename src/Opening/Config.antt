-- ===== src/Opening/Config.antt =====
-- What a configuration that passes the check of crates/onv-hostnet/src/opening.rs promises.
use omnuv_provider.Base.{
  ℕ, ◌+◌, ◌≡◌, ◌≢◌, ◌≤◌, ◌<◌, refl, true, false, ◌&&◌, List, [], ◌∷◌, ◌++◌, Option, none, some,
  arith, inl, inr, Bool-cases, Option-cases, is_empty, is_none, sym, subst, if◌then◌else◌, or_else,
  ◌⊎◌, ltb, leb, ltb→lt,
}
use omnuv_provider.Base.Results.{Result, done, failed}
use omnuv_provider.Base.Text.{Text, trim, split_once}
use omnuv_provider.Base.Decimal.{parse_uint}
use omnuv_provider.Ipv4.{not_public, octets}
use omnuv_provider.Opening.{
  max_ports, OpeningConfig, Complaint, no_address, range_of, ports_of, parse_ports, valid_interface,
  Checked, range_complaints, public_of, is_unset, missing, conclude, no_interface, complaints,
  checked, u16_bound,
}

range_of-range :
    (s : Text) (a b x y : ℕ)
    → range_of s a b ≡ done (x, y)
    → (1024 ≤ x) × (x ≤ y) × (y < x + max_ports)
unfolding range_of
range_of-range s a b x y h = ground arith

ports_of-range :
    (s a b : Text) (x y : ℕ)
    → ports_of s a b ≡ done (x, y)
    → (1024 ≤ x) × (x ≤ y) × (y < x + max_ports)
unfolding ports_of
ports_of-range s a b x y h = ground (
  arith,
  range_of-range s (or_else (parse_uint u16_bound (trim a)) 0)
      (or_else (parse_uint u16_bound (trim b)) 0) x y,
)

parse_ports-range :
    (s : Text) (x y : ℕ) → parse_ports s ≡ done (x, y) → (1024 ≤ x) × (x ≤ y) × (y < x + max_ports)
unfolding parse_ports
parse_ports-range s x y h = elim (Option-cases (split_once b'-' (trim s))) [
  | inl e ↦ absurd (ground arith)
  | inr ((a, b), e) ↦ ports_of-range s a b x y (ground arith)
]

-- What is used can be reached, and what is not used, though set, has a complaint.
public_of-some : (s : Option Text) (ip : ℕ) → (public_of s).0 ≡ some ip → not_public ip ≡ none
unfolding public_of
public_of-some none ip h = absurd (ground arith)
public_of-some (some s) ip h = ground arith

public_of-none :
    (s : Option Text)
    → (public_of s).0 ≡ none
    → (is_unset s ≡ true) ⊎ (is_empty (public_of s).1 ≡ false)
unfolding public_of
public_of-none none h = ground arith
public_of-none (some s) h = ground arith

append-nil : {A : Type 0} (xs ys : List A) → xs ++ ys ≡ [] → (xs ≡ []) × (ys ≡ [])
append-nil [] ys h = (refl, h)
append-nil (x ∷ xs) ys h = absurd (ground arith)

-- What a conclusion is drawn from.
conclude-done :
    (bad : List Complaint) (range : Result Complaint (ℕ × ℕ)) (ip : Option ℕ) (cfg : OpeningConfig)
    (c : Checked)
    → conclude bad range ip cfg ≡ done (some c)
    → (bad ≡ [])
      × (range ≡ done (c.first, c.last))
      × (ip ≡ some c.public_ip)
      × (c.interface ≡ cfg.interface)
unfolding conclude
conclude-done [] (done (a, b)) (some ip) cfg c h = ground arith
conclude-done [] (done (a, b)) none cfg c h = absurd (ground arith)
conclude-done [] (failed e) ip cfg c h = absurd (ground arith)
conclude-done (e ∷ bad) range ip cfg c h = absurd (ground arith)

conclude-failed :
    (bad : List Complaint) (range : Result Complaint (ℕ × ℕ)) (ip : Option ℕ) (cfg : OpeningConfig)
    → conclude bad range ip cfg ≡ failed []
    → (bad ≡ [])
      × ((is_empty (range_complaints range) ≡ false) ⊎ ((ip ≡ none) ⊎ (cfg.reach ≡ none)))
unfolding conclude
conclude-failed [] (done (a, b)) (some ip) cfg h = ground arith
conclude-failed [] (done (a, b)) none cfg h = (refl, inr (inl refl))
conclude-failed [] (failed e) ip cfg h = (refl, inl refl)
conclude-failed (e ∷ bad) range ip cfg h = absurd (ground arith)

checked-conclude :
    (cfg : OpeningConfig) (c : Checked)
    → checked cfg ≡ done (some c)
    → (cfg.enabled ≡ true)
      × (conclude
            (complaints cfg ++ missing (public_of cfg.public_address).0 cfg)
            (parse_ports cfg.ports)
            (public_of cfg.public_address).0
            cfg
          ≡ done (some c))
unfolding checked
checked-conclude cfg c h = ground arith

complaints-interface :
    (cfg : OpeningConfig) → complaints cfg ≡ [] → valid_interface cfg.interface ≡ true
unfolding complaints
complaints-interface cfg h = elim (Bool-cases (valid_interface cfg.interface)) [
  | inl e ↦ e
  | inr ne ↦
      let (_, rest) = append-nil (range_complaints (parse_ports cfg.ports)) _ h in
      let (bad, _) =
        append-nil (if valid_interface cfg.interface then [] else no_interface cfg.interface ∷ [])
          (public_of cfg.public_address).1 rest in
      absurd (ground arith)
]

-- An address before the range, or from its end on.
abbrev pub Outside : ℕ → ℕ → ℕ → Type 0
Outside a b ip = (ip < a) ⊎ (b ≤ ip)

-- An address in none of the ranges 10/8, 172.16/12, 192.168/16, 127/8, 169.254/16, 100.64/10 and 0/8, and
-- below 224.0.0.0.
abbrev pub Unreserved : ℕ → Type 0
Unreserved ip =
    Outside (octets 10 0 0 0) (octets 11 0 0 0) ip
    × Outside (octets 172 16 0 0) (octets 172 32 0 0) ip
    × Outside (octets 192 168 0 0) (octets 192 169 0 0) ip
    × Outside (octets 127 0 0 0) (octets 128 0 0 0) ip
    × Outside (octets 169 254 0 0) (octets 169 255 0 0) ip
    × Outside (octets 100 64 0 0) (octets 100 128 0 0) ip
    × (octets 1 0 0 0 ≤ ip)
    × (ip < octets 224 0 0 0)

-- An address of a range that a test of octets describes.
outside : (a b ip : ℕ) → (a ≤ ip → ip < b → ⊥) → Outside a b ip
outside a b ip f = elim (Bool-cases (ltb ip a)) [
  | inl low ↦ inl (ltb→lt ip a low)
  | inr high ↦ elim (Bool-cases (leb b ip)) [
    | inl over ↦ inr (ground arith)
    | inr under ↦ absurd (f (ground arith) (ground arith))
  ]
]

not_public-Unreserved : (ip : ℕ) → not_public ip ≡ none → Unreserved ip
unfolding not_public
not_public-Unreserved ip h = (
  outside (octets 10 0 0 0) (octets 11 0 0 0) ip (λ a b. ground arith),
  outside (octets 172 16 0 0) (octets 172 32 0 0) ip (λ a b. ground arith),
  outside (octets 192 168 0 0) (octets 192 169 0 0) ip (λ a b. ground arith),
  outside (octets 127 0 0 0) (octets 128 0 0 0) ip (λ a b. ground arith),
  outside (octets 169 254 0 0) (octets 169 255 0 0) ip (λ a b. ground arith),
  outside (octets 100 64 0 0) (octets 100 128 0 0) ip (λ a b. ground arith),
  ground arith,
  ground arith,
)

-- A check that passes with the opening on gives a range of at least one and at most `MAX_PORTS` ports,
-- none below 1024, an interface's name, and an address that is not private, loopback, link-local or
-- carrier-grade NAT, not in 0.0.0.0/8 and below 224.0.0.0 (the ranges kept for documentation pass).
pub checked-usable :
    (cfg : OpeningConfig) (c : Checked)
    → checked cfg ≡ done (some c)
    → (cfg.enabled ≡ true)
      × (1024 ≤ c.first)
      × (c.first ≤ c.last)
      × (c.last < c.first + max_ports)
      × Unreserved c.public_ip
      × (valid_interface c.interface ≡ true)
checked-usable cfg c h =
    let (on, e) = checked-conclude cfg c h in
    let (clean, range, ip, name) = conclude-done _ _ _ cfg c e in
    let (lo, order, few) = parse_ports-range cfg.ports c.first c.last range in
    (
      on,
      lo,
      order,
      few,
      not_public-Unreserved c.public_ip (public_of-some cfg.public_address c.public_ip ip),
      subst (λ n. valid_interface n ≡ true) (sym name)
          (complaints-interface cfg (append-nil (complaints cfg) _ clean).0),
    )

-- Without complaints, nothing that a conclusion needs is missing.
complete :
    (cfg : OpeningConfig)
    → complaints cfg ≡ []
    → missing (public_of cfg.public_address).0 cfg ≡ []
    → (is_empty (range_complaints (parse_ports cfg.ports)) ≡ false)
      ⊎ (((public_of cfg.public_address).0 ≡ none) ⊎ (cfg.reach ≡ none))
    → ⊥
unfolding complaints
complete cfg h m why =
    let (ports, rest) = append-nil (range_complaints (parse_ports cfg.ports)) _ h in
    let (_, address) =
      append-nil (if valid_interface cfg.interface then [] else no_interface cfg.interface ∷ [])
        (public_of cfg.public_address).1 rest in
    let (unset, unreached) =
      append-nil
        (if is_none (public_of cfg.public_address).0 && is_unset cfg.public_address
          then no_address ∷ []
          else [])
        _ m in
    ground (arith, public_of-none cfg.public_address)

-- A check that fails names at least one complaint.
pub checked-complains : (cfg : OpeningConfig) → checked cfg ≢ failed []
unfolding checked
checked-complains cfg h = elim (Bool-cases cfg.enabled) [
  | inr off ↦ absurd (ground arith)
  | inl on ↦
      let (clean, why) =
        conclude-failed (complaints cfg ++ missing (public_of cfg.public_address).0 cfg)
          (parse_ports cfg.ports) (public_of cfg.public_address).0 cfg (ground arith) in
      let (none_bad, none_missing) =
        append-nil (complaints cfg) (missing (public_of cfg.public_address).0 cfg) clean in
      complete cfg none_bad none_missing why
]
