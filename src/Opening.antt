-- ===== src/Opening.antt =====
-- crates/onv-hostnet/src/opening.rs: the provider opening, one UDP port on the host's public side for
-- each machine. Here, the configuration and its check. Complaints are values, without their words.
pub mod Book
pub mod Rules
pub mod Ports
pub mod Steps
pub mod Answers
pub mod Config
pub mod Apply
pub mod Applied
use omnuv_provider.Base.{
  ℕ, ◌+◌, ◌-◌, Bool, true, false, ◌&&◌, ◌||◌, not, List, [], ◌∷◌, ◌++◌, Option, none, some,
  if◌then◌else◌, leb, ltb, ◌==◌, length, all, is_empty, is_none,
}
use omnuv_provider.Base.Results.{Result, done, failed}
use omnuv_provider.Base.Text.{Text, codes, trim, split_once, is_alphanumeric}
use omnuv_provider.Base.Decimal.{parse_uint}
use omnuv_provider.Ipv4.{Unreachable, parse_ip, not_public}

abbrev pub max_ports : ℕ
max_ports = 1024

abbrev pub u16_bound : ℕ
u16_bound = 65536

pub data Reach : Type 0 where
  public : Reach
  forwarded : Reach

pub record OpeningConfig : Type 0 where
  pub enabled : Bool
  pub reach : Option Reach
  pub public_address : Option Text
  pub interface : Text
  pub ports : Text

pub data Complaint : Type 0 where
  no_dash : Text → Complaint
  not_a_port : Text → Complaint
  not_ordered : Text → Complaint
  too_many : ℕ → Complaint
  no_interface : Text → Complaint
  unreachable : ℕ → Unreachable → Complaint
  not_ipv4 : Text → Complaint
  no_address : Complaint
  no_reach : Complaint

-- The range of two ports that were read.
unfoldable pub range_of : Text → ℕ → ℕ → Result Complaint (ℕ × ℕ)
range_of s a b =
    if ltb a 1024 || ltb b a
    then failed (not_ordered s)
    else if ltb max_ports (b - a + 1)
    then failed (too_many (b - a + 1))
    else done (a, b)

unfoldable pub ports_of : Text → Text → Text → Result Complaint (ℕ × ℕ)
ports_of s a b = elim (parse_uint u16_bound (trim a)) [
  | none ↦ failed (not_a_port (trim a))
  | some first ↦ elim (parse_uint u16_bound (trim b)) [
    | none ↦ failed (not_a_port (trim b))
    | some last ↦ range_of s first last
  ]
]

unfoldable pub parse_ports : Text → Result Complaint (ℕ × ℕ)
parse_ports s = elim (split_once b'-' (trim s)) [
  | none ↦ failed (no_dash s)
  | some (a, b) ↦ ports_of s a b
]

-- The length is that of the bytes: every character that passes is one byte.
abbrev pub valid_interface : Text → Bool
valid_interface name =
    not (is_empty name)
    && leb (length name) 15
    && all (λ c. is_alphanumeric c || (c == b'_') || (c == b'.') || (c == b'-')) name

pub record Checked : Type 0 where
  pub first : ℕ
  pub last : ℕ
  pub public_ip : ℕ
  pub reach : Reach
  pub interface : Text

abbrev pub range_complaints : Result Complaint (ℕ × ℕ) → List Complaint
range_complaints (done r) = []
range_complaints (failed e) = e ∷ []

-- The address to use, and what was found wrong with it.
unfoldable pub public_of : Option Text → Option ℕ × List Complaint
public_of none = (none, [])
public_of (some s) = if is_empty (trim s) then (none, []) else elim (parse_ip (trim s)) [
  | none ↦ (none, not_ipv4 s ∷ [])
  | some ip ↦ elim (not_public ip) [
    | some why ↦ (none, unreachable ip why ∷ [])
    | none ↦ (some ip, [])
  ]
]

abbrev pub is_unset : Option Text → Bool
is_unset none = true
is_unset (some s) = is_empty (trim s)

-- What being on needs besides.
abbrev pub missing : Option ℕ → OpeningConfig → List Complaint
missing ip cfg =
    (if is_none ip && is_unset cfg.public_address then no_address ∷ [] else [])
    ++ (if is_none cfg.reach then no_reach ∷ [] else [])

-- The match at the end of the check.
unfoldable pub conclude :
    List Complaint
    → Result Complaint (ℕ × ℕ)
    → Option ℕ
    → OpeningConfig
    → Result (List Complaint) (Option Checked)
conclude [] (done (a, b)) (some ip) cfg = elim cfg.reach [
  | none ↦ failed []
  | some how ↦ done (
      some (record { first = a; last = b; public_ip = ip; reach = how; interface = cfg.interface }))
]
conclude bad _ _ cfg = failed bad

-- What every configuration is checked for.
unfoldable pub complaints : OpeningConfig → List Complaint
complaints cfg =
    range_complaints (parse_ports cfg.ports)
    ++ ((if valid_interface cfg.interface then [] else no_interface cfg.interface ∷ [])
        ++ (public_of cfg.public_address).1)

unfoldable pub checked : OpeningConfig → Result (List Complaint) (Option Checked)
checked cfg =
    let ip = (public_of cfg.public_address).0 in
    let bad = complaints cfg in
    if not cfg.enabled
    then (if is_empty bad then done none else failed bad)
    else conclude (bad ++ missing ip cfg) (parse_ports cfg.ports) ip cfg
