-- ===== src/Gate.antt =====
-- src/proxmox.rs: where a machine may be placed, what must be true before it is started, and how long
-- its clone is waited for. What was read of the hypervisor is an argument, `none` where it failed.
pub mod Clear
pub mod Starts
use omnuv_provider.Base.{
  ℕ, zero, suc, ◌+◌, ◌-◌, Bool, true, false, ◌&&◌, ◌||◌, not, List, [], ◌∷◌, ◌++◌, map, Option,
  none, some, if◌then◌else◌, ◌==◌, ◌>>=◌, any, all, find, keep, is_empty, is_some, leb, min, max,
  or_else,
}
use omnuv_provider.Base.Text.{Text, codes, same, split, strip_prefix, is_digit, trim}
use omnuv_provider.Base.Decimal.{print, u32_bound}
use omnuv_provider.Hypervisor.{Config, field}
use omnuv_provider.Lease.{sort}
use omnuv_provider.Volumes.{dedup_texts}

-- A task of the node that is still running.
pub record Task : Type 0 where
  pub kind : Text
  pub id : Option Text

pub record Vnet : Type 0 where
  pub vnet : Option Text
  pub zone : Option Text

pub record ZoneVnet : Type 0 where
  pub vnet : Option Text
  pub available : Bool

pub record NodeGuest : Type 0 where
  pub vmid : Option ℕ
  pub status : Option Text

-- What one look reads.
pub record Readings : Type 0 where
  pub active : Option (List Task)
  pub config : Option Config
  pub vnets : Option (List Vnet)
  pub zone_content : Text → Option (List ZoneVnet)
  pub network : Option (List (Option Text))
  pub vms : Option (List NodeGuest)
  pub configs : ℕ → Option Config

pub data Blocker : Type 0 where
  own_task : Text → Blocker
  reloading : Blocker
  bridge_down : Text → Blocker
  card_held : Text → ℕ → Blocker

abbrev pub is : Text → Option Text → Bool
is s none = false
is s (some t) = same t s

abbrev pub is_own : ℕ → Task → Bool
is_own vmid t = is (print vmid) t.id && not (same t.kind (codes "qmstart"))

abbrev pub is_reload : Task → Bool
is_reload t =
    same t.kind (codes "reloadnetworkall")
    || (same t.kind (codes "srvreload") && is (codes "networking") t.id)

unfoldable pub task_blockers : ℕ → List Task → List Blocker
task_blockers vmid [] = []
task_blockers vmid (t ∷ ts) =
    (if is_own vmid t then own_task t.kind ∷ [] else [])
    ++ ((if is_reload t then reloading ∷ [] else []) ++ task_blockers vmid ts)

-- A key of the prefix and digits.
abbrev pub numbered : Text → Text → Bool
numbered prefix k = elim (strip_prefix prefix k) [
  | none ↦ false
  | some ds ↦ not (is_empty ds) && all is_digit ds
]

abbrev comma : ℕ → Bool
comma c = c == b','

unfoldable pub properties : Text → List Text → List Text
properties key [] = []
properties key (p ∷ ps) = elim (strip_prefix (key ++ codes "=") p) [
  | none ↦ properties key ps
  | some v ↦ v ∷ properties key ps
]

unfoldable pub values_of : Text → Text → Config → List Text
values_of prefix key [] = []
values_of prefix key ((k, v) ∷ c) =
    let rest = values_of prefix key c in
    let here = elim v as (λ _. List Text) [ none ↦ [] | some t ↦ properties key (split comma t) ] in
    if numbered prefix k then here ++ rest else rest

-- Sorted, and each once.
unfoldable pub valued : Text → Text → Config → List Text
valued prefix key c = dedup_texts (sort (values_of prefix key c))

abbrev pub zone_of : Text → List Vnet → Option Text
zone_of bridge vnets = elim (find (λ (v : Vnet). is bridge v.vnet) vnets) [
  | none ↦ none
  | some v ↦ v.zone
]

-- Whether a bridge is up: an SDN network is asked of its zone, another of the node's interfaces.
unfoldable pub bridge_up : Readings → List Vnet → Text → Option Bool
bridge_up r vnets bridge = elim (zone_of bridge vnets) [
  | some zone ↦ r.zone_content zone >>= λ vs.
      some (any (λ (v : ZoneVnet). is bridge v.vnet && v.available) vs)
  | none ↦ r.network >>= λ ifaces. some (any (is bridge) ifaces)
]

unfoldable pub bridges_from : Readings → List Vnet → List Text → Option (List Blocker)
bridges_from r vnets [] = some []
bridges_from r vnets (b ∷ bs) = bridge_up r vnets b >>= λ up.
    bridges_from r vnets bs >>= λ rest. some (if up then rest else bridge_down b ∷ rest)

unfoldable pub bridge_blockers : Readings → List Text → Option (List Blocker)
bridge_blockers r bridges =
    if is_empty bridges then some [] else r.vnets >>= λ vnets. bridges_from r vnets bridges

abbrev pub attaches : Text → Option Text → Bool
attaches m none = false
attaches m (some v) = any (λ p. same p (codes "mapping=" ++ m)) (split comma v)

unfoldable pub held_cards : ℕ → List Text → Option Text → List Blocker
held_cards other [] v = []
held_cards other (m ∷ ms) v =
    let rest = held_cards other ms v in if attaches m v then card_held m other ∷ rest else rest

unfoldable pub config_cards : ℕ → List Text → Config → List Blocker
config_cards other ms [] = []
config_cards other ms ((k, v) ∷ c) =
    let rest = config_cards other ms c in
    if is_some (strip_prefix (codes "hostpci") k) then held_cards other ms v ++ rest else rest

-- A running guest other than this one; one whose configuration cannot be read is passed over.
unfoldable pub guest_cards : Readings → ℕ → List Text → NodeGuest → List Blocker
guest_cards r vmid ms g =
    if is (codes "running") g.status
    then elim g.vmid as (λ _. List Blocker) [
      | none ↦ []
      | some other ↦
          if other == vmid
          then []
          else elim (r.configs other) [ none ↦ [] | some c ↦ config_cards other ms c ]
    ]
    else []

unfoldable pub guests_cards : Readings → ℕ → List Text → List NodeGuest → List Blocker
guests_cards r vmid ms [] = []
guests_cards r vmid ms (g ∷ gs) = guest_cards r vmid ms g ++ guests_cards r vmid ms gs

unfoldable pub card_blockers : Readings → ℕ → List Text → Option (List Blocker)
card_blockers r vmid ms =
    if is_empty ms then some [] else r.vms >>= λ gs. some (guests_cards r vmid ms gs)

-- What is not ready; `none` when something could not be read.
unfoldable pub start_blockers : Readings → ℕ → Option (List Blocker)
start_blockers r vmid = r.active >>= λ active. r.config >>= λ c.
    bridge_blockers r (valued (codes "net") (codes "bridge") c) >>= λ bridges.
    card_blockers r vmid (valued (codes "hostpci") (codes "mapping") c) >>= λ cards.
    some (task_blockers vmid active ++ (bridges ++ cards))

-- What a start through the gate does: at which look it is sent, if it is.
pub data Start : Type 0 where
  sent : ℕ → Start
  not_ready : List Blocker → Start
  unread : Start

module _ (vmid : ℕ) (look : ℕ → Readings) where
  -- `more` looks are left after this one, the `n`th.
  unfoldable pub gate : ℕ → ℕ → Start
  gate zero n = elim (start_blockers (look n) vmid) [
    | none ↦ unread
    | some [] ↦ sent n
    | some (b ∷ bs) ↦ not_ready (b ∷ bs)
  ]
  gate (suc more) n = elim (start_blockers (look n) vmid) [
    | none ↦ unread
    | some [] ↦ sent n
    | some (b ∷ bs) ↦ gate more (suc n)
  ]

  unfoldable pub start_when_ready : ℕ → Start
  start_when_ready looks = gate looks 0

-- How many polls a create may spend on its clone; both in seconds.
unfoldable pub clone_polls : Option ℕ → ℕ → ℕ
clone_polls budget most =
    let cap = min (max most 1) (u32_bound - 1) in
    elim budget [ none ↦ cap | some b ↦ min (max b 1) cap ]

pub record NodeEntry : Type 0 where
  pub node : Text
  pub status : Option Text

abbrev may_place : Option Text → NodeEntry → Bool
may_place want e =
    not (is (codes "offline") e.status) && elim want [ none ↦ true | some w ↦ same w e.node ]

-- The nodes to place on, in order; `none` when there is none.
unfoldable pub placement_nodes : Option Text → List NodeEntry → Option (List Text)
placement_nodes want es =
    let nodes = sort (map (λ (e : NodeEntry). e.node) (keep (may_place want) es)) in
    if is_empty nodes then none else some nodes

abbrev first_of : List Text → Option Text
first_of [] = none
first_of (n ∷ ns) = some n

-- The configured node, or the first of those.
unfoldable pub home_node : Option Text → Option Text → List NodeEntry → Option Text
home_node configured want es =
    let first = placement_nodes want es >>= first_of in
    elim configured [ none ↦ first | some n ↦ if is_empty (trim n) then first else some (trim n) ]

pub record StatusLine : Type 0 where
  pub kind : Option Text
  pub local : Option ℕ
  pub name : Option Text

abbrev pub is_one : Option ℕ → Bool
is_one none = false
is_one (some n) = n == 1

unfoldable pub local_node : List StatusLine → Option Text
local_node status =
    find (λ (e : StatusLine). is (codes "node") e.kind && is_one e.local) status >>= λ e. e.name

-- Only this agent's own node while first-boot files cannot reach the others: `shared` is what the
-- storage's status says, asked of a node.
unfoldable pub create_nodes :
    Option Text
    → Option (List NodeEntry)
    → Option (List StatusLine)
    → (Text → Option (Option ℕ))
    → Option (List Text)
create_nodes want entries status shared = entries >>= λ es. placement_nodes want es >>= λ nodes.
    status >>= λ ls. local_node ls >>= λ here. shared here >>= λ s.
    let kept = keep (λ n. same n here) nodes in
    if is_one s then some nodes else if is_empty kept then none else some kept
