-- ===== src/Cards/Claims.antt =====
-- src/proxmox.rs: `PciClaims`, what the guests of a node hold, guest by guest. The listings and the
-- configurations are arguments, `none` where they could not be read.
use omnuv_provider.Base.{
  ℕ, suc, Bool, true, false, ◌&&◌, ◌||◌, not, List, [], ◌∷◌, ◌++◌, map, Option, none, some,
  if◌then◌else◌, ◌==◌, any, ltb, is_some,
}
use omnuv_provider.Base.Results.{Result, done, failed}
use omnuv_provider.Base.Text.{Text, codes, same, split, trim, strip_prefix}
use omnuv_provider.Names.{
  tag_instance, tag_worker, tag_gateway, is_key_of, is_legacy_marketplace_tag,
}
use omnuv_provider.Hypervisor.{Config}
use omnuv_provider.Leased.{stamp_line}
use omnuv_provider.Cards.{
  CardFault, not_full, ambiguous_owner, not_an_object, no_power_state, not_assignment, Slots, has,
  add, extend, pci_claim_slots, PciMapping, resolve_pci_claim,
}

pub record VmEntry : Type 0 where
  pub vmid : ℕ
  pub status : Option Text
  pub tags : Option Text

-- A machine or a worker of Core's view, as far as it is read here.
pub record Claimant : Type 0 where
  pub id : Text
  pub gpu_local_ids : List Text

pub record Desired : Type 0 where
  pub unchanged : Bool
  pub protocol_version : ℕ
  pub instances : List Claimant
  pub inference_workers : List Claimant

-- A claimant with its claim and the word of its stamp.
pub record Claim : Type 0 where
  pub kind : Text
  pub label : Text
  pub who : Claimant

unfoldable pub claims_of : Desired → List Claim
claims_of d =
    map (λ (c : Claimant). record { kind = tag_instance; label = codes "instance"; who = c })
      d.instances
    ++ map
        (λ (c : Claimant). record { kind = tag_worker; label = codes "inference worker"; who = c })
        d.inference_workers

-- The tags as they stand, and the description's first line.
unfoldable pub is_its : List Text → Option Text → Claim → Bool
is_its tags line c =
    any (λ t. same t c.kind) tags && any (λ t. is_key_of t c.who.id) tags && elim line [
      | none ↦ false
      | some l ↦ same l (codes "Omnuv " ++ (c.label ++ (codes " " ++ c.who.id)))
    ]

unfoldable pub devices_slots : List Text → Slots → Result CardFault Slots
devices_slots [] known = done known
devices_slots (d ∷ ds) known = elim (pci_claim_slots d) [
  | failed e ↦ failed e
  | done xs ↦ devices_slots ds (extend xs known)
]

-- The devices of the claims that are this guest's, and how many they are.
unfoldable pub matched_slots :
    List Text → Option Text → List Claim → ℕ → Slots → Result CardFault (ℕ × Slots)
matched_slots tags line [] n known = done (n, known)
matched_slots tags line (c ∷ cs) n known =
    let passed = matched_slots tags line cs n known in
    if is_its tags line c
    then elim (devices_slots c.who.gpu_local_ids known) [
      | failed e ↦ failed e
      | done more ↦ matched_slots tags line cs (suc n) more
    ]
    else passed

abbrev pub tag_list : Option Text → List Text
tag_list none = [] ∷ []
tag_list (some t) = split (λ c. c == b';') t

-- The devices that Core's view gives this guest; `version` is the protocol's own.
unfoldable pub accounted_pci : ℕ → VmEntry → Config → Option Desired → Result CardFault Slots
accounted_pci version vm c none = done []
accounted_pci version vm c (some d) =
    if d.unchanged || not (d.protocol_version == version)
    then failed not_full
    else elim (matched_slots (tag_list vm.tags) (stamp_line c) (claims_of d) 0 []) [
      | failed e ↦ failed e
      | done (n, slots) ↦ if ltb 1 n then failed ambiguous_owner else done slots
    ]

-- A guest of the marketplace, by a tag of any of its kinds.
unfoldable pub is_marketplace : Option Text → Bool
is_marketplace none = false
is_marketplace (some tags) =
    any
      (λ t.
        let t' = trim t in
        same t' tag_worker
        || same t' tag_gateway
        || same t' tag_instance
        || is_legacy_marketplace_tag t')
      (split (λ c. (c == b';') || (c == b',')) tags)

abbrev pub is_running : Option Text → Option Bool
is_running none = none
is_running (some s) =
    if same s (codes "running") || same s (codes "paused")
    then some true
    else if same s (codes "stopped")
    then some false
    else none

-- Every assignment of a configuration.
unfoldable pub assigned : Text → List PciMapping → Config → Slots → Result CardFault Slots
assigned node mappings [] known = done known
assigned node mappings ((k, v) ∷ c) known =
    let rest = assigned node mappings c known in
    if is_some (strip_prefix (codes "hostpci") k)
    then elim v [
      | none ↦ failed not_assignment
      | some raw ↦ elim (resolve_pci_claim raw node mappings) [
        | failed e ↦ failed e
        | done xs ↦ assigned node mappings c (extend xs known)
      ]
    ]
    else rest

-- What one guest holds: whether it runs, its devices, and those Core's view accounts for.
pub record Holding : Type 0 where
  pub running : Bool
  pub slots : Slots
  pub accounted : Slots
  pub ours : Bool

-- What is known of a node's guests.
pub record PciClaims : Type 0 where
  pub running : Slots
  pub stopped : Slots
  pub accounted : Slots
  pub blocked : Slots
  pub complete : Bool

abbrev pub no_claims : PciClaims
no_claims = record { running = []; stopped = []; accounted = []; blocked = []; complete = true }

abbrev pub incomplete : PciClaims → PciClaims
incomplete p = record p { complete = false }

unfoldable pub may_offer : PciClaims → Text → Bool
may_offer p s = p.complete && not (has s p.blocked) && (not (has s p.running) || has s p.accounted)

-- One device of a guest.
unfoldable pub hold_slot : Holding → Text → PciClaims → PciClaims
hold_slot h s p = record p {
  running = if h.running then add s p.running else p.running;
  stopped = if h.running then p.stopped else add s p.stopped;
  accounted = if has s h.accounted then add s p.accounted else p.accounted;
  blocked =
      if (h.running && has s p.running) || (not (has s h.accounted) && (h.running || h.ours))
      then add s p.blocked
      else p.blocked;
}

unfoldable pub hold_each : Holding → Slots → PciClaims → PciClaims
hold_each h [] p = p
hold_each h (s ∷ ss) p = hold_each h ss (hold_slot h s p)

module _ (version : ℕ) (node : Text) (mappings : List PciMapping) (desired : Option Desired) where
  -- Read whole, or not at all.
  unfoldable pub holding_of : VmEntry → Option Config → Result CardFault Holding
  holding_of vm none = failed not_an_object
  holding_of vm (some c) = elim (is_running vm.status) [
    | none ↦ failed no_power_state
    | some runs ↦ elim (assigned node mappings c []) [
      | failed e ↦ failed e
      | done slots ↦ elim (accounted_pci version vm c desired) [
        | failed e ↦ failed e
        | done accounted ↦ done (record {
          running = runs;
          slots = slots;
          accounted = accounted;
          ours = is_marketplace vm.tags;
        })
      ]
    ]
  ]

  -- A guest that cannot be read leaves no card provable.
  unfoldable pub observe_vm : PciClaims → VmEntry → Option Config → PciClaims
  observe_vm p vm c = elim (holding_of vm c) [
    | failed e ↦ incomplete p
    | done h ↦ hold_each h h.slots p
  ]

  -- A configuration is not read, or read: an object, or not.
  unfoldable pub observe_each : (ℕ → Option (Option Config)) → List VmEntry → PciClaims → PciClaims
  observe_each configs [] p = p
  observe_each configs (vm ∷ vms) p = elim (configs vm.vmid) [
    | none ↦ observe_each configs vms (incomplete p)
    | some c ↦ observe_each configs vms (observe_vm p vm c)
  ]

-- The node's listing, the mappings and every guest's configuration.
unfoldable pub claimed_pci :
    ℕ
    → Text
    → Option Desired
    → Option (List VmEntry)
    → Option (List PciMapping)
    → (ℕ → Option (Option Config))
    → PciClaims
claimed_pci version node desired none mappings configs = incomplete no_claims
claimed_pci version node desired (some vms) none configs =
    observe_each version node [] desired configs vms (incomplete no_claims)
claimed_pci version node desired (some vms) (some mappings) configs =
    observe_each version node mappings desired configs vms no_claims
