-- ===== src/Cards/Offers.antt =====
-- When a card may be offered, in src/proxmox.rs.
use omnuv_provider.Base.{
  ℕ, ◌+◌, ◌≤◌, ◌≡◌, ◌⊎◌, refl, true, false, ◌&&◌, ◌||◌, List, [], ◌∷◌, Option, none, some, arith,
  ◌∙◌, inl, inr, Bool-cases, Option-cases, ap, sym, subst, All, if◌then◌else◌,
}
use omnuv_provider.Base.Results.{Result, done, failed}
use omnuv_provider.Base.Text.{Text, same, same→eq, same_refl}
use omnuv_provider.Hypervisor.{Config}
use omnuv_provider.Cards.{CardFault, Slots, has, add, PciMapping}
use omnuv_provider.Cards.Claims.{
  VmEntry, Desired, Holding, PciClaims, no_claims, incomplete, may_offer, holding_of, hold_slot,
  hold_each, observe_vm, observe_each, claimed_pci,
}

has-add : (s x : Text) (xs : Slots) → has s (add x xs) ≡ (same x s || has s xs)
has-add s x xs = elim (Bool-cases (has x xs)) [
  | inr new ↦ ground arith
  | inl old ↦ elim (Bool-cases (same x s)) [
    | inr other ↦ ground arith
    | inl e ↦ ground (arith, ap (λ t. has t xs) (same→eq x s e))
  ]
]

-- What the devices of one guest do to one card.
module _ (s : Text) (h : Holding) where
  -- What Core's view gives the guest, or the guest neither runs nor is the marketplace's.
  abbrev pub Entitled : Type 0
  Entitled = (has s h.accounted ≡ true) ⊎ ((h.running ≡ false) × (h.ours ≡ false))

  -- The guest may have the card, and if it runs nothing that ran before it has.
  abbrev Own : PciClaims → PciClaims → Type 0
  Own q p = Entitled × (h.running ≡ true → (has s q.running ≡ true) × (has s p.running ≡ false))

  before :
      (p q : PciClaims)
      → (has s p.running ≡ true → has s q.running ≡ true)
      → has s q.running ≡ false
      → has s p.running ≡ false
  before p q f k = elim (Bool-cases (has s p.running)) [
    | inl e ↦ absurd (ground (arith, f e))
    | inr e ↦ e
  ]

  hold_slot-kept :
      (x : Text) (p : PciClaims)
      → let q = hold_slot h x p in
        (q.complete ≡ p.complete)
        × (has s q.blocked ≡ false → has s p.blocked ≡ false)
        × (has s p.running ≡ true → has s q.running ≡ true)
  unfolding hold_slot
  hold_slot-kept x p =
      (refl, λ k. ground (arith, has-add s x p.blocked), λ k. ground (arith, has-add s x p.running))

  hold_slot-own :
      (p : PciClaims)
      → let q = hold_slot h s p in
        has s q.blocked ≡ false
        → Entitled × (h.running ≡ true → (has s q.running ≡ true) × (has s p.running ≡ false))
  unfolding hold_slot
  hold_slot-own p k = (
    ground (arith, has-add s s p.blocked, same_refl s),
    λ runs. ground (arith, has-add s s p.blocked, has-add s s p.running, same_refl s),
  )

  hold_each-kept :
      (ss : Slots) (p : PciClaims)
      → let q = hold_each h ss p in
        (q.complete ≡ p.complete)
        × (has s q.blocked ≡ false → has s p.blocked ≡ false)
        × (has s p.running ≡ true → has s q.running ≡ true)
  unfolding hold_each
  hold_each-kept [] p = (refl, (λ k. k), (λ k. k))
  hold_each-kept (x ∷ ss) p =
      let (c, b, r) = hold_slot-kept x p in
      let (c', b', r') = hold_each-kept ss (hold_slot h x p) in
      (c' ∙ c, (λ k. b (b' k)), (λ k. r' (r k)))

  hold_each-own :
      (ss : Slots) (p : PciClaims)
      → let q = hold_each h ss p in
        has s ss ≡ true
        → has s q.blocked ≡ false
        → Entitled × (h.running ≡ true → (has s q.running ≡ true) × (has s p.running ≡ false))
  unfolding hold_each
  hold_each-own [] p k free = absurd (ground arith)
  hold_each-own (x ∷ ss) p k free = elim (Bool-cases (same x s)) [
    | inl e ↦
        let (_, b, r) = hold_each-kept ss (hold_slot h x p) in
        let here : Own (hold_slot h x p) p =
          subst (λ t. Own (hold_slot h t p) p) (sym (same→eq x s e))
            (hold_slot-own p
              (subst (λ t. has s (hold_slot h t p).blocked ≡ false) (same→eq x s e) (b free))) in
        (here.0, λ runs. (r (here.1 runs).0, (here.1 runs).1))
    | inr other ↦
        let (entitled, run) = hold_each-own ss (hold_slot h x p) (ground arith) free in
        let (_, _, r) = hold_slot-kept x p in
        (entitled, λ runs. ((run runs).0, before p (hold_slot h x p) r (run runs).1))
  ]

Result-cases :
    {E A : Type 0} (r : Result E A) → ((a : A) × (r ≡ done a)) ⊎ ((e : E) × (r ≡ failed e))
Result-cases (done a) = inl (a, refl)
Result-cases (failed e) = inr (e, refl)

module _ (version : ℕ) (node : Text) (mappings : List PciMapping) (desired : Option Desired)
    (configs : ℕ → Option (Option Config)) (s : Text) where
  -- A guest that was read whole, and may have the card if it names it.
  abbrev pub Provable : VmEntry → Type 0
  Provable vm =
      (c : Option Config) × (h : Holding) × (configs vm.vmid ≡ some c)
      × (holding_of version node mappings desired vm c ≡ done h)
      × (has s h.slots ≡ true → Entitled s h)

  -- How many of the guests that run name the card.
  abbrev pub holds_card : Result CardFault Holding → ℕ
  holds_card (failed e) = 0
  holds_card (done h) = if h.running && has s h.slots then 1 else 0

  unfoldable pub holders : List VmEntry → ℕ
  holders [] = 0
  holders (vm ∷ vms) =
      elim (configs vm.vmid) [
        | none ↦ 0
        | some c ↦ holds_card (holding_of version node mappings desired vm c)
      ]
      + holders vms

  abbrev known : PciClaims → ℕ
  known p = if has s p.running then 1 else 0

  hold_all-card :
      (h : Holding) (p : PciClaims)
      → let q = hold_each h h.slots p in
        q.complete ≡ true
        → has s q.blocked ≡ false
        → (p.complete ≡ true)
          × (has s p.blocked ≡ false)
          × (has s h.slots ≡ true → Entitled s h)
          × (holds_card (done h) + known p ≤ known q)
  hold_all-card h p whole free =
      let (c, b, r) = hold_each-kept s h h.slots p in
      (
        sym c ∙ whole,
        b free,
        (λ named. (hold_each-own s h h.slots p named free).0),
        elim (Bool-cases (h.running && has s h.slots)) [
          | inr idle ↦ ground (arith, r)
          | inl holds ↦
              let (now, first) =
                (hold_each-own s h h.slots p (ground arith) free).1 (ground arith) in
              ground arith
        ],
      )

  -- What one guest, read or not, leaves of a card that may be offered after it.
  abbrev Fine : PciClaims → VmEntry → PciClaims → Type 0
  Fine p vm q =
      (p.complete ≡ true)
      × (has s p.blocked ≡ false)
      × Provable vm
      × (holders (vm ∷ []) + known p ≤ known q)

  observe_vm-card :
      (p : PciClaims) (vm : VmEntry) (c : Option Config)
      → configs vm.vmid ≡ some c
      → let q = observe_vm version node mappings desired p vm c in
        q.complete ≡ true → has s q.blocked ≡ false → Fine p vm q
  unfolding observe_vm holders
  observe_vm-card p vm c read whole free =
      elim (Result-cases (holding_of version node mappings desired vm c)) [
        | inr (e, x) ↦ absurd (ground arith)
        | inl (h, x) ↦
            let seen : observe_vm version node mappings desired p vm c ≡ hold_each h h.slots p =
              rw (x, observe_vm) refl in
            let (w, b, named, count) =
              hold_all-card h p (subst (λ (q : PciClaims). q.complete ≡ true) seen whole)
                (subst (λ (q : PciClaims). has s q.blocked ≡ false) seen free) in
            (w, b, (c, h, read, x, named), ground (arith, count))
      ]

  observe_each-card :
      (vms : List VmEntry) (p : PciClaims)
      → let q = observe_each version node mappings desired configs vms p in
        q.complete ≡ true
        → has s q.blocked ≡ false
        → (p.complete ≡ true)
          × (has s p.blocked ≡ false)
          × All Provable vms
          × (holders vms + known p ≤ known q)
  unfolding observe_each holders
  observe_each-card [] p whole free = (whole, free, tt, omega arith)
  observe_each-card (vm ∷ vms) p whole free = elim (Option-cases (configs vm.vmid)) [
    | inl unread ↦
        let seen : observe_each version node mappings desired configs (vm ∷ vms) p
            ≡ observe_each version node mappings desired configs vms (incomplete p) =
          rw (unread, observe_each) refl in
        let (w, _, _, _) =
          observe_each-card vms (incomplete p)
            (subst (λ (q : PciClaims). q.complete ≡ true) seen whole)
            (subst (λ (q : PciClaims). has s q.blocked ≡ false) seen free) in
        absurd (ground arith)
    | inr (c, read) ↦
        let p' = observe_vm version node mappings desired p vm c in
        let seen : observe_each version node mappings desired configs (vm ∷ vms) p
            ≡ observe_each version node mappings desired configs vms p' =
          rw (read, observe_each) refl in
        let (w, b, rest, count) =
          observe_each-card vms p' (subst (λ (q : PciClaims). q.complete ≡ true) seen whole)
            (subst (λ (q : PciClaims). has s q.blocked ≡ false) seen free) in
        let (w', b', here, count') = observe_vm-card p vm c read w b in
        (w', b', (here, rest), omega (arith, count, count', ap (λ (q : PciClaims). known q) seen))
  ]

-- A card is offered only if the node's guests and the mappings were listed and every guest was read
-- whole; each guest that names the card is given it by Core's view, or neither runs nor is the
-- marketplace's; and no two guests that run name it.
pub claimed_pci-may_offer :
    (version : ℕ) (node : Text) (desired : Option Desired) (listing : Option (List VmEntry))
    (mapped : Option (List PciMapping)) (configs : ℕ → Option (Option Config)) (s : Text)
    → may_offer (claimed_pci version node desired listing mapped configs) s ≡ true
    → (vms : List VmEntry) × (mappings : List PciMapping) × (listing ≡ some vms)
      × (mapped ≡ some mappings)
      × All (Provable version node mappings desired configs s) vms
      × (holders version node mappings desired configs s vms ≤ 1)
unfolding may_offer claimed_pci
claimed_pci-may_offer version node desired none mapped configs s h = absurd (ground arith)
claimed_pci-may_offer version node desired (some vms) none configs s h =
    let (w, _, _, _) =
      observe_each-card version node [] desired configs s vms (incomplete no_claims) (ground arith)
        (ground arith) in
    absurd (ground arith)
claimed_pci-may_offer version node desired (some vms) (some mappings) configs s h =
    let (_, _, each, count) =
      observe_each-card version node mappings desired configs s vms no_claims (ground arith)
        (ground arith) in
    (vms, mappings, refl, refl, each, ground arith)
