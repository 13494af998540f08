-- ===== src/Gate/Clear.antt =====
-- What it takes that nothing blocks a start, in src/proxmox.rs.
use omnuv_provider.Base.{
  ℕ, ◌≡◌, ◌⊎◌, refl, ap, ◌∙◌, Bool, true, false, ◌&&◌, ◌||◌, not, List, [], ◌∷◌, ◌++◌, Option, none,
  some, arith, inl, inr, Bool-cases, Option-cases, All, any, is_some, ◌==◌, ◌>>=◌,
}
use omnuv_provider.Base.Text.{Text, codes, strip_prefix}
use omnuv_provider.Hypervisor.{Config}
use omnuv_provider.Gate.{
  Task, Vnet, NodeGuest, Readings, Blocker, is, is_own, is_reload, task_blockers, valued, bridge_up,
  bridges_from, bridge_blockers, attaches, held_cards, config_cards, guest_cards, guests_cards,
  card_blockers, start_blockers,
}

append_nil : {A : Type 0} (xs ys : List A) → xs ++ ys ≡ [] → (xs ≡ []) × (ys ≡ [])
append_nil [] ys h = (refl, h)
append_nil (x ∷ xs) ys h = absurd (ground arith)

-- Whether a configuration has one of the cards.
abbrev pub has_card : List Text → Config → Bool
has_card ms c =
    any
      (λ (e : Text × Option Text).
        is_some (strip_prefix (codes "hostpci") e.0) && any (λ m. attaches m e.1) ms)
      c

-- Another guest that runs, and whose configuration can be read, has none of the cards.
abbrev pub leaves_cards : Readings → ℕ → List Text → NodeGuest → Bool
leaves_cards r vmid ms g = not (is (codes "running") g.status) || elim g.vmid as (λ _. Bool) [
  | none ↦ true
  | some other ↦
      (other == vmid) || elim (r.configs other) [ none ↦ true | some c ↦ not (has_card ms c) ]
]

-- What a look found, when nothing blocks the start.
abbrev pub Clear : Readings → ℕ → Type 0
Clear r vmid =
    (active : List Task) × (c : Config) × (r.active ≡ some active)
    × (r.config ≡ some c)
    × (any (λ t. is_own vmid t || is_reload t) active ≡ false)
    × ((valued (codes "net") (codes "bridge") c ≡ [])
        ⊎ ((vnets : List Vnet) × (r.vnets ≡ some vnets)
            × All (λ b. bridge_up r vnets b ≡ some true) (valued (codes "net") (codes "bridge") c)))
    × ((valued (codes "hostpci") (codes "mapping") c ≡ [])
        ⊎ ((gs : List NodeGuest) × (r.vms ≡ some gs)
            × All (λ g. leaves_cards r vmid (valued (codes "hostpci") (codes "mapping") c) g ≡ true)
                gs))

task_blockers-nil :
    (vmid : ℕ) (ts : List Task)
    → task_blockers vmid ts ≡ []
    → any (λ t. is_own vmid t || is_reload t) ts ≡ false
unfolding task_blockers
task_blockers-nil vmid [] h = refl
task_blockers-nil vmid (t ∷ ts) h = ground (arith, task_blockers-nil vmid ts)

held_cards-nil :
    (other : ℕ) (ms : List Text) (v : Option Text)
    → held_cards other ms v ≡ []
    → any (λ m. attaches m v) ms ≡ false
unfolding held_cards
held_cards-nil other [] v h = refl
held_cards-nil other (m ∷ ms) v h = ground (arith, held_cards-nil other ms v)

config_cards-nil :
    (other : ℕ) (ms : List Text) (c : Config) → config_cards other ms c ≡ [] → has_card ms c ≡ false
unfolding config_cards
config_cards-nil other ms [] h = refl
config_cards-nil other ms ((k, v) ∷ c) h =
    elim (Bool-cases (is_some (strip_prefix (codes "hostpci") k))) [
      | inr plain ↦ ground (arith, config_cards-nil other ms c)
      | inl card ↦
          let (here, rest) =
            append_nil (held_cards other ms v) (config_cards other ms c) (ground arith) in
          ground (arith, held_cards-nil other ms v here, config_cards-nil other ms c rest)
    ]

module _ (r : Readings) (vmid : ℕ) where
  guest_cards-nil :
      (ms : List Text) (g : NodeGuest)
      → guest_cards r vmid ms g ≡ []
      → leaves_cards r vmid ms g ≡ true
  unfolding guest_cards
  guest_cards-nil ms g h = elim (Option-cases g.vmid) [
    | inl e ↦ ground arith
    | inr (other, e) ↦ elim (Option-cases (r.configs other)) [
      | inl e' ↦ ground arith
      | inr (c, e') ↦ ground (arith, config_cards-nil other ms c)
    ]
  ]

  guests_cards-nil :
      (ms : List Text) (gs : List NodeGuest)
      → guests_cards r vmid ms gs ≡ []
      → All (λ g. leaves_cards r vmid ms g ≡ true) gs
  unfolding guests_cards
  guests_cards-nil ms [] h = tt
  guests_cards-nil ms (g ∷ gs) h =
      let (here, rest) = append_nil (guest_cards r vmid ms g) (guests_cards r vmid ms gs) h in
      (guest_cards-nil ms g here, guests_cards-nil ms gs rest)

  bridges_from-nil :
      (vnets : List Vnet) (bs : List Text)
      → bridges_from r vnets bs ≡ some []
      → All (λ b. bridge_up r vnets b ≡ some true) bs
  unfolding bridges_from
  bridges_from-nil vnets [] h = tt
  bridges_from-nil vnets (b ∷ bs) h = elim (Option-cases (bridge_up r vnets b)) [
    | inl e ↦ absurd (ground arith)
    | inr (up, e) ↦ elim (Option-cases (bridges_from r vnets bs)) [
      | inl e' ↦ absurd (ground arith)
      | inr (rest, e') ↦
          let up_now : up ≡ true = ground arith in
          (e ∙ ap some up_now, bridges_from-nil vnets bs (ground arith))
    ]
  ]

  bridge_blockers-nil :
      (bs : List Text)
      → bridge_blockers r bs ≡ some []
      → (bs ≡ [])
        ⊎ ((vnets : List Vnet) × (r.vnets ≡ some vnets)
            × All (λ b. bridge_up r vnets b ≡ some true) bs)
  unfolding bridge_blockers
  bridge_blockers-nil [] h = inl refl
  bridge_blockers-nil (b ∷ bs) h = elim (Option-cases r.vnets) [
    | inl e ↦ absurd (ground arith)
    | inr (vnets, e) ↦ inr (vnets, e, bridges_from-nil vnets (b ∷ bs) (ground arith))
  ]

  card_blockers-nil :
      (ms : List Text)
      → card_blockers r vmid ms ≡ some []
      → (ms ≡ [])
        ⊎ ((gs : List NodeGuest) × (r.vms ≡ some gs)
            × All (λ g. leaves_cards r vmid ms g ≡ true) gs)
  unfolding card_blockers
  card_blockers-nil [] h = inl refl
  card_blockers-nil (m ∷ ms) h = elim (Option-cases r.vms) [
    | inl e ↦ absurd (ground arith)
    | inr (gs, e) ↦ inr (gs, e, guests_cards-nil (m ∷ ms) gs (ground arith))
  ]

  -- What is asked once the tasks and the configuration are read.
  after_config : List Task → Config → Option (List Blocker)
  after_config active c = bridge_blockers r (valued (codes "net") (codes "bridge") c) >>= λ bridges.
      card_blockers r vmid (valued (codes "hostpci") (codes "mapping") c) >>= λ cards.
      some (task_blockers vmid active ++ (bridges ++ cards))

  from_config :
      (active : List Task) (c : Config)
      → r.active ≡ some active
      → r.config ≡ some c
      → after_config active c ≡ some []
      → Clear r vmid
  unfolding after_config
  from_config active c ea ec h =
      let nets = valued (codes "net") (codes "bridge") c in
      let ms = valued (codes "hostpci") (codes "mapping") c in
      elim (Option-cases (bridge_blockers r nets)) [
        | inl e ↦ absurd (ground arith)
        | inr (bridges, eb) ↦ elim (Option-cases (card_blockers r vmid ms)) [
          | inl e ↦ absurd (ground arith)
          | inr (cards, ek) ↦
              let (no_tasks, rest) =
                append_nil (task_blockers vmid active) (bridges ++ cards) (ground arith) in
              let (no_bridges, no_cards) = append_nil bridges cards rest in
              (
                active,
                c,
                ea,
                ec,
                task_blockers-nil vmid active no_tasks,
                bridge_blockers-nil nets (eb ∙ ap some no_bridges),
                card_blockers-nil ms (ek ∙ ap some no_cards),
              )
        ]
      ]

  pub start_blockers-Clear : start_blockers r vmid ≡ some [] → Clear r vmid
  unfolding start_blockers after_config
  start_blockers-Clear h = elim (Option-cases r.active) [
    | inl e ↦ absurd (ground arith)
    | inr (active, ea) ↦ elim (Option-cases r.config) [
      | inl e ↦ absurd (ground arith)
      | inr (c, ec) ↦ from_config active c ea ec (ground arith)
    ]
  ]
