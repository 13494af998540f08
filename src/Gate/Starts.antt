-- ===== src/Gate/Starts.antt =====
-- When a start is sent through the gate of src/proxmox.rs.
use omnuv_provider.Base.{
  ℕ, zero, suc, ◌+◌, ◌≤◌, ◌<◌, ◌≡◌, ◌≢◌, ◌⊎◌, refl, sym, List, [], ◌∷◌, Option, none, some, arith,
  inl, inr, Bool-cases, subst, ◌==◌, ==_iff,
}
use omnuv_provider.Gate.{Readings, Blocker, start_blockers, sent, gate, start_when_ready}
use omnuv_provider.Gate.Clear.{Clear, start_blockers-Clear}

look_cases :
    {A : Type 0} (o : Option (List A))
    → (o ≡ none) ⊎ ((o ≡ some []) ⊎ ((b : A) × (bs : List A) × (o ≡ some (b ∷ bs))))
look_cases none = inl refl
look_cases (some []) = inr (inl refl)
look_cases (some (b ∷ bs)) = inr (inr (b, bs, refl))

module _ (vmid : ℕ) (look : ℕ → Readings) where
  -- What a look found that stopped the start.
  abbrev pub Blocked : ℕ → Type 0
  Blocked n = (b : Blocker) × (bs : List Blocker) × (start_blockers (look n) vmid ≡ some (b ∷ bs))

  gate-sent :
      (more n k : ℕ)
      → gate vmid look more n ≡ sent k
      → (n ≤ k)
        × (k ≤ n + more)
        × (start_blockers (look k) vmid ≡ some [])
        × ((m : ℕ) → n ≤ m → m < k → Blocked m)
  unfolding gate
  gate-sent zero n k h = elim (look_cases (start_blockers (look n) vmid)) [
    | inl e ↦ absurd (ground arith)
    | inr (inr (b, bs, e)) ↦ absurd (ground arith)
    | inr (inl e) ↦
        let here : n ≡ k = ground arith in
        (
          omega (arith, here),
          omega (arith, here),
          subst (λ i. start_blockers (look i) vmid ≡ some []) here e,
          λ m lo hi. absurd (omega (arith, here)),
        )
  ]
  gate-sent (suc more) n k h = elim (look_cases (start_blockers (look n) vmid)) [
    | inl e ↦ absurd (ground arith)
    | inr (inl e) ↦
        let here : n ≡ k = ground arith in
        (
          omega (arith, here),
          omega (arith, here),
          subst (λ i. start_blockers (look i) vmid ≡ some []) here e,
          λ m lo hi. absurd (omega (arith, here)),
        )
    | inr (inr (b, bs, e)) ↦
        let (lo', hi', clear, before) = gate-sent more (suc n) k (ground arith) in
        (
          omega arith,
          omega arith,
          clear,
          λ m lo hi. elim (Bool-cases (n == m)) [
            | inl q ↦ (
              b,
              bs,
              subst (λ i. start_blockers (look i) vmid ≡ some (b ∷ bs)) ((==_iff n m).0 q) e,
            )
            | inr q ↦ before m (ground arith) hi
          ],
        )
  ]

  -- The start of a machine is sent only right after a look at which nothing blocked it: none of its
  -- own tasks ran but a start and the network was not being reloaded; each of its bridges was up; and no
  -- other running guest whose configuration could be read had one of its cards. That is at most the
  -- given number of looks after the first, and every look before it found a blocker.
  pub start_when_ready-Clear :
      (looks k : ℕ)
      → start_when_ready vmid look looks ≡ sent k
      → (k ≤ looks) × Clear (look k) vmid × ((m : ℕ) → m < k → Blocked m)
  unfolding start_when_ready
  start_when_ready-Clear looks k h =
      let (_, few, clear, before) = gate-sent looks 0 k h in
      (omega arith, start_blockers-Clear (look k) vmid clear, λ m b. before m (omega arith) b)

  gate-starts :
      (more n k : ℕ)
      → n ≤ k
      → k ≤ n + more
      → start_blockers (look k) vmid ≡ some []
      → ((m : ℕ) → n ≤ m → m < k → start_blockers (look m) vmid ≢ none)
      → (j : ℕ) × (j ≤ k) × (gate vmid look more n ≡ sent j)
  unfolding gate
  gate-starts zero n k lo hi clear read =
      let here : k ≡ n = omega arith in
      (
        n,
        omega arith,
        ground (arith, subst (λ i. start_blockers (look i) vmid ≡ some []) here clear),
      )
  gate-starts (suc more) n k lo hi clear read = elim (look_cases (start_blockers (look n) vmid)) [
    | inr (inl e) ↦ (n, lo, ground arith)
    | inl e ↦ elim (Bool-cases (n == k)) [
      | inl q ↦ absurd (
          ground (
            arith,
            subst (λ i. start_blockers (look i) vmid ≡ some []) (sym ((==_iff n k).0 q)) clear,
          ))
      | inr q ↦ absurd (read n (omega arith) (ground arith) e)
    ]
    | inr (inr (b, bs, e)) ↦ elim (Bool-cases (n == k)) [
      | inl q ↦ absurd (
          ground (
            arith,
            subst (λ i. start_blockers (look i) vmid ≡ some []) (sym ((==_iff n k).0 q)) clear,
          ))
      | inr q ↦
          let (j, few, at) =
            gate-starts more (suc n) k (ground arith) (omega arith) clear
              (λ m a b'. read m (omega arith) b') in
          (j, few, ground arith)
    ]
  ]

  -- If at some look within the allowed ones nothing blocks the start, and every look before it could be
  -- read, the start is sent, at that look or before.
  pub start_when_ready-starts :
      (looks k : ℕ)
      → k ≤ looks
      → start_blockers (look k) vmid ≡ some []
      → ((m : ℕ) → m < k → start_blockers (look m) vmid ≢ none)
      → (j : ℕ) × (j ≤ k) × (start_when_ready vmid look looks ≡ sent j)
  unfolding start_when_ready
  start_when_ready-starts looks k few clear read =
      gate-starts looks 0 k (omega arith) (omega arith) clear (λ m _ b. read m b)
