-- ===== src/Lease/Renewal.antt =====
-- What a view's reading does to one machine's lease, in `apply` of src/lease.rs.
use omnuv_provider.Base.{
  ℕ, ◌+◌, ◌≡◌, refl, subst, ◌∙◌, ap, inl, inr, Bool, true, false, ◌&&◌, ◌||◌, List, [], ◌∷◌, Option,
  none, some, arith, ltb, if◌then◌else◌, any, ◌>>=◌, Bool-cases, max,
}
use omnuv_provider.Base.Text.{Text, same, same→eq}
use omnuv_provider.Base.Assoc.{
  Assoc, get, get-insert, get-remove, get-retain, Unique, insert-Unique, remove-Unique,
  retain-Unique,
}
use omnuv_provider.Lease.{
  InstanceSpec, is_running, Asked, Reading, Lease, granted, renew_one, apply_one, apply_each,
  is_kept, told_by, apply,
}

-- The lease one machine of the view leaves, from the one before.
abbrev pub renewed : Asked → ℕ → Option Lease → Option Lease
renewed asked t none = some (granted asked t)
renewed asked t (some l) = if ltb (asked.at + t) l.deadline then some l else some (granted asked t)

abbrev pub lease_after :
    Asked → Option (ℕ × List Text) → InstanceSpec → Text → Option Lease → Option Lease
lease_after asked told spec id l =
    if same spec.id id && is_running spec.intent
    then elim told [
      | none ↦ none
      | some (t, ids) ↦ if any (λ i. same i spec.id) ids then renewed asked t l else none
    ]
    else l

abbrev pub deadline_of : Option Lease → ℕ
deadline_of none = 0
deadline_of (some l) = l.deadline

-- The lease of one machine after a whole view: what `apply` promises, one machine at a time.
abbrev pub lease_after_all :
    Asked → Option (ℕ × List Text) → List InstanceSpec → Text → Option Lease → Option Lease
lease_after_all asked told [] id l = l
lease_after_all asked told (spec ∷ rest) id l =
    lease_after_all asked told rest id (lease_after asked told spec id l)

renew_one-get :
    (asked : Asked) (t : ℕ) (j id : Text) (m : Assoc Lease)
    → get id (renew_one asked t j m) ≡ (if same j id then renewed asked t (get id m) else get id m)
unfolding renew_one
renew_one-get asked t j id m = elim (Bool-cases (same j id)) [
  | inl e ↦
      let g : get j m ≡ get id m = ap (λ k. get k m) (same→eq j id e) in
      ground (arith, get-insert j id (granted asked t) m, g)
  | inr ne ↦ ground (arith, get-insert j id (granted asked t) m)
]

apply_one-get :
    (asked : Asked) (told : Option (ℕ × List Text)) (spec : InstanceSpec) (id : Text)
    (m : Assoc Lease)
    → get id (apply_one asked told spec m) ≡ lease_after asked told spec id (get id m)
unfolding apply_one
apply_one-get asked none spec id m = ground (arith, get-remove spec.id id m)
apply_one-get asked (some (t, ids)) spec id m =
    ground (arith, get-remove spec.id id m, renew_one-get asked t spec.id id m)

apply_each-get :
    (asked : Asked) (told : Option (ℕ × List Text)) (view : List InstanceSpec) (id : Text)
    (m : Assoc Lease)
    → get id (apply_each asked told view m) ≡ lease_after_all asked told view id (get id m)
unfolding apply_each
apply_each-get asked told [] id m = refl
apply_each-get asked told (spec ∷ rest) id m =
    apply_each-get asked told rest id (apply_one asked told spec m)
    ∙ ap (lease_after_all asked told rest id) (apply_one-get asked told spec id m)

renew_one-Unique :
    (asked : Asked) (t : ℕ) (j : Text) (m : Assoc Lease) → Unique m → Unique (renew_one asked t j m)
unfolding renew_one
renew_one-Unique asked t j m u = ground (arith, insert-Unique j (granted asked t) m u)

apply_one-Unique :
    (asked : Asked) (told : Option (ℕ × List Text)) (spec : InstanceSpec) (m : Assoc Lease)
    → Unique m
    → Unique (apply_one asked told spec m)
unfolding apply_one
apply_one-Unique asked none spec m u = ground (arith, remove-Unique spec.id m u)
apply_one-Unique asked (some (t, ids)) spec m u =
    ground (arith, remove-Unique spec.id m u, renew_one-Unique asked t spec.id m u)

apply_each-Unique :
    (asked : Asked) (told : Option (ℕ × List Text)) (view : List InstanceSpec) (m : Assoc Lease)
    → Unique m
    → Unique (apply_each asked told view m)
unfolding apply_each
apply_each-Unique asked told [] m u = u
apply_each-Unique asked told (spec ∷ rest) m u =
    apply_each-Unique asked told rest (apply_one asked told spec m)
      (apply_one-Unique asked told spec m u)

-- No machine has two leases after a view, if none had before.
pub apply-Unique :
    (r : Reading) (view : List InstanceSpec) (m : Assoc Lease) → Unique m → Unique (apply r view m)
unfolding apply
apply-Unique r view m u = retain-Unique _ _ (apply_each-Unique r.asked (told_by r) view m u)

-- The map after a view is, machine by machine, the lease the view leaves, dropped when the machine
-- was stopped past its deadline and the view does not name it. No machine has two leases before.
pub get-apply :
    (r : Reading) (view : List InstanceSpec) (id : Text) (m : Assoc Lease)
    → Unique m
    → get id (apply r view m) ≡ (
        lease_after_all r.asked (told_by r) view id (get id m) >>= λ l.
        if is_kept r.asked view id l then some l else none)
unfolding apply
get-apply r view id m u =
    get-retain (is_kept r.asked view) id (apply_each r.asked (told_by r) view m)
      (apply_each-Unique r.asked (told_by r) view m u)
    ∙ ap (λ o. o >>= λ l. if is_kept r.asked view id l then some l else none)
        (apply_each-get r.asked (told_by r) view id m)

-- What the reading tells of a machine that the view names Running.
abbrev pub told_of : Asked → Option (ℕ × List Text) → Text → Option Lease → Option Lease
told_of asked told id l = elim told [
  | none ↦ none
  | some (t, ids) ↦ if any (λ i. same i id) ids then renewed asked t l else none
]

told_of_idem :
    (asked : Asked) (told : Option (ℕ × List Text)) (id : Text) (l : Option Lease)
    → told_of asked told id (told_of asked told id l) ≡ told_of asked told id l
told_of_idem asked none id l = refl
told_of_idem asked (some (t, ids)) id l = ground arith

lease_after-told :
    (asked : Asked) (told : Option (ℕ × List Text)) (spec : InstanceSpec) (id : Text)
    (l : Option Lease)
    → lease_after asked told spec id l
      ≡ (if same spec.id id && is_running spec.intent then told_of asked told id l else l)
lease_after-told asked told spec id l = elim (Bool-cases (same spec.id id)) [
  | inl e ↦
      subst
        (λ k.
          lease_after asked told spec id l
          ≡ (if same spec.id id && is_running spec.intent then told_of asked told k l else l))
        (same→eq spec.id id e) refl
  | inr ne ↦ rw ne refl
]

-- A test passed twice is a test passed once.
merged :
    (f : Option Lease → Option Lease) (l : Option Lease) (b c : Bool)
    → f (f l) ≡ f l
    → (let o = if b then f l else l in if c then f o else o) ≡ (if b || c then f l else l)
merged f l true true h = h
merged f l true false h = refl
merged f l false true h = refl
merged f l false false h = refl

abbrev pub runs : List InstanceSpec → Text → Bool
runs view id = any (λ (s : InstanceSpec). same s.id id && is_running s.intent) view

lease_after_all-told :
    (asked : Asked) (told : Option (ℕ × List Text)) (view : List InstanceSpec) (id : Text)
    (l : Option Lease)
    → lease_after_all asked told view id l ≡ (if runs view id then told_of asked told id l else l)
lease_after_all-told asked told [] id l = refl
lease_after_all-told asked told (spec ∷ rest) id l =
    lease_after_all-told asked told rest id (lease_after asked told spec id l)
    ∙ ap (λ o. if runs rest id then told_of asked told id o else o)
        (lease_after-told asked told spec id l)
    ∙ merged (told_of asked told id) l (same spec.id id && is_running spec.intent) (runs rest id)
        (told_of_idem asked told id l)

-- Whether the reading lists the machine.
abbrev pub lists : Option (ℕ × List Text) → Text → Bool
lists none id = false
lists (some (t, ids)) id = any (λ i. same i id) ids

renewed-lem :
    (asked : Asked) (t : ℕ) (view : List InstanceSpec) (id : Text) (o : Option Lease)
    → (l : Lease) × ((renewed asked t o >>= λ l. if is_kept asked view id l then some l else none)
        ≡ some l)
      × (l.deadline ≡ max (deadline_of o) (asked.at + t))
renewed-lem asked t view id none = (granted asked t, refl, ground arith)
renewed-lem asked t view id (some l) = elim (Bool-cases (ltb (asked.at + t) l.deadline)) [
  | inl later ↦ (l, ground arith, ground arith)
  | inr sooner ↦ (granted asked t, ground arith, ground arith)
]

-- A machine that the view names Running, and that the reading lists for `t`: its deadline is the
-- later of the one it had and `t` counted from when the view was asked for. No machine has two
-- leases before.
pub renewal_counts_from_ask :
    (r : Reading) (view : List InstanceSpec) (id : Text) (m : Assoc Lease) (t : ℕ) (ids : List Text)
    → Unique m
    → runs view id ≡ true
    → told_by r ≡ some (t, ids)
    → any (λ i. same i id) ids ≡ true
    → (l : Lease) × (get id (apply r view m) ≡ some l)
      × (l.deadline ≡ max (deadline_of (get id m)) (r.asked.at + t))
renewal_counts_from_ask r view id m t ids u run told listed =
    let (l, e, d) = renewed-lem r.asked t view id (get id m) in
    (
      l,
      get-apply r view id m u
          ∙ rw (lease_after_all-told r.asked (told_by r) view id (get id m), run, told, listed) e,
      d,
    )

not_told :
    (asked : Asked) (told : Option (ℕ × List Text)) (id : Text) (l : Option Lease)
    → lists told id ≡ false
    → told_of asked told id l ≡ none
not_told asked none id l h = refl
not_told asked (some (t, ids)) id l h = rw h

-- A machine that the view names Running, and that the reading does not list, holds no lease. No
-- machine has two leases before.
pub released :
    (r : Reading) (view : List InstanceSpec) (id : Text) (m : Assoc Lease)
    → Unique m
    → runs view id ≡ true
    → lists (told_by r) id ≡ false
    → get id (apply r view m) ≡ none
released r view id m u run unlisted =
    get-apply r view id m u
    ∙ rw
        (
          lease_after_all-told r.asked (told_by r) view id (get id m),
          run,
          not_told r.asked (told_by r) id (get id m) unlisted,
        )
        refl

-- A view that names the machine Running nowhere, by any reading, neither renews nor ends its lease,
-- unless the machine was stopped past its deadline and the view does not name it at all. No machine
-- has two leases before.
pub absent_keeps :
    (r : Reading) (view : List InstanceSpec) (id : Text) (m : Assoc Lease) (l : Lease)
    → Unique m
    → get id m ≡ some l
    → runs view id ≡ false
    → get id (apply r view m) ≡ (if is_kept r.asked view id l then some l else none)
absent_keeps r view id m l u e h =
    get-apply r view id m u
    ∙ rw (e, lease_after_all-told r.asked (told_by r) view id (some l), h) refl
