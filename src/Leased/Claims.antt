-- ===== src/Leased/Claims.antt =====
-- When `claimed_guests` of crates/onv-driver-proxmox/src/leased.rs says that nothing carries a claim.
use omnuv_provider.Base.{
  ◌≡◌, refl, ap, sym, subst, ◌∙◌, Bool, true, false, List, [], ◌∷◌, ◌++◌, map, some, arith,
  if◌then◌else◌, is_empty, keep, any, All, In, In-All,
}
use omnuv_provider.Base.Text.{Text}
use omnuv_provider.Hypervisor.{
  Answer, ok, fault, Event, listed, pure, ◌>>=◌, ClusterVm, Guest, NodeLine, NodeVm, Api, Run, ask,
}
use omnuv_provider.Hypervisor.Keeps.{>>=-eq-ok, Keeps, Keeps-bind}
use omnuv_provider.Leased.{
  at_node, online, tagged, to_guest, node_guests, live_guests, claimed_guests,
}

-- A node that is online and has a name was listed, and no guest of it carries the claim.
abbrev pub Cleared : Text → Text → List Event → NodeLine → Type 0
Cleared kind id t n =
    (node : Text)
    → n.name ≡ some node
    → online n ≡ true
    → (vms : List NodeVm) × In (listed node (ok vms)) t
      × (any (λ v. tagged kind id v.tags) vms ≡ false)

map-keep-nil :
    {A B : Type 0} (p : A → Bool) (f : A → B) (xs : List A)
    → map f (keep p xs) ≡ []
    → any p xs ≡ false
map-keep-nil p f [] h = refl
map-keep-nil p f (x ∷ xs) h = ground (arith, map-keep-nil p f xs)

keep-map-nil :
    {A B : Type 0} (p : B → Bool) (f : A → B) (xs : List A)
    → keep p (map f xs) ≡ []
    → any (λ x. p (f x)) xs ≡ false
keep-map-nil p f [] h = refl
keep-map-nil p f (x ∷ xs) h = ground (arith, keep-map-nil p f xs)

ok-injective : {A : Type 0} {a b : A} → ok a ≡ ok b → a ≡ b
ok-injective h = cc

append-eq-nil : {A : Type 0} (xs ys : List A) → xs ++ ys ≡ [] → (xs ≡ []) × (ys ≡ [])
append-eq-nil [] ys h = (refl, h)
append-eq-nil (x ∷ xs) ys h = cc

module _ {W : Type 0} (api : Api W) (kind id : Text) where
  node_guests-Cleared :
      (n : NodeLine) (r : Run W)
      → (node_guests api kind id n r).0 ≡ ok []
      → Cleared kind id (node_guests api kind id n r).1.trace n
  unfolding node_guests
  node_guests-Cleared n r h node e o = go (api.node_vms node r.world).0 refl
    where
      go :
          (a : Answer (List NodeVm))
          → (api.node_vms node r.world).0 ≡ a
          → (vms : List NodeVm) × In (listed node (ok vms)) (node_guests api kind id n r).1.trace
            × (any (λ v. tagged kind id v.tags) vms ≡ false)
      go (ok vms) ea = (
        vms,
        ground arith,
        map-keep-nil (λ v. tagged kind id v.tags) (at_node node) vms (ground arith),
      )
      go (fault x) ea = absurd (ground arith)

  node_guests-In : (x : Event) (n : NodeLine) → Keeps (In x) (node_guests api kind id n)
  unfolding node_guests
  node_guests-In x n r h = ground arith

  live_guests-In : (x : Event) (ns : List NodeLine) → Keeps (In x) (live_guests api kind id ns)
  unfolding live_guests
  live_guests-In x [] = λ r h. h
  live_guests-In x (n ∷ ns) =
      Keeps-bind (In x) (node_guests api kind id n) _ (node_guests-In x n) λ here.
        Keeps-bind (In x) (live_guests api kind id ns) _ (live_guests-In x ns) (λ rest r h. h)

  live_guests-cons :
      (n : NodeLine) (ns : List NodeLine) (r : Run W)
      → (live_guests api kind id (n ∷ ns) r).0 ≡ ok []
      → let r' = (node_guests api kind id n r).1 in
        ((node_guests api kind id n r).0 ≡ ok [])
        × ((live_guests api kind id ns r').0 ≡ ok [])
        × ((live_guests api kind id (n ∷ ns) r).1 ≡ (live_guests api kind id ns r').1)
  unfolding live_guests
  live_guests-cons n ns r h =
      let (here, e, h', s) = >>=-eq-ok (node_guests api kind id n) _ r h in
      let (rest, e', h'', s') =
        >>=-eq-ok (live_guests api kind id ns) (λ rest. pure (here ++ rest))
          (node_guests api kind id n r).1 h' in
      let (none_here, none_there) = append-eq-nil here rest (ok-injective h'') in
      (e ∙ ap ok none_here, e' ∙ ap ok none_there, ap (λ x. x.1) (s ∙ s'))

  live_guests-Cleared :
      (ns : List NodeLine) (r : Run W)
      → (live_guests api kind id ns r).0 ≡ ok []
      → All (Cleared kind id (live_guests api kind id ns r).1.trace) ns
  live_guests-Cleared [] r h = tt
  live_guests-Cleared (n ∷ ns) r h =
      let (here, rest, same) = live_guests-cons n ns r h in
      subst (λ (q : Run W). Cleared kind id q.trace n × All (Cleared kind id q.trace) ns) (sym same)
        (
          λ node e o.
              let (vms, seen, clear) = node_guests-Cleared n r here node e o in
              (
                vms,
                live_guests-In (listed node (ok vms)) ns (node_guests api kind id n r).1 seen,
                clear,
              ),
          live_guests-Cleared ns (node_guests api kind id n r).1 rest,
        )

  from_listing :
      (found : List Guest) (q : Run W)
      → let m =
          (if is_empty found then (ask api.nodes >>= live_guests api kind id) else pure found) in
        (m q).0 ≡ ok []
        → (found ≡ [])
          × ((ns : List NodeLine) × ((api.nodes q.world).0 ≡ ok ns)
              × All (Cleared kind id (m q).1.trace) ns)
  from_listing [] q h =
      let (ns, e, h', s) = >>=-eq-ok (ask api.nodes) (live_guests api kind id) q h in
      (
        refl,
        (
          ns,
          e,
          subst (λ (p : Answer (List Guest) × Run W). All (Cleared kind id p.1.trace) ns) (sym s)
              (live_guests-Cleared ns (ask api.nodes q).1 h'),
        ),
      )
  from_listing (g ∷ gs) q h = cc

  -- When the answer is that nothing carries the claim, the cluster's listing had no such guest, and
  -- each line of `/nodes` that is online and has a name was listed in this run, with no such guest.
  pub claimed_guests-nil :
      (r : Run W) (n : NodeLine) (ns : List NodeLine) (node : Text)
      → (claimed_guests api kind id r).0 ≡ ok []
      → (api.nodes (api.cluster_vms r.world).1).0 ≡ ok ns
      → In n ns
      → n.name ≡ some node
      → online n ≡ true
      → ((vms : List ClusterVm) × ((api.cluster_vms r.world).0 ≡ ok vms)
          × (any (λ (v : ClusterVm). tagged kind id v.guest.tags) vms ≡ false))
        × ((vms : List NodeVm) × In (listed node (ok vms)) (claimed_guests api kind id r).1.trace
            × (any (λ (v : NodeVm). tagged kind id v.tags) vms ≡ false))
  unfolding claimed_guests
  claimed_guests-nil r n ns node h asked there name up =
      let (vms, e, h', s) = >>=-eq-ok (ask api.cluster_vms) _ r h in
      let found = keep (λ (g : Guest). tagged kind id g.tags) (map to_guest vms) in
      let (nothing, (ms, asked', clear)) = from_listing found (ask api.cluster_vms r).1 h' in
      let cleared =
        subst (λ (p : Answer (List Guest) × Run W). All (Cleared kind id p.1.trace) ms) (sym s)
          clear in
      (
        (vms, e, keep-map-nil (λ (g : Guest). tagged kind id g.tags) to_guest vms nothing),
        In-All (Cleared kind id (claimed_guests api kind id r).1.trace) ns n
            (subst (All (Cleared kind id _)) (ok-injective (sym asked' ∙ asked)) cleared) there node
            name up,
      )
