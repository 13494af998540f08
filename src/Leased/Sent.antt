-- ===== src/Leased/Sent.antt =====
-- What a stop of a leased machine may send, in crates/onv-driver-proxmox/src/leased.rs.
use omnuv_provider.Base.{
  ℕ, ◌≡◌, refl, Bool, true, false, List, [], ◌∷◌, some, arith, is_empty, keep, map,
}
use omnuv_provider.Base.Text.{Text, same}
use omnuv_provider.Names.{tag_instance}
use omnuv_provider.Hypervisor.{
  Answer, ok, fault, Event, read_config, read_status, ask, listed, announced, sent_stop,
  sent_destroy, sent_remove, Config, Guest, NodeLine, Api, Run,
}
use omnuv_provider.Hypervisor.Keeps.{Keeps, Keeps-bind, Keeps-if}
use omnuv_provider.Leased.{
  tagged, to_guest, Stops, has_stamp, stopped_word, node_guests, live_guests, claimed_guests,
  live_status, send_stop, stop_stamped, stop_guest, stop_guests, stop_found, stop_leased,
}

-- A property of configurations, such as to have a machine's whole stamp.
abbrev pub Stamps : Type 1
Stamps = Config → Type 0

-- The configuration just read has the property.
abbrev Stamped : Stamps → Text → ℕ → List Event → Type 0
Stamped P n v (read_config m w (ok c) ∷ rest) = (m ≡ n) × (w ≡ v) × P c
Stamped P n v _ = ⊥

-- Just before: its node was asked and did not say `stopped`, right after that reading.
abbrev Asked : Stamps → Text → ℕ → List Event → Type 0
Asked P n v (announced m w ∷ rest) = Asked P n v rest
Asked P n v (read_status m w (ok (some s)) ∷ rest) =
    (m ≡ n) × (w ≡ v) × (same s stopped_word ≡ false) × Stamped P n v rest
Asked P n v _ = ⊥

-- Every stop of the trace was asked for so, and nothing was destroyed or removed.
abbrev pub Licensed : Stamps → List Event → Type 0
Licensed P [] = Unit {0}
Licensed P (sent_stop n v ∷ rest) = Asked P n v rest × Licensed P rest
Licensed P (sent_destroy n v ∷ rest) = ⊥
Licensed P (sent_remove n v ∷ rest) = ⊥
Licensed P (read_config n v a ∷ rest) = Licensed P rest
Licensed P (read_status n v a ∷ rest) = Licensed P rest
Licensed P (listed n a ∷ rest) = Licensed P rest
Licensed P (announced n v ∷ rest) = Licensed P rest

module _ {W : Type 0} (api : Api W) (say : Bool) (id : Text) (P : Stamps)
    (stamped : (c : Config) → has_stamp tag_instance id c ≡ true → P c) where
  node_guests-Licensed :
      (kind : Text) (n : NodeLine) (r : Run W)
      → Licensed P r.trace
      → Licensed P (node_guests api kind id n r).1.trace
  unfolding node_guests
  node_guests-Licensed kind n r h = ground arith

  live_guests-Licensed :
      (kind : Text) (ns : List NodeLine) → Keeps (Licensed P) (live_guests api kind id ns)
  unfolding live_guests
  live_guests-Licensed kind [] = λ r h. h
  live_guests-Licensed kind (n ∷ ns) =
      Keeps-bind (Licensed P) (node_guests api kind id n) _ (node_guests-Licensed kind n) λ here.
        Keeps-bind (Licensed P) (live_guests api kind id ns) _ (live_guests-Licensed kind ns)
          (λ rest r h. h)

  pub claimed_guests-Licensed : (kind : Text) → Keeps (Licensed P) (claimed_guests api kind id)
  unfolding claimed_guests
  claimed_guests-Licensed kind =
      Keeps-bind (Licensed P) (ask api.cluster_vms) _ (λ r h. h)
        λ vms.
          Keeps-if (Licensed P)
            (is_empty (keep (λ (g : Guest). tagged kind id g.tags) (map to_guest vms))) _ _
            (Keeps-bind (Licensed P) (ask api.nodes) _ (λ r h. h) (live_guests-Licensed kind))
            (λ r h. h)

  stop_guest-Licensed :
      (g : Guest) (out : Stops) (r : Run W)
      → Licensed P r.trace
      → Licensed P (stop_guest api say id g out r).2.trace
  unfolding stop_guest stop_stamped send_stop live_status
  stop_guest-Licensed g out r h = go (api.config g.node g.vmid r.world).0 refl
    where
      go :
          (a : Answer Config)
          → (api.config g.node g.vmid r.world).0 ≡ a
          → Licensed P (stop_guest api say id g out r).2.trace
      go (ok c) e = ground (arith, stamped c)
      go (fault x) e = ground arith

  stop_guests-Licensed :
      (gs : List Guest) (out : Stops) (r : Run W)
      → Licensed P r.trace
      → Licensed P (stop_guests api say id gs out r).2.trace
  unfolding stop_guests
  stop_guests-Licensed [] out r h = h
  stop_guests-Licensed (g ∷ gs) out r h =
      let next = stop_guest api say id g out r in
      ground (arith, stop_guest-Licensed g out r h, stop_guests-Licensed gs next.1 next.2)

  stop_found-Licensed :
      (out : Stops) (found : Answer (List Guest)) (r : Run W)
      → Licensed P r.trace
      → Licensed P (stop_found api say id out found r).2.trace
  unfolding stop_found
  stop_found-Licensed out (fault e) r h = h
  stop_found-Licensed out (ok gs) r h = stop_guests-Licensed gs out r h

  -- Over any hypervisor, a stop is sent only to a guest whose configuration, just read, has the
  -- machine's whole stamp (so whatever that stamp implies), and whose node, asked since, gave a power
  -- state that is not `stopped`; and nothing is destroyed or removed. A trace that was so stays so,
  -- whether the call ends well or fails half way.
  pub stop_leased-Licensed :
      (out : Stops) (r : Run W)
      → Licensed P r.trace
      → Licensed P (stop_leased api say id out r).2.trace
  unfolding stop_leased
  stop_leased-Licensed out r h =
      let (found, r') = claimed_guests api tag_instance id r in
      stop_found-Licensed out found r' (claimed_guests-Licensed tag_instance r h)
