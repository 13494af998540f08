-- ===== src/Leased.antt =====
-- crates/onv-driver-proxmox/src/leased.rs: which guests carry a machine's claim, and the stop of a
-- leased machine. The agent's lease task and the host timer both run this.
pub mod Sent
pub mod Tally
pub mod Claims
use omnuv_provider.Base.{
  ℕ, suc, ◌+◌, Bool, true, false, ◌&&◌, List, [], ◌∷◌, ◌++◌, map, Option, none, some, if◌then◌else◌,
  any, keep, is_empty,
}
use omnuv_provider.Base.Text.{Text, codes, same, split, first_line}
use omnuv_provider.Names.{tag_instance, stamped, semicolon, carries_key}
use omnuv_provider.Hypervisor.{
  Answer, ok, fault, Fault, announced, get_node_vms, no_power_state, unlisted, Guest, ClusterVm,
  NodeLine, NodeVm, Config, field, Api, Run, Call, pure, fail, ◌>>=◌, ◌>>◌, ask, or_fault,
  get_config, get_status, post_stop,
}

-- The claim's kind and the id's key, both as whole tokens.
unfoldable pub tagged : Text → Text → Option Text → Bool
tagged kind id none = false
tagged kind id (some t) = any (same kind) (split semicolon t) && carries_key t id

abbrev pub online : NodeLine → Bool
online n = elim n.status [ none ↦ false | some s ↦ same s (codes "online") ]

abbrev pub at_node : Text → NodeVm → Guest
at_node node v = record { node = node; vmid = v.vmid; tags = v.tags }

abbrev pub to_guest : ClusterVm → Guest
to_guest v = v.guest

-- The first line of a configuration's description.
unfoldable pub stamp_line : Config → Option Text
unfolding field
stamp_line c = elim (field (codes "description") c) [ none ↦ none | some d ↦ first_line d ]

module _ {W : Type 0} (api : Api W) where
  -- One node asked for the guests carrying the claim: one that is online and has a name.
  unfoldable pub node_guests : Text → Text → NodeLine → Call W (List Guest)
  node_guests kind id n = elim n.name [
    | none ↦ pure []
    | some node ↦
        let asked : Call W (List Guest) = (do
          vms ← or_fault (unlisted node) (get_node_vms api node)
          pure (map (at_node node) (keep (λ v. tagged kind id v.tags) vms))) in
        if online n then asked else pure []
  ]

  -- The nodes asked in turn; one that cannot be listed ends it.
  unfoldable pub live_guests : Text → Text → List NodeLine → Call W (List Guest)
  live_guests kind id [] = pure []
  live_guests kind id (n ∷ ns) = do
    here ← node_guests kind id n
    rest ← live_guests kind id ns
    pure (here ++ rest)

  -- Every guest carrying the claim; none in the cluster's listing is confirmed on every node.
  unfoldable pub claimed_guests : Text → Text → Call W (List Guest)
  claimed_guests kind id = do
    vms ← ask api.cluster_vms
    let found = keep (λ (g : Guest). tagged kind id g.tags) (map to_guest vms)
    if is_empty found then (ask api.nodes >>= live_guests kind id) else pure found

  unfoldable pub live_status : Text → ℕ → Call W Text
  live_status node vmid = do
    status ← get_status api node vmid
    elim status [ none ↦ fail (no_power_state vmid) | some s ↦ pure s ]

-- What one stop of a leased machine did, guest by guest.
pub record Stops : Type 0 where
  pub stopped : List Guest
  pub refused : List Guest
  pub claimed : ℕ

abbrev pub no_stops : Stops
no_stops = record { stopped = []; refused = []; claimed = 0 }

abbrev pub has_stamp : Text → Text → Config → Bool
has_stamp kind id c = elim (stamp_line c) [ none ↦ false | some l ↦ same l (stamped kind id) ]

abbrev pub stopped_word : Text
stopped_word = codes "stopped"

-- What was done is kept beside the outcome, so that a failure does not lose it.
abbrev pub Outcome : Type 0 → Type 0
Outcome W = Answer (Unit {0}) × Stops × Run W

abbrev announce : {W : Type 0} → Bool → Guest → Run W → Run W
announce false g r = r
announce true g r = record r { trace = announced g.node g.vmid ∷ r.trace }

module _ {W : Type 0} (api : Api W) (say : Bool) where
  unfoldable pub send_stop : Guest → Stops → Run W → Outcome W
  send_stop g out r =
      let sent : Call W (Unit {0}) =
        post_stop api g.node g.vmid >>= λ upid. ask (api.wait g.node upid) in
      let (a, r') = sent (announce say g r) in
      elim a [
        | fault e ↦ (fault e, out, r')
        | ok _ ↦ (ok tt, record out { stopped = out.stopped ++ g ∷ [] }, r')
      ]

  unfoldable pub stop_stamped : Guest → Stops → Run W → Outcome W
  stop_stamped g out r =
      let (a, r') = live_status api g.node g.vmid r in
      elim a [
        | fault e ↦ (fault e, out, r')
        | ok s ↦ if same s stopped_word then (ok tt, out, r') else send_stop g out r'
      ]

  unfoldable pub stop_guest : Text → Guest → Stops → Run W → Outcome W
  stop_guest id g out r =
      let (a, r') = get_config api g.node g.vmid r in
      elim a [
        | fault e ↦ (fault e, out, r')
        | ok c ↦
            if has_stamp tag_instance id c
            then stop_stamped g (record out { claimed = suc out.claimed }) r'
            else (ok tt, record out { refused = out.refused ++ g ∷ [] }, r')
      ]

  unfoldable pub stop_guests : Text → List Guest → Stops → Run W → Outcome W
  stop_guests id [] out r = (ok tt, out, r)
  stop_guests id (g ∷ gs) out r =
      let (a, out', r') = stop_guest id g out r in
      elim a [ fault e ↦ (fault e, out', r') | ok _ ↦ stop_guests id gs out' r' ]

  unfoldable pub stop_found : Text → Stops → Answer (List Guest) → Run W → Outcome W
  stop_found id out (fault e) r = (fault e, out, r)
  stop_found id out (ok gs) r = stop_guests id gs out r

  unfoldable pub stop_leased : Text → Stops → Run W → Outcome W
  stop_leased id out r =
      let (found, r') = claimed_guests api tag_instance id r in stop_found id out found r'
