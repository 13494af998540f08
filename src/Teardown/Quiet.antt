-- ===== src/Teardown/Quiet.antt =====
-- The calls of src/teardown.rs that only look, and the removal of a volume: what they keep of the run,
-- whatever the hypervisor answers.
use omnuv_provider.Base.{
  ℕ, ◌≡◌, refl, Bool, List, [], ◌∷◌, Option, none, some, any, is_empty, keep, map,
}
use omnuv_provider.Base.Text.{Text, codes, same, split_once}
use omnuv_provider.Hypervisor.{
  Answer, ok, fault, Event, read_config, listed, sent_remove, ClusterVm, NodeVm, NodeLine, Config,
  Guest, Api, Call, ask, attempt, pure, get_config, get_node_vms, delete_volume, or_fault, ◌>>=◌,
  unlisted,
}
use omnuv_provider.Hypervisor.Keeps.{Keeps, Keeps-bind, Keeps-if, Keeps-noted}
use omnuv_provider.Leased.{
  tagged, to_guest, online, has_stamp, node_guests, live_guests, claimed_guests,
}
use omnuv_provider.Teardown.{licence_one, licence_found, licence, stamped_among, stamped_guests}
use omnuv_provider.Leftover.{
  says, is_reused, guest_config, after_reading, wait_for, is_named, remove_volume, volume_there,
  volume_left,
}
use omnuv_provider.Volumes.{named_volids}
use omnuv_provider.Tombs.{
  with_look, Blocker, Tombstone, look_for, on_its_node, its_volumes, is_online, examine,
}

module _ {W : Type 0} (api : Api W) (P : List Event → Type 0)
    (kept : (n : Text) (v : ℕ) (a : Answer Config) (t : List Event)
      → P t
      → P (read_config n v a ∷ t))
    (kept_listing : (n : Text) (a : Answer (List NodeVm)) (t : List Event)
      → P t
      → P (listed n a ∷ t)) where
  get_config-Keeps : (n : Text) (v : ℕ) → Keeps P (get_config api n v)
  get_config-Keeps n v = Keeps-noted P (read_config n v) (api.config n v) (kept n v)

  module _ (kind id : Text) where
    node_guests-Keeps : (n : NodeLine) → Keeps P (node_guests api kind id n)
    unfolding node_guests
    node_guests-Keeps n r h = go n.name refl
      where
        go : (name : Option Text) → n.name ≡ name → P (node_guests api kind id n r).1.trace
        go none e = rw (e, node_guests) h
        go (some node) e =
            rw (e, node_guests)
              (Keeps-if P (online n) _ _
                (Keeps-bind P (or_fault (unlisted node) (get_node_vms api node)) _
                  (λ q k. kept_listing node _ _ k) (λ vms q k. k))
                (λ q k. k) r h)

    live_guests-Keeps : (ns : List NodeLine) → Keeps P (live_guests api kind id ns)
    unfolding live_guests
    live_guests-Keeps [] = λ r h. h
    live_guests-Keeps (n ∷ ns) =
        Keeps-bind P (node_guests api kind id n) _ (node_guests-Keeps n)
          λ here. Keeps-bind P (live_guests api kind id ns) _ (live_guests-Keeps ns) (λ rest r h. h)

    pub claimed_guests-Keeps : Keeps P (claimed_guests api kind id)
    unfolding claimed_guests
    claimed_guests-Keeps =
        Keeps-bind P (ask api.cluster_vms) _ (λ r h. h)
          λ vms.
            Keeps-if P (is_empty (keep (λ (g : Guest). tagged kind id g.tags) (map to_guest vms))) _
              _ (Keeps-bind P (ask api.nodes) _ (λ r h. h) live_guests-Keeps) (λ r h. h)

    licence_one-Keeps :
        (live_tags : List Text) (g : Guest) → Keeps P (licence_one api kind id live_tags g)
    unfolding licence_one
    licence_one-Keeps live_tags g =
        Keeps-if P _ _ _ (λ r h. h)
          (Keeps-bind P (get_config api g.node g.vmid) _ (get_config-Keeps g.node g.vmid)
            λ c. Keeps-if P (has_stamp kind id c) _ _ (λ r h. h) (λ r h. h))

    licence_found-Keeps :
        (live_tags : List Text) (gs : List Guest) → Keeps P (licence_found api kind id live_tags gs)
    unfolding licence_found
    licence_found-Keeps live_tags [] = λ r h. h
    licence_found-Keeps live_tags (g ∷ []) = licence_one-Keeps live_tags g
    licence_found-Keeps live_tags (g ∷ k ∷ more) = λ r h. h

    pub licence-Keeps : (live_tags : List Text) → Keeps P (licence api kind id live_tags)
    unfolding licence
    licence-Keeps live_tags =
        Keeps-bind P (claimed_guests api kind id) _ claimed_guests-Keeps
          (licence_found-Keeps live_tags)

    stamped_among-Keeps : (vs : List ClusterVm) → Keeps P (stamped_among api kind id vs)
    unfolding stamped_among
    stamped_among-Keeps [] = λ r h. h
    stamped_among-Keeps (v ∷ vs) =
        Keeps-if P _ _ _
          (Keeps-bind P (get_config api v.guest.node v.guest.vmid) _
            (get_config-Keeps v.guest.node v.guest.vmid)
            λ c.
              Keeps-bind P (stamped_among api kind id vs) _ (stamped_among-Keeps vs) (λ gs r h. h))
          (stamped_among-Keeps vs)

    stamped_guests-Keeps : Keeps P (stamped_guests api kind id)
    unfolding stamped_guests
    stamped_guests-Keeps = Keeps-bind P (ask api.cluster_vms) _ (λ r h. h) stamped_among-Keeps

  module _ (kept_remove : (n v : Text) (t : List Event) → P t → P (sent_remove n v ∷ t)) where
    attempt-Keeps : {A : Type 0} (m : Call W A) → Keeps P m → Keeps P (attempt m)
    attempt-Keeps m k = k

    reading_Keeps :
        (volid : Text) (rest : Call W Bool)
        → Keeps P rest
        → (a : Answer Config) → Keeps P (after_reading api volid rest a)
    reading_Keeps volid rest k (fault e) = λ r h. h
    reading_Keeps volid rest k (ok c) =
        Keeps-if P (any (λ n. same n volid) (named_volids c)) _ _ (λ r h. h) k

    is_named-Keeps : (volid : Text) (vs : List ClusterVm) → Keeps P (is_named api volid vs)
    unfolding is_named
    is_named-Keeps volid [] = λ r h. h
    is_named-Keeps volid (v ∷ vs) =
        Keeps-bind P {B = Bool} (attempt (guest_config api v))
          (after_reading api volid (is_named api volid vs))
          (Keeps-if P (says (codes "lxc") v.kind) _ _ (λ r h. h)
            (get_config-Keeps v.guest.node v.guest.vmid))
          (reading_Keeps volid (is_named api volid vs) (is_named-Keeps volid vs))

    wait_for-Keeps : (node : Text) (a : Answer (Option Text)) → Keeps P (wait_for api node a)
    wait_for-Keeps node (fault e) = λ r h. h
    wait_for-Keeps node (ok none) = λ r h. h
    wait_for-Keeps node (ok (some upid)) = λ r h. h

    remove_volume-Keeps :
        (node storage volid : Text) → Keeps P (remove_volume api node storage volid)
    unfolding remove_volume
    remove_volume-Keeps node storage volid =
        let listing : Call W Bool =
          ask (api.content node storage) >>= λ again. pure (any (says volid) again) in
        Keeps-bind P {B = Bool} (attempt (delete_volume api node volid))
          (λ a. wait_for api node a >>= λ u. listing) (λ r h. kept_remove node volid r.trace h)
          λ a.
            Keeps-bind P {B = Bool} (wait_for api node a) (λ u. listing) (wait_for-Keeps node a)
              (λ u.
                Keeps-bind P {B = Bool} (ask (api.content node storage))
                  (λ again. pure (any (says volid) again)) (λ r h. h) (λ l r h. h))

    volume_there-Keeps :
        (node storage volid : Text) (vms : List ClusterVm)
        → Keeps P (volume_there api node storage volid vms)
    unfolding volume_there
    volume_there-Keeps node storage volid vms =
        Keeps-if P (is_reused volid vms) _ _ (λ r h. h)
          (Keeps-bind P (is_named api volid vms) _ (is_named-Keeps volid vms)
            λ named. Keeps-if P named _ _ (λ r h. h) (remove_volume-Keeps node storage volid))

    pub volume_left-Keeps : (node volid : Text) → Keeps P (volume_left api node volid)
    unfolding volume_left
    volume_left-Keeps node volid r h = go (split_once b':' volid) refl
      where
        go :
            (o : Option (Text × Text))
            → split_once b':' volid ≡ o
            → P (volume_left api node volid r).1.trace
        go none e = rw (e, volume_left) h
        go (some (storage, name)) e =
            rw (e, volume_left)
              (Keeps-bind P (ask (api.content node storage)) _ (λ q k. k)
                (λ found.
                  Keeps-if P (any (says volid) found) _ _
                    (Keeps-bind P (ask api.cluster_vms) _ (λ q k. k)
                      (volume_there-Keeps node storage volid))
                    (λ q k. k))
                r h)

    look_for-Keeps : (node : Text) (vs : List Text) → Keeps P (look_for api node vs)
    unfolding look_for
    look_for-Keeps node [] = λ r h. h
    look_for-Keeps node (v ∷ vs) =
        Keeps-bind P {B = List Blocker × List Text} (attempt (volume_left api node v))
          (λ a. look_for api node vs >>= λ found. pure (with_look v a found))
          (volume_left-Keeps node v)
          λ a.
            Keeps-bind P {B = List Blocker × List Text} (look_for api node vs)
              (λ found. pure (with_look v a found)) (look_for-Keeps node vs) (λ found r h. h)

    on_its_node-Keeps :
        (node : Text) (vmid : ℕ) (volids : List Text) (nodes : List NodeLine)
        → Keeps P (on_its_node api node vmid volids nodes)
    unfolding on_its_node
    on_its_node-Keeps node vmid volids nodes =
        Keeps-if P (is_online node nodes) _ _
          (Keeps-bind P (ask (api.active_tasks node)) _ (λ r h. h)
            λ active.
              Keeps-bind P (ask api.ha_resources) _ (λ r h. h)
                λ ha.
                  Keeps-bind P (look_for api node volids) _ (look_for-Keeps node volids)
                    (λ found r h. h))
          (λ r h. h)

    its_volumes-Keeps : (t : Tombstone) (nodes : List NodeLine) → Keeps P (its_volumes api t nodes)
    unfolding its_volumes
    its_volumes-Keeps t nodes r h = go t.node t.vmid refl refl
      where
        go :
            (node : Option Text) (vmid : Option ℕ)
            → t.node ≡ node
            → t.vmid ≡ vmid
            → P (its_volumes api t nodes r).1.trace
        go none vmid e f = rw (e, its_volumes) h
        go (some node) none e f = rw (e, f, its_volumes) h
        go (some node) (some vmid) e f =
            rw (e, f, its_volumes) (on_its_node-Keeps node vmid t.volids nodes r h)

    -- What a pass looks at, and the removals of volumes it asks for, keep whatever a reading of a
    -- configuration, a listing and such a removal keep.
    pub examine-Keeps : (t : Tombstone) → Keeps P (examine api t)
    unfolding examine
    examine-Keeps t =
        Keeps-bind P (claimed_guests api t.claim t.id) _ (claimed_guests-Keeps t.claim t.id) λ left.
          Keeps-bind P (stamped_guests api t.claim t.id) _ (stamped_guests-Keeps t.claim t.id)
            λ stamped.
              Keeps-bind P (ask api.nodes) _ (λ r h. h)
                λ nodes.
                  Keeps-bind P (its_volumes api t nodes) _ (its_volumes-Keeps t nodes)
                    (λ found r h. h)
