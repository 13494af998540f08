-- ===== src/Leftover.antt =====
-- src/teardown.rs, `volume_left`: whether a volume a destroyed machine's configuration named is still in
-- its storage, after asking it to go once more if it is nobody's.
pub mod Spared
use omnuv_provider.Base.{
  ℕ, Bool, true, false, not, List, [], ◌∷◌, Option, none, some, if◌then◌else◌, any, ◌==◌,
}
use omnuv_provider.Base.Text.{Text, codes, same, split_once}
use omnuv_provider.Hypervisor.{
  Answer, ok, fault, ClusterVm, Config, Api, Call, pure, ◌>>=◌, ◌>>◌, ask, attempt, get_config,
  delete_volume,
}
use omnuv_provider.Volumes.{volume_vmid, named_volids}

-- `x["…"].as_str() == Some(t)`
abbrev pub says : Text → Option Text → Bool
says t none = false
says t (some s) = same s t

-- The number the volume's name carries is some guest's now.
abbrev pub is_reused : Text → List ClusterVm → Bool
is_reused volid vms = elim (volume_vmid volid) [
  | none ↦ false
  | some n ↦ any (λ (v : ClusterVm). v.guest.vmid == n) vms
]

module _ {W : Type 0} (api : Api W) where
  abbrev pub guest_config : ClusterVm → Call W Config
  guest_config v =
      if says (codes "lxc") v.kind
      then ask (api.container_config v.guest.node v.guest.vmid)
      else get_config api v.guest.node v.guest.vmid

  abbrev pub after_reading : Text → Call W Bool → Answer Config → Call W Bool
  after_reading volid rest (fault e) = pure true
  after_reading volid rest (ok c) =
      if any (λ n. same n volid) (named_volids c) then pure true else rest

  -- Whether some guest's configuration names the volume, or cannot be read.
  unfoldable pub is_named : Text → List ClusterVm → Call W Bool
  is_named volid [] = pure false
  is_named volid (v ∷ vs) =
      let rest = is_named volid vs in attempt (guest_config v) >>= after_reading volid rest

  abbrev pub wait_for : Text → Answer (Option Text) → Call W (Answer (Unit {0}))
  wait_for node (fault e) = pure (ok tt)
  wait_for node (ok none) = pure (ok tt)
  wait_for node (ok (some upid)) = attempt (ask (api.wait node upid))

  -- The removal, its task waited for; a failure of either only shows in the listing after it.
  unfoldable pub remove_volume : Text → Text → Text → Call W Bool
  remove_volume node storage volid = do
    asked ← attempt (delete_volume api node volid)
    wait_for node asked
    again ← ask (api.content node storage)
    pure (any (says volid) again)

  unfoldable pub volume_there : Text → Text → Text → List ClusterVm → Call W Bool
  volume_there node storage volid vms =
      if is_reused volid vms
      then pure true
      else (is_named volid vms >>= λ named.
          if named then pure true else remove_volume node storage volid)

  unfoldable pub volume_left : Text → Text → Call W Bool
  volume_left node volid = elim (split_once b':' volid) [
    | none ↦ pure false
    | some (storage, name) ↦ ask (api.content node storage) >>= λ listed.
        if any (says volid) listed
        then (ask api.cluster_vms >>= volume_there node storage volid)
        else pure false
  ]
