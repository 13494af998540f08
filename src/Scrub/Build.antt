-- ===== src/Scrub/Build.antt =====
-- src/scrub.rs: the guest of a scrub, built and started once `start_scrub` has found a node and a free card,
-- and `abandon_clone` of src/instance.rs, which takes away one that could not be finished. The calls that are
-- not in `Api`, the file of pending clones and the wait for the clone's task are parameters.
use omnuv_provider.Base.{ℕ, suc, List, [], ◌∷◌, ◌++◌, Option, none, some, if◌then◌else◌, is_some}
use omnuv_provider.Base.Text.{Text, codes, strip_prefix}
use omnuv_provider.Base.Decimal.{print}
use omnuv_provider.Names.{tag_scrub, pool, gpu_mapping, scrub_name, description, tags}
use omnuv_provider.Hypervisor.{
  Answer, ok, fault, not_started, Config, Api, Call, pure, fail, ◌>>=◌, ◌>>◌, ask, attempt,
  get_config, post_stop, delete_guest,
}
use omnuv_provider.Leased.{has_stamp}
use omnuv_provider.Volumes.{disk_volids}
use omnuv_provider.Leftover.{volume_left}
use omnuv_provider.Gate.{Readings, Start, sent, not_ready, unread, start_when_ready}
use omnuv_provider.Scrub.{ℤ, pos, negsuc, Wanted}

-- What was seen of the clone's task.
pub data CloneEnd : Type 0 where
  ended broken not_seen : CloneEnd

pub data Stage : Type 0 where
  cloning abandoned : Stage

-- The record of a clone that was asked for and is not yet done with.
pub record PendingClone : Type 0 where
  pub vmid : ℕ
  pub id : Text
  pub node : Text
  pub upid : Option Text
  pub claim : Text
  pub stage : Stage
  pub volids : List Text

abbrev pub pending : Wanted → ℕ → Option Text → Stage → List Text → PendingClone
pending w vmid upid stage volids = record {
  vmid = vmid;
  id = w.id;
  node = w.node;
  upid = upid;
  claim = tag_scrub;
  stage = stage;
  volids = volids;
}

pub record Builder (W : Type 0) : Type 0 where
  pub next_id : W → Answer ℕ × W
  pub write_pending : PendingClone → W → Answer (Unit {0}) × W
  pub remove_pending : ℕ → W → W
  pub clone : Text → ℕ → List (Text × Text) → W → Answer Text × W
  pub task_end : Text → Text → W → CloneEnd × W
  -- a configuration's post: the text it answers, if it answers one
  pub set_config : Text → ℕ → List (Text × Text) → W → Answer (Option Text) × W
  -- what the looks of the start gate read, and the world after them
  pub looks : Text → ℕ → W → (ℕ → Readings) × W
  pub start : Text → ℕ → W → Answer Text × W
  pub gate_looks : ℕ
  pub storage : Text
  pub environment : Option Text

unfoldable pub print_int : ℤ → Text
print_int (pos n) = print n
print_int (negsuc n) = codes "-" ++ print (suc n)

unfoldable pub described : Wanted → Text
described w = description tag_scrub w.id ++ (10 ∷ codes "attempt " ++ print_int w.attempt)

module _ {W : Type 0} (api : Api W) (b : Builder W) where
  abbrev pub quietly : (W → W) → Call W (Unit {0})
  quietly f r = (ok tt, record r { world = f r.world })

  -- An answer that names a task is waited for.
  unfoldable pub settle : Text → Option Text → Call W (Unit {0})
  settle node none = pure tt
  settle node (some upid) =
      if is_some (strip_prefix (codes "UPID:") upid) then ask (api.wait node upid) else pure tt

  -- The start, through the gate.
  unfoldable pub on_start : Text → ℕ → Start → Call W (Unit {0})
  on_start node vmid (sent k) = ask (b.start node vmid) >>= λ upid. ask (api.wait node upid)
  on_start node vmid (not_ready bs) = fail (not_started node)
  on_start node vmid unread = fail (not_started node)

  unfoldable pub start_guest : Text → ℕ → Call W (Unit {0})
  start_guest node vmid r =
      let (look, w) = b.looks node vmid r.world in
      on_start node vmid (start_when_ready vmid look b.gate_looks) (record r { world = w })

  -- Claimed by its tags, given the card and no NIC, its record done with, and started.
  unfoldable pub configure : Wanted → ℕ → Call W (Unit {0})
  configure w vmid = do
    tagged ← ask (b.set_config w.node vmid ((codes "tags", tags tag_scrub w.id b.environment) ∷ []))
    settle w.node tagged
    set ← ask (
        b.set_config w.node vmid (
          (codes "cores", print 2)
          ∷ (codes "memory", print 4096)
          ∷ (codes "cpu", codes "host")
          ∷ (codes "machine", codes "q35")
          ∷ (codes "agent", codes "enabled=1")
          ∷ (codes "delete", codes "net0")
          ∷ (codes "hostpci0", codes "mapping=" ++ (gpu_mapping w.card ++ codes ",pcie=1,rombar=0"))
          ∷ (codes "description", described w)
          ∷ []))
    settle w.node set
    quietly (b.remove_pending vmid)
    start_guest w.node vmid

  unfoldable pub volumes_left : Text → List Text → Call W (List Text)
  volumes_left node [] = pure []
  volumes_left node (v ∷ vs) = do
    there ← volume_left api node v
    rest ← volumes_left node vs
    pure (if there then v ∷ rest else rest)

  abbrev pub on_left : ℕ → Answer (List Text) → Call W (Unit {0})
  on_left vmid (ok []) = quietly (b.remove_pending vmid)
  on_left vmid (ok (v ∷ vs)) = pure tt
  on_left vmid (fault e) = pure tt

  abbrev pub on_gone : Text → ℕ → List Text → Answer (Unit {0}) → Call W (Unit {0})
  on_gone node vmid volids (ok _) = attempt (volumes_left node volids) >>= on_left vmid
  on_gone node vmid volids (fault e) = pure tt

  unfoldable pub stopping : Text → ℕ → Call W (Unit {0})
  stopping node vmid = post_stop api node vmid >>= λ upid. settle node (some upid)

  unfoldable pub deleting : Text → ℕ → Call W (Unit {0})
  deleting node vmid = delete_guest api node vmid >>= λ upid. ask (api.wait node upid)

  -- Stopped, whatever is answered, and destroyed.
  unfoldable pub take_away : Text → ℕ → List Text → Call W (Unit {0})
  take_away node vmid volids = attempt (stopping node vmid) >>= λ _.
      attempt (deleting node vmid) >>= on_gone node vmid volids

  -- Only the clone that the record names.
  unfoldable pub on_abandoned : Wanted → ℕ → List Text → Answer Config → Call W (Unit {0})
  on_abandoned w vmid volids (fault e) = pure tt
  on_abandoned w vmid volids (ok c) =
      if has_stamp tag_scrub w.id c
      then take_away w.node vmid volids
      else quietly (b.remove_pending vmid)

  unfoldable pub abandon_clone : Wanted → ℕ → Text → List Text → Call W (Unit {0})
  abandon_clone w vmid upid volids =
      attempt (ask (b.write_pending (pending w vmid (some upid) abandoned volids))) >>= λ _.
      attempt (get_config api w.node vmid) >>= on_abandoned w vmid volids

  -- The volumes that the clone's configuration names.
  unfoldable pub noted_volumes : Wanted → ℕ → Text → Answer Config → Call W (List Text)
  noted_volumes w vmid upid (fault e) = pure []
  noted_volumes w vmid upid (ok c) =
      attempt (ask (b.write_pending (pending w vmid (some upid) cloning (disk_volids c)))) >>= λ _.
      pure (disk_volids c)

  unfoldable pub finish : Wanted → ℕ → Text → List Text → Answer (Unit {0}) → Call W (Unit {0})
  finish w vmid upid volids (ok _) = pure tt
  finish w vmid upid volids (fault e) = abandon_clone w vmid upid volids >> fail e

  unfoldable pub on_end : Wanted → ℕ → Text → CloneEnd → Call W (Unit {0})
  on_end w vmid upid ended =
      attempt (get_config api w.node vmid) >>= noted_volumes w vmid upid >>= λ volids.
      attempt (configure w vmid) >>= finish w vmid upid volids
  on_end w vmid upid broken = abandon_clone w vmid upid [] >> fail (not_started w.image)
  on_end w vmid upid not_seen = fail (not_started w.image)

  unfoldable pub await_clone : Wanted → ℕ → Text → Call W (Unit {0})
  await_clone w vmid upid r =
      let (e, w') = b.task_end w.node upid r.world in on_end w vmid upid e (record r { world = w' })

  -- The clone's record is written before it is asked for, and with its task once it is.
  unfoldable pub build : Wanted → ℕ → Call W (Unit {0})
  build w template = do
    vmid ← ask b.next_id
    ask (b.write_pending (pending w vmid none cloning []))
    upid ← ask (
        b.clone w.node template (
          (codes "newid", print vmid)
          ∷ (codes "name", scrub_name w.id)
          ∷ (codes "description", described w)
          ∷ (codes "full", codes "1")
          ∷ (codes "storage", b.storage)
          ∷ (codes "pool", pool)
          ∷ []))
    ask (b.write_pending (pending w vmid (some upid) cloning []))
    await_clone w vmid upid
