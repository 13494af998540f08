-- ===== src/Teardown.antt =====
-- src/teardown.rs: what a delete may destroy. The licence, the guest a reader acts on, the guests with
-- a clone's stamp, and the destroy with the hour's cap on destroying running machines. Instants count
-- nanoseconds.
pub mod Destroys
pub mod Hourly
pub mod Quiet
use omnuv_provider.Base.{
  ℕ, ◌-◌, Bool, true, false, ◌&&◌, not, List, [], ◌∷◌, ◌++◌, Option, none, some, if◌then◌else◌, any,
  length, ltb, leb, ◌==◌,
}
use omnuv_provider.Base.Text.{Text, codes, same}
use omnuv_provider.Names.{tag_worker, tag_scrub, pool, pool_buyers, short_tag}
use omnuv_provider.Hypervisor.{
  Answer, ok, fault, Fault, several, shared_tag, other_stamp, capped, still_running, Guest,
  ClusterVm, Config, Api, Run, Call, pure, fail, ◌>>=◌, ◌>>◌, ask, or_fault, get_config, post_stop,
  delete_guest,
}
use omnuv_provider.Lease.{seconds}
use omnuv_provider.Leased.{tagged, has_stamp, stopped_word, claimed_guests, live_status}
use omnuv_provider.Volumes.{disk_volids}

-- The one guest a delete may destroy, and the volumes its configuration names.
pub record Doomed : Type 0 where
  pub node : Text
  pub vmid : ℕ
  pub volids : List Text

pub data Licence : Type 0 where
  nothing : Licence
  destroy : Doomed → Licence

-- The pool a clone for the claim is put in.
abbrev pub clone_pool : Text → Text
clone_pool kind =
    if same kind tag_worker then pool else if same kind tag_scrub then pool else pool_buyers

module _ {W : Type 0} (api : Api W) (kind id : Text) where
  unfoldable pub licence_one : List Text → Guest → Call W Licence
  licence_one live_tags g =
      let checked : Call W Licence = get_config api g.node g.vmid >>= λ c.
      if has_stamp kind id c
      then pure (destroy (record { node = g.node; vmid = g.vmid; volids = disk_volids c }))
      else fail (other_stamp g.vmid) in
      if any (λ t. same t (short_tag id)) live_tags
      then fail (shared_tag (short_tag id))
      else checked

  unfoldable pub licence_found : List Text → List Guest → Call W Licence
  licence_found live_tags [] = pure nothing
  licence_found live_tags (g ∷ []) = licence_one live_tags g
  licence_found live_tags (g ∷ h ∷ more) = fail (several (length (g ∷ h ∷ more)))

  -- Licence (a): the one guest a delete may destroy, or nothing there, or why neither can be said.
  unfoldable pub licence : List Text → Call W Licence
  licence live_tags = claimed_guests api kind id >>= licence_found live_tags

  unfoldable pub the_one : List Guest → Call W (Option Guest)
  the_one [] = pure none
  the_one (g ∷ []) = or_fault (other_stamp g.vmid) (get_config api g.node g.vmid) >>= λ c.
      if has_stamp kind id c then pure (some g) else fail (other_stamp g.vmid)
  the_one (g ∷ h ∷ more) = fail (several (length (g ∷ h ∷ more)))

  -- The one guest that is this machine, by its whole id.
  unfoldable pub the_guest : Call W (Option Guest)
  the_guest = claimed_guests api kind id >>= the_one

  -- In the clone's pool, and without the claim.
  abbrev pub is_unclaimed : ClusterVm → Bool
  is_unclaimed v = elim v.pool [
    | none ↦ false
    | some p ↦ same p (clone_pool kind) && not (tagged kind id v.guest.tags)
  ]

  unfoldable pub stamped_among : List ClusterVm → Call W (List Guest)
  stamped_among [] = pure []
  stamped_among (v ∷ vs) =
      let rest = stamped_among vs in
      let asked : Call W (List Guest) = get_config api v.guest.node v.guest.vmid >>= λ c.
      rest >>= λ gs. pure (if has_stamp kind id c then v.guest ∷ gs else gs) in
      if is_unclaimed v then asked else rest

  -- Every guest with the machine's clone stamp and without its claim.
  unfoldable pub stamped_guests : Call W (List Guest)
  stamped_guests = ask api.cluster_vms >>= stamped_among

abbrev pub hour : ℕ
hour = seconds 3600

-- The destroys of the hour: those before it, oldest first, are forgotten.
unfoldable pub within_hour : ℕ → List ℕ → List ℕ
within_hour now [] = []
within_hour now (t ∷ ts) = if leb hour (now - t) then within_hour now ts else t ∷ ts

-- Whether the hour has room for one more destroy of a running machine. A cap of 0 is no cap.
unfoldable pub started_destroy_allowed : ℕ → ℕ → List ℕ → Bool × List ℕ
started_destroy_allowed most now ts =
    let recent = within_hour now ts in
    if most == 0 then (true, ts) else (ltb (length recent) most, recent)

-- Counted once it is done.
abbrev pub counted : Answer (Unit {0}) → ℕ → List ℕ → List ℕ
counted (ok _) done ts = ts ++ done ∷ []
counted (fault e) done ts = ts

module _ {W : Type 0} (api : Api W) where
  -- The guest stopped, the stop waited for, and the node asked again.
  unfoldable pub stop_first : Doomed → Call W (Unit {0})
  stop_first d = do
    upid ← post_stop api d.node d.vmid
    ask (api.wait d.node upid)
    after ← live_status api d.node d.vmid
    if same after stopped_word then pure tt else fail (still_running d.vmid)

  unfoldable pub delete_it : Doomed → Call W (Unit {0})
  delete_it d = delete_guest api d.node d.vmid >>= λ upid. ask (api.wait d.node upid)

  -- A running guest, when the hour allows: `now` is when the hour is read, `done` when it is over.
  unfoldable pub destroy_running :
      ℕ → Doomed → ℕ → ℕ → List ℕ → Run W → Answer (Unit {0}) × List ℕ × Run W
  destroy_running most d now done ts r =
      let (allowed, recent) = started_destroy_allowed most now ts in
      let (a, r') = (stop_first d >> delete_it d) r in
      if allowed then (a, counted a done recent, r') else (fault (capped d.vmid), recent, r)

  -- The destroy the licence allowed.
  unfoldable pub destroy_it :
      ℕ → Doomed → ℕ → ℕ → List ℕ → Run W → Answer (Unit {0}) × List ℕ × Run W
  destroy_it most d now done ts r =
      let (a, r') = live_status api d.node d.vmid r in
      elim a [
        | fault e ↦ (fault e, ts, r')
        | ok s ↦
            if same s stopped_word
            then (let (b, r2) = delete_it d r' in (b, ts, r2))
            else destroy_running most d now done ts r'
      ]
