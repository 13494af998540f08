-- ===== src/Tombs/Proof.antt =====
-- What a whole pass of a teardown may destroy, and when it says that a machine is gone, in
-- src/teardown.rs.
use omnuv_provider.Base.{
  ℕ, ◌≡◌, refl, sym, ap, subst, ◌∙◌, ◌⊎◌, true, List, [], ◌∷◌, Option, none, some, arith, or_else,
}
use omnuv_provider.Base.Text.{Text}
use omnuv_provider.Hypervisor.{
  Answer, ok, fault, Event, read_config, read_status, listed, announced, sent_stop, sent_destroy,
  sent_remove, Config, Guest, Api, Run, ask,
}
use omnuv_provider.Hypervisor.Keeps.{>>=-eq-ok}
use omnuv_provider.Leased.{has_stamp, claimed_guests, live_status}
use omnuv_provider.Teardown.{
  Doomed, Licence, nothing, destroy, licence_one, licence_found, licence, stop_first, delete_it,
  destroy_running, destroy_it,
}
use omnuv_provider.Teardown.Destroys.{SaidStopped, licence_found-destroy}
use omnuv_provider.Teardown.Quiet.{licence-Keeps, examine-Keeps}
use omnuv_provider.Tombs.{
  Tombstone, Journal, Gone, proven, Agent, Times, Order, examine, prove, on_nothing, decided,
  destroyed_seen, on_doomed, on_licence, tear_down, read_tomb, blank,
}

-- Some reading of the guest's configuration found the machine's whole stamp.
abbrev pub HasRead : Text → Text → Text → ℕ → List Event → Type 0
HasRead kind id n v [] = ⊥
HasRead kind id n v (read_config m w (ok c) ∷ rest) =
    ((m ≡ n) × (w ≡ v) × (has_stamp kind id c ≡ true)) ⊎ HasRead kind id n v rest
HasRead kind id n v (read_config m w (fault e) ∷ rest) = HasRead kind id n v rest
HasRead kind id n v (sent_destroy m w ∷ rest) = HasRead kind id n v rest
HasRead kind id n v (sent_stop m w ∷ rest) = HasRead kind id n v rest
HasRead kind id n v (sent_remove m w ∷ rest) = HasRead kind id n v rest
HasRead kind id n v (read_status m w a ∷ rest) = HasRead kind id n v rest
HasRead kind id n v (listed m a ∷ rest) = HasRead kind id n v rest
HasRead kind id n v (announced m w ∷ rest) = HasRead kind id n v rest

-- Every guest that is stopped or destroyed had the machine's whole stamp when its configuration was
-- read before, and one is destroyed only when its node, asked just before, said it is stopped.
abbrev pub Fit : Text → Text → List Event → Type 0
Fit kind id [] = Unit {0}
Fit kind id (sent_destroy n v ∷ rest) =
    SaidStopped n v rest × HasRead kind id n v rest × Fit kind id rest
Fit kind id (sent_stop n v ∷ rest) = HasRead kind id n v rest × Fit kind id rest
Fit kind id (sent_remove m w ∷ rest) = Fit kind id rest
Fit kind id (read_config m w a ∷ rest) = Fit kind id rest
Fit kind id (read_status m w a ∷ rest) = Fit kind id rest
Fit kind id (listed m a ∷ rest) = Fit kind id rest
Fit kind id (announced m w ∷ rest) = Fit kind id rest

module _ {W : Type 0} (api : Api W) (kind id : Text) where
  destroy_it-Fit :
      (most : ℕ) (d : Doomed) (now done : ℕ) (ts : List ℕ) (r : Run W)
      → HasRead kind id d.node d.vmid r.trace
      → Fit kind id r.trace
      → Fit kind id (destroy_it api most d now done ts r).2.trace
  unfolding destroy_it destroy_running stop_first delete_it live_status
  destroy_it-Fit most d now done ts r read h = ground arith

  licence-Fit :
      (live_tags : List Text) (r : Run W)
      → Fit kind id r.trace
      → Fit kind id (licence api kind id live_tags r).1.trace
  licence-Fit live_tags r h =
      licence-Keeps api (Fit kind id) (λ n v a t k. k) (λ n a t k. k) kind id live_tags r h

  examine-Fit :
      (t : Tombstone) (r : Run W) → Fit kind id r.trace → Fit kind id (examine api t r).1.trace
  examine-Fit t r h =
      examine-Keeps api (Fit kind id) (λ n v a t k. k) (λ n a t k. k) (λ n v t k. k) t r h

  licence_one-HasRead :
      (live_tags : List Text) (g : Guest) (r : Run W) (d : Doomed)
      → (licence_one api kind id live_tags g r).0 ≡ ok (destroy d)
      → HasRead kind id d.node d.vmid (licence_one api kind id live_tags g r).1.trace
  unfolding licence_one
  licence_one-HasRead live_tags g r d h = go (api.config g.node g.vmid r.world).0 refl
    where
      go :
          (a : Answer Config)
          → (api.config g.node g.vmid r.world).0 ≡ a
          → HasRead kind id d.node d.vmid (licence_one api kind id live_tags g r).1.trace
      go (ok c) e = ground arith
      go (fault x) e = ground arith

  licence-HasRead :
      (live_tags : List Text) (r : Run W) (d : Doomed)
      → (licence api kind id live_tags r).0 ≡ ok (destroy d)
      → HasRead kind id d.node d.vmid (licence api kind id live_tags r).1.trace
  unfolding licence licence_found
  licence-HasRead live_tags r d h =
      let q = (claimed_guests api kind id r).1 in
      let (gs, e, h', s) =
        >>=-eq-ok (claimed_guests api kind id) (licence_found api kind id live_tags) r h in
      let (g, one, h'') = licence_found-destroy api kind id live_tags gs q d h' in
      subst (λ (x : Answer Licence × Run W). HasRead kind id d.node d.vmid x.1.trace)
        (sym (s ∙ ap (λ xs. licence_found api kind id live_tags xs q) one))
        (licence_one-HasRead live_tags g q d h'')

module _ {W D : Type 0} (api : Api W) (j : Journal D) (o : Order W) (times : Times) where
  pub prove-run :
      (t : Tombstone) (s : Agent W D) → (prove api j o times t s).1.run ≡ (examine api t s.run).1
  unfolding prove
  prove-run t s = ground arith

  prove-Fit :
      (t : Tombstone) (s : Agent W D)
      → Fit o.kind o.id s.run.trace
      → Fit o.kind o.id (prove api j o times t s).1.run.trace
  prove-Fit t s h =
      subst (λ (q : Run W). Fit o.kind o.id q.trace) (sym (prove-run t s))
        (examine-Fit api o.kind o.id t s.run h)

  on_nothing-Fit :
      (held : Option Tombstone) (s : Agent W D)
      → Fit o.kind o.id s.run.trace
      → Fit o.kind o.id (on_nothing api j o times held s).1.run.trace
  unfolding on_nothing
  on_nothing-Fit held s h =
      let t = or_else held (blank o.kind o.id) in
      let t' = record t { destroyed_at = some (or_else t.destroyed_at times.recorded) } in
      let d = (j.save (omnuv_provider.Tombs.tomb_file t'.id) t' s.disk).1 in
      ground (arith, prove-Fit t' (record s { disk = d }) h)

  destroyed_seen-run :
      (t : Tombstone) (dm : Doomed) (s : Agent W D)
      → (destroyed_seen api j o times t dm s).1.run
        ≡ (destroy_it api o.most dm times.asked times.done s.destroys s.run).2
  unfolding destroyed_seen
  destroyed_seen-run t dm s = ground arith

  destroyed_seen-Fit :
      (t : Tombstone) (dm : Doomed) (s : Agent W D)
      → HasRead o.kind o.id dm.node dm.vmid s.run.trace
      → Fit o.kind o.id s.run.trace
      → Fit o.kind o.id (destroyed_seen api j o times t dm s).1.run.trace
  destroyed_seen-Fit t dm s read h =
      subst (λ (q : Run W). Fit o.kind o.id q.trace) (sym (destroyed_seen-run t dm s))
        (destroy_it-Fit api o.kind o.id o.most dm times.asked times.done s.destroys s.run read h)

  on_doomed-Fit :
      (held : Option Tombstone) (dm : Doomed) (s : Agent W D)
      → HasRead o.kind o.id dm.node dm.vmid s.run.trace
      → Fit o.kind o.id s.run.trace
      → Fit o.kind o.id (on_doomed api j o times held dm s).1.run.trace
  unfolding on_doomed
  on_doomed-Fit held dm s read h =
      let t = decided api j o times held dm in
      let d = (j.save (omnuv_provider.Tombs.tomb_file t.id) t s.disk).1 in
      ground (
        arith,
        destroyed_seen-Fit t dm (record s { run = (ask o.reread s.run).1; disk = d }) read h,
      )

  on_licence-Fit :
      (held : Option Tombstone) (s : Agent W D)
      → Fit o.kind o.id s.run.trace
      → Fit o.kind o.id (on_licence api j o times held s).1.run.trace
  unfolding on_licence
  on_licence-Fit held s h = go (licence api o.kind o.id o.live_tags s.run).0 refl
    where
      go :
          (a : Answer Licence)
          → (licence api o.kind o.id o.live_tags s.run).0 ≡ a
          → Fit o.kind o.id (on_licence api j o times held s).1.run.trace
      go (fault e) q = rw (q, on_licence) (licence-Fit api o.kind o.id o.live_tags s.run h)
      go (ok nothing) q =
          rw (q, on_licence)
            (on_nothing-Fit held _ (licence-Fit api o.kind o.id o.live_tags s.run h))
      go (ok (destroy dm)) q =
          rw (q, on_licence)
            (on_doomed-Fit held dm _ (licence-HasRead api o.kind o.id o.live_tags s.run dm q)
              (licence-Fit api o.kind o.id o.live_tags s.run h))

  -- Whatever the hypervisor, the disk and Core answer, a pass of a machine's teardown stops or
  -- destroys only a guest whose configuration, read earlier, has that machine's whole stamp, and
  -- destroys it only if its node, asked just before, said that it is stopped. A trace that was so
  -- before stays so.
  pub tear_down-Fit :
      (s : Agent W D)
      → Fit o.kind o.id s.run.trace
      → Fit o.kind o.id (tear_down api j o times s).1.run.trace
  unfolding tear_down
  tear_down-Fit s h = go (read_tomb j o.id s.disk) refl
    where
      go :
          (held : Option Tombstone)
          → read_tomb j o.id s.disk ≡ held
          → Fit o.kind o.id (tear_down api j o times s).1.run.trace
      go none e = rw (e, tear_down) (on_licence-Fit none s h)
      go (some t) e = ground (arith, e, prove-Fit t s h, on_licence-Fit (some t) s h)
