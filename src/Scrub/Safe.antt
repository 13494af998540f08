-- ===== src/Scrub/Safe.antt =====
-- What a pass over scrubs, in src/scrub.rs, may stop and destroy.
use omnuv_provider.Base.{
  ℕ, ◌≡◌, refl, Bool, true, false, List, [], ◌∷◌, Option, none, some, arith, is_some, inl, inr,
  Bool-cases, any, if◌then◌else◌, subst, sym,
}
use omnuv_provider.Base.Text.{Text, same}
use omnuv_provider.Names.{tag_scrub}
use omnuv_provider.Hypervisor.{
  Answer, ok, fault, read_config, Config, Guest, ClusterVm, NodeVm, Run, Call, ask, get_config,
  get_node_vms, fail, not_started,
}
use omnuv_provider.Hypervisor.Keeps.{Keeps, Keeps-bind, Keeps-if}
use omnuv_provider.Volumes.{disk_volids}
use omnuv_provider.Leased.{live_status, claimed_guests}
use omnuv_provider.Teardown.{Doomed, stop_first, delete_it, destroy_running, destroy_it}
use omnuv_provider.Teardown.Quiet.{claimed_guests-Keeps}
use omnuv_provider.Scrub.{Wanted, Step, wait, over, Said, Held, scrub_of}
use omnuv_provider.Scrub.Build.{build}
use omnuv_provider.Scrub.Rule.{Stamped, ScrubsOnly}
use omnuv_provider.Scrub.Rolled.{build-ScrubsOnly}
use omnuv_provider.Scrub.Pass.{
  Env, Bench, Effect, then_do, stop_it, destroy_now, remove_guest, names_card, card_free,
  start_from, start_scrub, after_removal, conclude, read_report, on_report, on_current, look,
  started, on_config, on_guests, scrub_one, holding, scrub_each, is_left, sweep_one, next,
  sweep_each, sweep, scrub_pass, is_running,
}

-- A part of the pass leaves the trace so.
abbrev Fine : {W A : Type 0} → Effect W A → Type 0
Fine {W} m = (b : Bench W) → ScrubsOnly b.run.trace → ScrubsOnly (m b).1.run.trace

module _ {W : Type 0} (env : Env W) where
  then_do-Fine :
      {A B : Type 0} (m : Call W A) (f : A → Effect W B)
      → Keeps ScrubsOnly m
      → ((a : A) → Fine (f a))
      → Fine (then_do env m f)
  then_do-Fine {A} {B} m f km kf b h = go (m b.run).0 (m b.run).1 (km b.run h)
    where
      go :
          (a : Answer A) (r : Run W)
          → ScrubsOnly r.trace
          → ScrubsOnly
              (elim a as (λ _. Answer B × Bench W) [
                | fault e ↦ (fault e, record b { run = r })
                | ok x ↦ f x (record b { run = r })
              ]).1.run.trace
      go (ok x) r k = kf x (record b { run = r }) k
      go (fault e) r k = k

  stop_it-ScrubsOnly :
      (n : Text) (v : ℕ) (r : Run W)
      → Stamped n v r.trace
      → ScrubsOnly r.trace
      → ScrubsOnly (stop_it env n v r).1.trace × Stamped n v (stop_it env n v r).1.trace
  unfolding stop_it live_status
  stop_it-ScrubsOnly n v r s h = ground arith

  destroy_it-ScrubsOnly :
      (most : ℕ) (d : Doomed) (now done : ℕ) (ts : List ℕ) (r : Run W)
      → Stamped d.node d.vmid r.trace
      → ScrubsOnly r.trace
      → ScrubsOnly (destroy_it env.api most d now done ts r).2.trace
  unfolding destroy_it destroy_running stop_first delete_it live_status
  destroy_it-ScrubsOnly most d now done ts r s h = ground arith

  -- The same of a part that acts on a guest whose stamp was read.
  FineOn : {A : Type 0} → Text → ℕ → Effect W A → Type 0
  FineOn n v m =
      (b : Bench W)
      → Stamped n v b.run.trace
      → ScrubsOnly b.run.trace
      → ScrubsOnly (m b).1.run.trace

  remove_guest-Fine : (n : Text) (v : ℕ) (c : Config) → FineOn n v (remove_guest env n v c)
  unfolding FineOn remove_guest destroy_now
  remove_guest-Fine n v c b s h =
      go (stop_it env n v b.run).0 (stop_it env n v b.run).1 (stop_it-ScrubsOnly n v b.run s h)
    where
      go :
          (a : Answer (Unit {0})) (r : Run W)
          → ScrubsOnly r.trace × Stamped n v r.trace
          → ScrubsOnly
              (elim a as (λ _. Answer (Unit {0}) × Bench W) [
                | fault e ↦ (fault e, record b { run = r })
                | ok x ↦
                    destroy_now env
                      (record { node = n; vmid = v; volids = disk_volids c })
                      (record b { run = r })
              ]).1.run.trace
      go (ok x) r (k, t) = destroy_it-ScrubsOnly env.most _ _ _ _ r t k
      go (fault e) r (k, t) = k

  after_removal-run :
      (said : Option Said) (x : Answer (Unit {0}) × Bench W) → (after_removal env said x).1 ≡ x.1
  after_removal-run said (ok _, b) = refl
  after_removal-run said (fault e, b) = refl

  after_removal-Fine :
      (said : Option Said) (n : Text) (v : ℕ) (c : Config)
      → FineOn n v (λ b. after_removal env said (remove_guest env n v c b))
  unfolding FineOn
  after_removal-Fine said n v c b s h =
      subst (λ (x : Bench W). ScrubsOnly x.run.trace)
        (sym (after_removal-run said (remove_guest env n v c b))) (remove_guest-Fine n v c b s h)

  conclude-Fine :
      (w : Wanted) (g : Guest) (c : Config) (uptime : ℕ) (s : Step)
      → FineOn g.node g.vmid (conclude env w g c uptime s)
  unfolding conclude FineOn
  conclude-Fine w g c uptime wait b s h = h
  conclude-Fine w g c uptime (over o d) b s h = after_removal-Fine _ g.node g.vmid c b s h

  read_report-trace :
      (n : Text) (v : ℕ) (runs : Bool) (r : Run W) → (read_report env n v runs r).1.trace ≡ r.trace
  unfolding read_report
  read_report-trace n v true r = refl
  read_report-trace n v false r = refl

  then_do-FineOn :
      {A B : Type 0} (n : Text) (v : ℕ) (m : Call W A) (f : A → Effect W B)
      → ((r : Run W) → (m r).1.trace ≡ r.trace)
      → ((a : A) → FineOn n v (f a))
      → FineOn n v (then_do env m f)
  unfolding FineOn
  then_do-FineOn {A} {B} n v m f quiet kf b s h = go (m b.run).0 (m b.run).1 (quiet b.run)
    where
      go :
          (a : Answer A) (r : Run W)
          → r.trace ≡ b.run.trace
          → ScrubsOnly
              (elim a as (λ _. Answer B × Bench W) [
                | fault e ↦ (fault e, record b { run = r })
                | ok x ↦ f x (record b { run = r })
              ]).1.run.trace
      go (ok x) r e =
          kf x (record b { run = r }) (subst (Stamped n v) (sym e) s) (subst ScrubsOnly (sym e) h)
      go (fault x) r e = subst ScrubsOnly (sym e) h

  look-Fine : (w : Wanted) (g : Guest) (c : Config) → FineOn g.node g.vmid (look env w g c)
  unfolding look
  look-Fine w g c =
      then_do-FineOn g.node g.vmid (ask (env.current g.node g.vmid)) (on_current env w g c)
        (λ r. refl)
        λ now.
          then_do-FineOn g.node g.vmid (read_report env g.node g.vmid (is_running env now))
            (on_report env w g c now) (read_report-trace g.node g.vmid (is_running env now))
            (λ report. conclude-Fine w g c _ _)

  on_config-Fine :
      (w : Wanted) (g : Guest) (c : Config) (b : Bench W)
      → (is_some (scrub_of c) ≡ true → Stamped g.node g.vmid b.run.trace)
      → ScrubsOnly b.run.trace
      → ScrubsOnly (on_config env w g c b).1.run.trace
  unfolding on_config FineOn
  on_config-Fine w g c b s h = elim (Bool-cases (is_some (scrub_of c))) [
    | inr bare ↦ ground arith
    | inl mark ↦
        ground (
          arith,
          after_removal-Fine none g.node g.vmid c b (s mark) h,
          look-Fine w g c b (s mark) h,
        )
  ]

  -- A configuration is read, and the rest acts on its guest only if it has a scrub's stamp.
  read-Fine :
      {B : Type 0} (n : Text) (v : ℕ) (f : Config → Effect W B)
      → ((c : Config) (b : Bench W)
          → (is_some (scrub_of c) ≡ true → Stamped n v b.run.trace)
          → ScrubsOnly b.run.trace
          → ScrubsOnly (f c b).1.run.trace)
      → Fine (then_do env (get_config env.api n v) f)
  read-Fine {B} n v f k b h =
      go (env.api.config n v b.run.world).0 (env.api.config n v b.run.world).1
    where
      go :
          (a : Answer Config) (w : W)
          → ScrubsOnly
              (elim a as (λ _. Answer B × Bench W) [
                | fault e ↦ (
                  fault e,
                  record b { run = record { world = w; trace = read_config n v a ∷ b.run.trace } },
                )
                | ok c ↦ f c (record b {
                  run = record { world = w; trace = read_config n v a ∷ b.run.trace };
                })
              ]).1.run.trace
      go (ok c) w = k c _ (λ e. inl (refl, refl, inl e)) h
      go (fault e) w = h

  card_free-Fine :
      (node card : Text) (vs : List NodeVm) → Keeps ScrubsOnly (card_free env node card vs)
  unfolding card_free
  card_free-Fine node card [] = λ r h. h
  card_free-Fine node card (v ∷ vs) =
      Keeps-bind ScrubsOnly (get_config env.api node v.vmid) _ (λ r h. h)
        λ c. Keeps-if ScrubsOnly (names_card card c) _ _ (λ r h. h) (card_free-Fine node card vs)

  start_from-Fine : (w : Wanted) (template : ℕ) → Keeps ScrubsOnly (start_from env w template)
  unfolding start_from
  start_from-Fine w template =
      Keeps-bind ScrubsOnly (ask env.create_nodes) _ (λ r h. h)
        λ nodes.
          Keeps-if ScrubsOnly (any (λ n. same n w.node) nodes) _ _
            (Keeps-bind ScrubsOnly (get_node_vms env.api w.node) _ (λ r h. h)
              λ vms.
                Keeps-bind ScrubsOnly (card_free env w.node w.card vms)
                  (λ _. build env.api env.builder w template) (card_free-Fine w.node w.card vms)
                  (λ _. build-ScrubsOnly env.api env.builder w template))
            (λ r h. h)

  start_scrub-Fine : (w : Wanted) → Keeps ScrubsOnly (start_scrub env w)
  unfolding start_scrub
  start_scrub-Fine w r h = go (env.template_for w.image)
    where
      go :
          (t : Option ℕ)
          → ScrubsOnly
              ((elim t as (λ _. Call W (Unit {0})) [
                | none ↦ fail (not_started w.image)
                | some template ↦ start_from env w template
              ])
                r).1.trace
      go none = h
      go (some template) = start_from-Fine w template r h

  on_guests-Fine : (w : Wanted) (gs : List Guest) → Fine (on_guests env w gs)
  unfolding on_guests
  on_guests-Fine w [] =
      then_do-Fine (start_scrub env w) (started env) (start_scrub-Fine w) (λ _ b h. h)
  on_guests-Fine w (g ∷ []) = read-Fine g.node g.vmid (on_config env w g) (on_config-Fine w g)
  on_guests-Fine w (g ∷ k ∷ more) = λ b h. h

  scrub_one-Fine : (w : Wanted) → Fine (scrub_one env w)
  unfolding scrub_one
  scrub_one-Fine w =
      then_do-Fine (claimed_guests env.api tag_scrub w.id) (on_guests env w)
        (claimed_guests-Keeps env.api ScrubsOnly (λ n v a t k. k) (λ n a t k. k) tag_scrub w.id)
        (on_guests-Fine w)

  scrub_each-Fine :
      (ws : List Wanted) (held : Held) (b : Bench W)
      → ScrubsOnly b.run.trace
      → ScrubsOnly (scrub_each env ws held b).1.run.trace
  unfolding scrub_each
  scrub_each-Fine [] held b h = h
  scrub_each-Fine (w ∷ ws) held b h = ground (
    arith,
    scrub_each-Fine ws held b h,
    scrub_each-Fine ws (holding env (scrub_one env w b).0 held) (scrub_one env w b).1
        (scrub_one-Fine w b h),
  )

  sweep_one-Fine :
      (wants : List Wanted) (v : ClusterVm) (c : Config) (b : Bench W)
      → (is_some (scrub_of c) ≡ true → Stamped v.guest.node v.guest.vmid b.run.trace)
      → ScrubsOnly b.run.trace
      → ScrubsOnly (sweep_one env wants v c b).1.run.trace
  unfolding sweep_one FineOn
  sweep_one-Fine wants v c b s h = go (scrub_of c) s
    where
      go :
          (o : Option Text)
          → (is_some o ≡ true → Stamped v.guest.node v.guest.vmid b.run.trace)
          → ScrubsOnly
              (elim o as (λ _. Answer (Unit {0}) × Bench W) [
                | none ↦ (ok tt, b)
                | some id ↦
                    if is_left env wants v id
                    then remove_guest env v.guest.node v.guest.vmid c b
                    else (ok tt, b)
              ]).1.run.trace
      go none t = h
      go (some id) t = ground (arith, remove_guest-Fine v.guest.node v.guest.vmid c b (t refl) h)

  next-Fine :
      (x : Answer (Unit {0}) × Bench W) (m : Effect W (Unit {0}))
      → Fine m
      → ScrubsOnly x.1.run.trace
      → ScrubsOnly (next env x m).1.run.trace
  next-Fine (ok _, b) m k h = k b h
  next-Fine (fault e, b) m k h = h

  sweep_each-Fine : (wants : List Wanted) (vs : List ClusterVm) → Fine (sweep_each env wants vs)
  unfolding sweep_each
  sweep_each-Fine wants [] b h = h
  sweep_each-Fine wants (v ∷ vs) b h =
      let read =
        then_do env (get_config env.api v.guest.node v.guest.vmid) (sweep_one env wants v) in
      ground (
        arith,
        next-Fine (read b) (sweep_each env wants vs) (sweep_each-Fine wants vs) (
            read-Fine v.guest.node v.guest.vmid (sweep_one env wants v) (sweep_one-Fine wants v) b
              h),
        sweep_each-Fine wants vs b h,
      )

  -- Over any hypervisor, a pass over the scrubs, with the clones it makes and those it rolls back, stops and
  -- destroys only guests whose configuration, read before, has the stamp of a scrub; and it destroys one
  -- only if its node, asked just before, said that it is stopped, or right after a stop was sent to it. A
  -- trace that was so before stays so.
  pub scrub_pass-ScrubsOnly :
      (wants : List Wanted) (held : Held) (b : Bench W)
      → ScrubsOnly b.run.trace
      → ScrubsOnly (scrub_pass env wants held b).1.run.trace
  unfolding scrub_pass sweep
  scrub_pass-ScrubsOnly wants held b h =
      then_do-Fine (ask env.api.cluster_vms) (sweep_each env wants) (λ r k. k)
        (sweep_each-Fine wants) (scrub_each env wants held b).1 (scrub_each-Fine wants held b h)
