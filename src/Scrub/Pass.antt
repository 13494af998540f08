-- ===== src/Scrub/Pass.antt =====
-- src/scrub.rs: one pass over the scrubs Core wants. The calls that are not in `Api`, the JSON reader and
-- the nodes the agent places on are parameters.
use omnuv_provider.Base.{
  ℕ, suc, ◌+◌, Bool, true, false, ◌&&◌, ◌||◌, not, List, [], ◌∷◌, ◌++◌, map, Option, none, some,
  if◌then◌else◌, any, keep, length, ◌==◌, is_some, ◌>>=◌ as ◌>>=?◌,
}
use omnuv_provider.Base.Text.{Text, codes, same, trim, split, lowercase, strip_prefix}
use omnuv_provider.Names.{tag_scrub, pool, gpu_mapping, carries_key}
use omnuv_provider.Hypervisor.{
  Answer, ok, fault, several, other_stamp, not_started, Guest, ClusterVm, NodeVm, Config, Api, Run,
  Call, pure, fail, ◌>>=◌, ◌>>◌, ask, get_config, get_node_vms, post_stop,
}
use omnuv_provider.Leased.{claimed_guests, live_status, stopped_word}
use omnuv_provider.Volumes.{disk_volids}
use omnuv_provider.Teardown.{Doomed, destroy_it}
use omnuv_provider.Scrub.Build.{Builder, build}
use omnuv_provider.Scrub.{
  ℤ, same_int, Wanted, GuestReport, Step, wait, over, step, Said, Held, is_of, attempt_of, scrub_of,
}

abbrev pub comma : ℕ → Bool
comma c = c == b','

abbrev pub first_piece : (ℕ → Bool) → Text → Text
first_piece p s = elim (split p s) [ [] ↦ s | piece ∷ rest ↦ piece ]

-- `proxmox::pci_slot`: domain, bus and device, in lower case (an address is ASCII).
unfoldable pub pci_slot : Text → Text
pci_slot raw =
    let addr = first_piece (λ c. c == b'.') (trim (first_piece comma raw)) in
    let full = if length (keep (λ c. c == b':') addr) == 1 then codes "0000:" ++ addr else addr in
    map lowercase full

-- Whether a PCI assignment names the card: its mapping, or its address.
unfoldable pub assigns : Text → Text → Bool
assigns value card =
    any (λ p. same (trim p) (codes "mapping=" ++ gpu_mapping card)) (split comma value)
    || same (pci_slot value) (pci_slot card)

unfoldable pub names_card : Text → Config → Bool
names_card card c =
    any
      (λ (e : Text × Option Text).
        is_some (strip_prefix (codes "hostpci") e.0)
        && elim e.1 [ none ↦ false | some v ↦ assigns v card ])
      c

-- `status/current`.
pub record Current : Type 0 where
  pub status : Option Text
  pub uptime : Option ℕ

pub record Env (W : Type 0) : Type 0 where
  pub api : Api W
  pub current : Text → ℕ → W → Answer Current × W
  -- the report's file, read through the guest agent
  pub guest_file : Text → ℕ → W → Option Text × W
  pub report_of : Text → Option GuestReport
  pub template_for : Text → Option ℕ
  pub create_nodes : W → Answer (List Text) × W
  pub builder : Builder W
  -- the hour's cap on destroys, the deadline in seconds, and the readings of the clock
  pub most : ℕ
  pub deadline : ℕ
  pub clock : ℕ → ℕ

-- A run, the destroys of the hour, and how often the clock was read.
pub record Bench (W : Type 0) : Type 0 where
  pub run : Run W
  pub destroys : List ℕ
  pub readings : ℕ

abbrev pub Effect : Type 0 → Type 0 → Type 0
Effect W A = Bench W → Answer A × Bench W

module _ {W : Type 0} (env : Env W) where
  abbrev pub api_of : Api W
  api_of = env.api

  -- A call in a bench, and the rest on its answer.
  abbrev pub then_do : {A B : Type 0} → Call W A → (A → Effect W B) → Effect W B
  then_do m f b =
      let (a, r) = m b.run in
      elim a [ fault e ↦ (fault e, record b { run = r }) | ok x ↦ f x (record b { run = r }) ]

  unfoldable pub stop_it : Text → ℕ → Call W (Unit {0})
  stop_it node vmid = live_status env.api node vmid >>= λ s.
      if same s stopped_word
      then pure tt
      else (post_stop env.api node vmid >>= λ upid. ask (env.api.wait node upid))

  unfoldable pub destroy_now : Doomed → Effect W (Unit {0})
  destroy_now d b =
      let (a, ts, r) =
        destroy_it env.api env.most d (env.clock b.readings) (env.clock (suc b.readings)) b.destroys
          b.run in
      (a, record { run = r; destroys = ts; readings = b.readings + 2 })

  -- A scrub guest, gone: stopped, then destroyed with the disks its configuration names.
  unfoldable pub remove_guest : Text → ℕ → Config → Effect W (Unit {0})
  remove_guest node vmid c =
      then_do (stop_it node vmid)
        λ _. destroy_now (record { node = node; vmid = vmid; volids = disk_volids c })

  -- No guest of the list is configured with the card.
  unfoldable pub card_free : Text → Text → List NodeVm → Call W (Unit {0})
  card_free node card [] = pure tt
  card_free node card (v ∷ vs) =
      let rest = card_free node card vs in
      get_config env.api node v.vmid >>= λ c.
      if names_card card c then fail (not_started card) else rest

  -- The node must be one the agent places on, and the card nobody's, before the guest is built.
  unfoldable pub start_from : Wanted → ℕ → Call W (Unit {0})
  start_from w template = ask env.create_nodes >>= λ nodes.
      if any (λ n. same n w.node) nodes
      then (get_node_vms env.api w.node >>= λ vms.
          card_free w.node w.card vms >> build env.api env.builder w template)
      else fail (not_started w.node)

  unfoldable pub start_scrub : Wanted → Call W (Unit {0})
  start_scrub w = elim (env.template_for w.image) [
    | none ↦ fail (not_started w.image)
    | some template ↦ start_from w template
  ]

  -- The guest is gone before an outcome is said.
  abbrev pub after_removal :
      Option Said → Answer (Unit {0}) × Bench W → Answer (Option Said) × Bench W
  after_removal said (ok _, b) = (ok said, b)
  after_removal said (fault e, b) = (fault e, b)

  unfoldable pub conclude : Wanted → Guest → Config → ℕ → Step → Effect W (Option Said)
  conclude w g c uptime wait b = (ok none, b)
  conclude w g c uptime (over outcome detail) b =
      after_removal
        (some (record {
          id = w.id;
          attempt = w.attempt;
          outcome = outcome;
          detail = detail;
          guest_uptime_s = uptime;
        }))
        (remove_guest g.node g.vmid c b)

  abbrev pub is_running : Current → Bool
  is_running now = elim now.status [ none ↦ false | some s ↦ same s (codes "running") ]

  abbrev pub uptime_of : Current → ℕ
  uptime_of now = elim now.uptime [ none ↦ 0 | some u ↦ u ]

  -- The report, of a guest that runs.
  unfoldable pub read_report : Text → ℕ → Bool → Call W (Option GuestReport)
  read_report node vmid false r = (ok none, r)
  read_report node vmid true r =
      let (content, w) = env.guest_file node vmid r.world in
      (ok (content >>=? env.report_of), record r { world = w })

  abbrev pub on_report :
      Wanted → Guest → Config → Current → Option GuestReport → Effect W (Option Said)
  on_report w g c now report =
      conclude w g c (uptime_of now) (step report (is_running now) (uptime_of now) env.deadline)

  abbrev pub on_current : Wanted → Guest → Config → Current → Effect W (Option Said)
  on_current w g c now = then_do (read_report g.node g.vmid (is_running now)) (on_report w g c now)

  unfoldable pub look : Wanted → Guest → Config → Effect W (Option Said)
  look w g c = then_do (ask (env.current g.node g.vmid)) (on_current w g c)

  abbrev pub is_scrub : Text → Config → Bool
  is_scrub id c = elim (scrub_of c) [ none ↦ false | some s ↦ same s id ]

  abbrev pub is_attempt : ℤ → Config → Bool
  is_attempt n c = elim (attempt_of c) [ none ↦ false | some a ↦ same_int a n ]

  -- The guest's configuration was read: another's is left alone, an earlier attempt's is removed.
  unfoldable pub on_config : Wanted → Guest → Config → Effect W (Option Said)
  on_config w g c b =
      if not (is_scrub w.id c)
      then (fault (other_stamp g.vmid), b)
      else if not (is_attempt w.attempt c)
      then after_removal none (remove_guest g.node g.vmid c b)
      else look w g c b

  abbrev pub started : Unit {0} → Effect W (Option Said)
  started _ b = (ok none, b)

  unfoldable pub on_guests : Wanted → List Guest → Effect W (Option Said)
  on_guests w [] b = then_do (start_scrub w) started b
  on_guests w (g ∷ []) b = then_do (get_config env.api g.node g.vmid) (on_config w g) b
  on_guests w (g ∷ h ∷ more) b = (fault (several (length (g ∷ h ∷ more))), b)

  -- One scrub, one step.
  unfoldable pub scrub_one : Wanted → Effect W (Option Said)
  scrub_one w = then_do (claimed_guests env.api tag_scrub w.id) (on_guests w)

  abbrev pub holding : Answer (Option Said) → Held → Held
  holding (ok (some s)) held = s ∷ held
  holding (ok none) held = held
  holding (fault e) held = held

  -- An error of one scrub is said, and the others go on.
  unfoldable pub scrub_each : List Wanted → Held → Bench W → Held × Bench W
  scrub_each [] held b = (held, b)
  scrub_each (w ∷ ws) held b =
      let (a, b') = scrub_one w b in
      let known = scrub_each ws held b in
      let after = scrub_each ws (holding a held) b' in
      if any (is_of w.id w.attempt) held then known else after

  abbrev pub may_be_scrubs : ClusterVm → Bool
  may_be_scrubs v = elim v.pool [ none ↦ false | some p ↦ same p pool ] && elim v.guest.tags [
    | none ↦ false
    | some t ↦ any (λ x. same x tag_scrub) (split (λ c. c == b';') t)
  ]

  -- A stamp of a scrub that Core lists no more, and its key among the tags.
  abbrev pub is_left : List Wanted → ClusterVm → Text → Bool
  is_left wants v id =
      not (any (λ (w : Wanted). same w.id id) wants)
      && elim v.guest.tags [ none ↦ false | some t ↦ carries_key t id ]

  unfoldable pub sweep_one : List Wanted → ClusterVm → Config → Effect W (Unit {0})
  sweep_one wants v c b = elim (scrub_of c) [
    | none ↦ (ok tt, b)
    | some id ↦
        if is_left wants v id then remove_guest v.guest.node v.guest.vmid c b else (ok tt, b)
  ]

  abbrev pub next : Answer (Unit {0}) × Bench W → Effect W (Unit {0}) → Answer (Unit {0}) × Bench W
  next (ok _, b) m = m b
  next (fault e, b) m = (fault e, b)

  unfoldable pub sweep_each : List Wanted → List ClusterVm → Effect W (Unit {0})
  sweep_each wants [] b = (ok tt, b)
  sweep_each wants (v ∷ vs) b =
      let rest = sweep_each wants vs in
      let here = then_do (get_config env.api v.guest.node v.guest.vmid) (sweep_one wants v) b in
      if may_be_scrubs v then next here rest else rest b

  unfoldable pub sweep : List Wanted → Effect W (Unit {0})
  sweep wants = then_do (ask env.api.cluster_vms) (sweep_each wants)

  abbrev pub is_wanted : List Wanted → Said → Bool
  is_wanted wants s = any (λ (w : Wanted). is_of w.id w.attempt s) wants

  -- What is held after the pass is what is reported.
  unfoldable pub scrub_pass : List Wanted → Held → Bench W → Held × Bench W
  scrub_pass wants held b =
      let (held', b') = scrub_each wants held b in
      (keep (is_wanted wants) held', (sweep wants b').1)
