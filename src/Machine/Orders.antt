-- ===== src/Machine/Orders.antt =====
-- Which orders a pass of src/instance.rs sends for a machine that stands.
use omnuv_provider.Base.{
  ℕ, ◌≡◌, ◌⊎◌, refl, sym, ap, ◌∙◌, Bool, true, false, List, [], ◌∷◌, ◌++◌, Option, none, some, ◌&&◌,
  All, inl, inr, Bool-cases,
}
use omnuv_provider.Base.Text.{Text, codes}
use mathlib.Core.List.{append_assoc}
use omnuv_provider.Hypervisor.{Answer, ok, fault, Config, field}
use omnuv_provider.Lease.{Lifecycle, running, stopped, absent, unknown, is_running}
use omnuv_provider.Gate.{Start, sent, not_ready, unread, start_when_ready}
use omnuv_provider.Gate.Clear.{Clear}
use omnuv_provider.Gate.Starts.{start_when_ready-Clear}
use omnuv_provider.Reboots.{Echo, reboot_pass}
use omnuv_provider.Machine.{
  Order, plug, start_it, shut_down, MachineApi, Machine, Room, Act, Shown, is_absent, egress_bridge,
  line, on_bridge, in_world, ask, say, go_on, then_do, settle, plug_in, to_segment, ensure_segment,
  replug, on_field, net_line, mac_of, tagging, refreshing, to_egress, ensure_egress, ensure_network,
  place, shows, waiting, on_start, start_gated, on_view, converge, with_seat, reboot_it,
  ensure_existing,
}

All-append : (P : Order → Type 0) (xs ys : List Order) → All P xs → All P ys → All P (xs ++ ys)
All-append P [] ys p q = q
All-append P (x ∷ xs) ys (p, ps) q = (p, All-append P xs ys ps q)

module _ {W : Type 0} (P : Order → Type 0) where
  -- What was added to the orders obeys the rule.
  abbrev pub Grows : Room W → Room W → Type 0
  Grows r r' = (new : List Order) × (r'.orders ≡ new ++ r.orders) × All P new

  Grows-refl : (r : Room W) → Grows r r
  Grows-refl r = ([], refl, tt)

  Grows-trans : (a b d : Room W) → Grows a b → Grows b d → Grows a d
  Grows-trans a b d (xs, e, p) (ys, f, q) = (
    ys ++ xs,
    f ∙ (ap (λ os. ys ++ os) e ∙ sym (append_assoc ys xs a.orders)),
    All-append P ys xs q p,
  )

  -- An act whose orders obey the rule wherever it starts.
  abbrev pub Lawful : {A : Type 0} → Act W A → Type 0
  Lawful m = (r : Room W) → Grows r (m r).1

  go_on-Grows :
      {A B : Type 0} (f : A → Act W B) (r : Room W) (x : Answer A × Room W)
      → Grows r x.1
      → ((a : A) → x.0 ≡ ok a → Grows x.1 (f a x.1).1)
      → Grows r (go_on f x).1
  go_on-Grows f r (ok a, s) g h = Grows-trans r s (f a s).1 g (h a refl)
  go_on-Grows f r (fault e, s) g h = g

  then_do-Lawful :
      {A B : Type 0} (m : Act W A) (f : A → Act W B)
      → Lawful m
      → ((a : A) → Lawful (f a))
      → Lawful (then_do m f)
  then_do-Lawful m f p q r = go_on-Grows f r (m r) (p r) (λ a _. q a (m r).1)

  ask-Lawful : {A : Type 0} (f : W → Answer A × W) → Lawful (ask f)
  ask-Lawful f r = ([], refl, tt)

  say-Lawful : {A : Type 0} (o : Order) (f : W → Answer A × W) → P o → Lawful (say o f)
  say-Lawful o f p r = (o ∷ [], refl, (p, tt))

-- Why a machine may be given an order.
module _ {W : Type 0} (api : MachineApi W) (looks : ℕ) (m : Machine) (runs : Bool) where
  -- The line of an interface, and the bridge it is moved to.
  abbrev pub Belongs : Text → Text → Type 0
  Belongs key bridge =
      ((key ≡ codes "net0") × (bridge ≡ egress_bridge))
      ⊎ ((key ≡ codes "net1") × ((mac : Text) × (m.network ≡ some (bridge, mac))))

  -- A configuration was read that does not name the bridge.
  abbrev pub Misplaced : Text → Text → Type 0
  Misplaced key bridge =
      (w : W) × (c : Config) × ((api.config w).0 ≡ ok c) × (on_bridge bridge (line key c) ≡ false)

  -- Core's view, read again, wants it running, and a look after that finds nothing in the way.
  abbrev pub Startable : Type 0
  Startable =
      (w v : W) × (api.start_gate w ≡ (ok true, v)) × (k : ℕ) × Clear ((api.looks v).0 k) m.vmid

  abbrev pub Licensed : Order → Type 0
  Licensed (plug key value) =
      (is_absent m.intent ≡ false) × ((bridge : Text) × Belongs key bridge × Misplaced key bridge)
  Licensed start_it = (m.intent ≡ running) × (runs ≡ false) × Startable
  Licensed shut_down = (m.intent ≡ stopped) × (runs ≡ true)

  abbrev Fine : {A : Type 0} → Act W A → Type 0
  Fine a = Lawful Licensed a

  settle-Fine : (t : Option Text) → Fine (settle api looks t)
  unfolding settle
  settle-Fine none r = ([], refl, tt)
  settle-Fine (some upid) r = ([], refl, tt)

  plug_in-Fine : (key value : Text) → Licensed (plug key value) → Fine (plug_in api looks key value)
  unfolding plug_in
  plug_in-Fine key value l =
      then_do-Lawful Licensed (say (plug key value) (api.set_net key value)) (settle api looks)
        (say-Lawful Licensed (plug key value) (api.set_net key value) l) settle-Fine

  waiting-Fine : (b : Bool) (upid : Text) → Fine (waiting api looks b upid)
  waiting-Fine b upid =
      then_do-Lawful Licensed (ask (api.wait upid)) (shows api looks b false)
        (ask-Lawful Licensed (api.wait upid)) (λ _ r. ([], refl, tt))

  on_start-Fine :
      (s : Start) → ((k : ℕ) → s ≡ sent k → Licensed start_it) → Fine (on_start api looks s)
  unfolding on_start
  on_start-Fine (sent k) l r =
      then_do-Lawful Licensed (say start_it api.post_start) (waiting api looks true)
        (say-Lawful Licensed start_it api.post_start (l k refl)) (waiting-Fine true) r
  on_start-Fine (not_ready bs) l r = ([], refl, tt)
  on_start-Fine unread l r = ([], refl, tt)

  start_gated-Fine :
      (w : W) (r : Room W)
      → m.intent ≡ running
      → runs ≡ false
      → api.start_gate w ≡ (ok true, r.seat.world)
      → Grows Licensed r (start_gated api looks m.vmid r).1
  unfolding start_gated
  start_gated-Fine w r wants stands said =
      let v = r.seat.world in
      let look = (api.looks v).0 in
      on_start-Fine (start_when_ready m.vmid look looks)
        (λ k e. (wants, stands, (w, v, said, k, (start_when_ready-Clear m.vmid look looks k e).1)))
        (in_world r (api.looks v).1)

  on_view-Fine :
      (w : W) (a : Answer Bool × W) (r : Room W)
      → m.intent ≡ running
      → runs ≡ false
      → api.start_gate w ≡ a
      → Grows Licensed r (on_view api looks m.vmid a r).1
  unfolding on_view
  on_view-Fine w (ok true, v) r wants stands e = start_gated-Fine w (in_world r v) wants stands e
  on_view-Fine w (ok false, v) r wants stands e = ([], refl, tt)
  on_view-Fine w (fault f, v) r wants stands e = ([], refl, tt)

  converge-Fine :
      (intent : Lifecycle) (b : Bool)
      → m.intent ≡ intent
      → runs ≡ b
      → Fine (converge api looks m.vmid intent b)
  unfolding converge
  converge-Fine running false i b r =
      on_view-Fine r.seat.world (api.start_gate r.seat.world) r i b refl
  converge-Fine running true i b r = ([], refl, tt)
  converge-Fine stopped true i b r =
      then_do-Lawful Licensed (say shut_down api.post_shutdown) (waiting api looks false)
        (say-Lawful Licensed shut_down api.post_shutdown (i, b)) (waiting-Fine false) r
  converge-Fine stopped false i b r = ([], refl, tt)
  converge-Fine absent b i e r = ([], refl, tt)
  converge-Fine unknown b i e r = ([], refl, tt)

  to_segment-Fine :
      (bridge mac : Text) (w : W) (c : Config)
      → is_absent m.intent ≡ false
      → m.network ≡ some (bridge, mac)
      → (api.config w).0 ≡ ok c
      → Fine (to_segment api looks bridge mac c)
  unfolding to_segment
  to_segment-Fine bridge mac w c here net read r =
      elim (Bool-cases (on_bridge bridge (line (codes "net1") c))) [
        | inl e ↦ rw e ([], refl, tt)
        | inr ne ↦ rw ne (
            plug_in-Fine (codes "net1") (net_line mac bridge)
              (here, (bridge, inr (refl, (mac, net)), (w, c, read, ne))) r)
      ]

  ensure_segment-Fine :
      (bridge mac : Text)
      → is_absent m.intent ≡ false
      → m.network ≡ some (bridge, mac)
      → Fine (ensure_segment api looks bridge mac)
  unfolding ensure_segment
  ensure_segment-Fine bridge mac here net r =
      go_on-Grows Licensed (to_segment api looks bridge mac) r (ask api.config r) ([], refl, tt)
        (λ c e. to_segment-Fine bridge mac r.seat.world c here net e (ask api.config r).1)

  ensure_network-Fine :
      (net : Option (Text × Text))
      → is_absent m.intent ≡ false
      → m.network ≡ net
      → Fine (ensure_network api looks net)
  unfolding ensure_network
  ensure_network-Fine none here e r = ([], refl, tt)
  ensure_network-Fine (some (bridge, mac)) here e r = ensure_segment-Fine bridge mac here e r

  replug-Fine :
      (mac : Option Text)
      → ((value : Text) → Licensed (plug (codes "net0") value))
      → Fine (replug api looks mac)
  unfolding replug
  replug-Fine none l r = ([], refl, tt)
  replug-Fine (some mac) l r =
      plug_in-Fine (codes "net0") (net_line mac egress_bridge) (l (net_line mac egress_bridge)) r

  on_field-Fine :
      (v : Option Text) (w : W) (c : Config)
      → is_absent m.intent ≡ false
      → field (codes "net0") c ≡ v
      → (api.config w).0 ≡ ok c
      → Fine (on_field api looks v)
  unfolding on_field
  on_field-Fine none w c here e read r = ([], refl, tt)
  on_field-Fine (some v) w c here e read r = elim (Bool-cases (on_bridge egress_bridge v)) [
    | inl is ↦ rw is ([], refl, tt)
    | inr ne ↦ rw ne (
        replug-Fine (mac_of v)
          (λ value. (here, (egress_bridge, inl (refl, refl), (w, c, read, rw (e, line) ne)))) r)
  ]

  ensure_egress-Fine : is_absent m.intent ≡ false → Fine (ensure_egress api looks)
  unfolding ensure_egress to_egress
  ensure_egress-Fine here r =
      go_on-Grows Licensed (to_egress api looks) r (ask api.config r) ([], refl, tt)
        (λ c e.
          on_field-Fine (field (codes "net0") c) r.seat.world c here refl e (ask api.config r).1)

  place-Fine : Fine (place api looks m)
  unfolding place
  place-Fine r = elim (Bool-cases (is_absent m.intent)) [
    | inl e ↦ rw e ([], refl, tt)
    | inr here ↦ rw here (
        then_do-Lawful Licensed (ensure_network api looks m.network)
          (λ _. then_do (ensure_egress api looks) (tagging api looks))
          (ensure_network-Fine m.network here refl)
          (λ _.
            then_do-Lawful Licensed (ensure_egress api looks) (tagging api looks)
              (ensure_egress-Fine here) (λ _ s. ([], refl, tt)))
          r)
  ]

  with_seat-orders :
      (s : Shown) (os : List Order) (e : Echo W) → (with_seat api looks s os e).1.orders ≡ os
  with_seat-orders s os (ok echo, t) = refl
  with_seat-orders s os (fault f, t) = refl

  refreshing-orders : (r : Room W) → (refreshing api looks m r).orders ≡ r.orders
  refreshing-orders r = elim (Bool-cases (is_absent m.intent)) [
    | inl e ↦ rw e refl
    | inr e ↦ rw e refl
  ]

  reboot_it-Fine : (uptime : Option ℕ) (s : Shown) → Fine (reboot_it api looks m uptime s)
  unfolding reboot_it
  reboot_it-Fine uptime s r = (
    [],
    with_seat-orders s (refreshing api looks m r).orders (
          reboot_pass api.reboots m.reboot_token (s.runs && is_running m.intent) uptime
            (refreshing api looks m r).seat)
        ∙ refreshing-orders r,
    tt,
  )

  -- What a pass orders for a machine that stands: an interface is moved only if the machine is not to
  -- be absent and a configuration read in the pass does not name the bridge, which is the egress
  -- bridge for the first interface and its network's for the second; it is started only if it is to
  -- run and was not running, Core's view, read again, still wanted it, and a look of the start gate
  -- after that found nothing in the way; and it is shut down only if it is to be stopped and was running.
  pub ensure_existing-Licensed :
      (uptime : Option ℕ) (r : Room W)
      → Grows Licensed r (ensure_existing api looks m runs uptime r).1
  unfolding ensure_existing
  ensure_existing-Licensed uptime =
      then_do-Lawful Licensed (place api looks m)
        (λ _. then_do (converge api looks m.vmid m.intent runs) (reboot_it api looks m uptime))
        place-Fine
        (λ _.
          then_do-Lawful Licensed (converge api looks m.vmid m.intent runs)
            (reboot_it api looks m uptime) (converge-Fine m.intent runs refl refl)
            (reboot_it-Fine uptime))
