-- ===== src/Machine.antt =====
-- src/instance.rs: `ensure_instance_gated` for a machine that stands already and whose power state was
-- read: its two interfaces, its start or its stop, its reboot. The calls of the one machine are a
-- parameter, with what the steps between these leave of the world.
pub mod Orders
pub mod Gated
use omnuv_provider.Base.{
  ℕ, Bool, true, false, ◌&&◌, List, [], ◌∷◌, ◌++◌, Option, none, some, ◌==◌, if◌then◌else◌, any,
}
use omnuv_provider.Base.Text.{Text, codes, same, split, split_once}
use omnuv_provider.Hypervisor.{Answer, ok, fault, Config, field, not_started}
use omnuv_provider.Lease.{Lifecycle, running, stopped, absent, unknown, is_running}
use omnuv_provider.Gate.{Readings, Blocker, Start, sent, not_ready, unread, start_when_ready}
use omnuv_provider.Reboots.{Calls, Seat, Echo, reboot_pass}

-- What is asked of the hypervisor for the machine.
pub data Order : Type 0 where
  plug : Text → Text → Order
  start_it : Order
  shut_down : Order

pub record MachineApi (W : Type 0) : Type 0 where
  pub config : W → Answer Config × W
  -- a configuration's post: the id of the task it started, if it started one
  pub set_net : Text → Text → W → Answer (Option Text) × W
  pub post_start : W → Answer Text × W
  pub post_shutdown : W → Answer Text × W
  pub wait : Text → W → Answer (Unit {0}) × W
  -- what the looks of the start gate read, and the world after them
  pub looks : W → (ℕ → Readings) × W
  -- Core's view, read again
  pub start_gate : W → Answer Bool × W
  pub reboots : Calls W
  -- the key tag and the first-boot files, whose failures are only said
  pub tagged : W → W
  pub refreshed : W → W

-- What is read of one machine of the view, with its network's bridge and MAC if it has a network.
pub record Machine : Type 0 where
  pub vmid : ℕ
  pub intent : Lifecycle
  pub network : Option (Text × Text)
  pub reboot_token : Option Text

-- The world, the reboots' file and the tokens sent, and the orders so far, newest first.
pub record Room (W : Type 0) : Type 0 where
  pub seat : Seat W
  pub orders : List Order

abbrev pub Act : Type 0 → Type 0 → Type 0
Act W A = Room W → Answer A × Room W

-- Whether the machine runs in the end, and whether its start is held back.
pub record Shown : Type 0 where
  pub runs : Bool
  pub held : Bool

abbrev pub is_absent : Lifecycle → Bool
is_absent running = false
is_absent stopped = false
is_absent absent = true
is_absent unknown = false

abbrev pub egress_bridge : Text
egress_bridge = codes "onvnat0"

-- `as_str().unwrap_or_default()`
abbrev pub line : Text → Config → Text
line key c = elim (field key c) [ none ↦ [] | some v ↦ v ]

-- A network line names the bridge.
abbrev pub on_bridge : Text → Text → Bool
on_bridge bridge v = any (λ kv. same kv (codes "bridge=" ++ bridge)) (split (λ k. k == b',') v)

abbrev pub net_line : Text → Text → Text
net_line mac bridge = codes "virtio=" ++ (mac ++ (codes ",bridge=" ++ bridge))

-- The MAC of a network line: its first part, after `=`.
abbrev pub mac_of : Text → Option Text
mac_of v = elim (split (λ k. k == b',') v) [
  | [] ↦ none
  | first ∷ rest ↦ elim (split_once b'=' first) [ none ↦ none | some (model, mac) ↦ some mac ]
]

module _ {W : Type 0} where
  abbrev pub pure : {A : Type 0} → A → Act W A
  pure a r = (ok a, r)

  abbrev pub in_world : Room W → W → Room W
  in_world r w = record r { seat = record r.seat { world = w } }

  abbrev pub ask : {A : Type 0} → (W → Answer A × W) → Act W A
  ask f r = let (a, w) = f r.seat.world in (a, in_world r w)

  abbrev pub say : {A : Type 0} → Order → (W → Answer A × W) → Act W A
  say o f r = let (a, w) = f r.seat.world in (a, record (in_world r w) { orders = o ∷ r.orders })

  abbrev pub go_on : {A B : Type 0} → (A → Act W B) → Answer A × Room W → Answer B × Room W
  go_on f (ok a, r) = f a r
  go_on f (fault e, r) = (fault e, r)

  abbrev pub then_do : {A B : Type 0} → Act W A → (A → Act W B) → Act W B
  then_do m f r = go_on f (m r)

module _ {W : Type 0} (api : MachineApi W) (looks : ℕ) where
  -- A task that was started is waited for.
  unfoldable pub settle : Option Text → Act W (Unit {0})
  settle none = pure tt
  settle (some upid) = ask (api.wait upid)

  unfoldable pub plug_in : Text → Text → Act W (Unit {0})
  plug_in key v = then_do (say (plug key v) (api.set_net key v)) settle

  unfoldable pub to_segment : Text → Text → Config → Act W (Unit {0})
  to_segment bridge mac c =
      if on_bridge bridge (line (codes "net1") c)
      then pure tt
      else plug_in (codes "net1") (net_line mac bridge)

  unfoldable pub ensure_segment : Text → Text → Act W (Unit {0})
  ensure_segment bridge mac = then_do (ask api.config) (to_segment bridge mac)

  unfoldable pub replug : Option Text → Act W (Unit {0})
  replug none = pure tt
  replug (some mac) = plug_in (codes "net0") (net_line mac egress_bridge)

  -- No such interface, or one that names no MAC, is left.
  unfoldable pub on_field : Option Text → Act W (Unit {0})
  on_field none = pure tt
  on_field (some v) = if on_bridge egress_bridge v then pure tt else replug (mac_of v)

  unfoldable pub to_egress : Config → Act W (Unit {0})
  to_egress c = on_field (field (codes "net0") c)

  unfoldable pub ensure_egress : Act W (Unit {0})
  ensure_egress = then_do (ask api.config) to_egress

  unfoldable pub ensure_network : Option (Text × Text) → Act W (Unit {0})
  ensure_network none = pure tt
  ensure_network (some (bridge, mac)) = ensure_segment bridge mac

  abbrev pub tagging : Unit {0} → Act W (Unit {0})
  tagging _ r = (ok tt, in_world r (api.tagged r.seat.world))

  -- The machine's two interfaces and its key.
  unfoldable pub place : Machine → Act W (Unit {0})
  place m =
      if is_absent m.intent
      then pure tt
      else then_do (ensure_network m.network) (λ _. then_do ensure_egress tagging)

  abbrev pub shows : Bool → Bool → Unit {0} → Act W Shown
  shows runs held _ = pure (record { runs = runs; held = held })

  abbrev pub waiting : Bool → Text → Act W Shown
  waiting runs upid = then_do (ask (api.wait upid)) (shows runs false)

  -- What the gate said.
  unfoldable pub on_start : Start → Act W Shown
  on_start (sent k) r = then_do (say start_it api.post_start) (waiting true) r
  on_start (not_ready bs) r = shows false true tt r
  on_start unread r = (fault (not_started []), r)

  unfoldable pub start_gated : ℕ → Act W Shown
  start_gated vmid r =
      let (look, w) = api.looks r.seat.world in
      on_start (start_when_ready vmid look looks) (in_world r w)

  -- Core's view read again: anything but a yes starts nothing, and is no failure.
  unfoldable pub on_view : ℕ → Answer Bool × W → Act W Shown
  on_view vmid (ok true, w) r = start_gated vmid (in_world r w)
  on_view vmid (ok false, w) r = shows false true tt (in_world r w)
  on_view vmid (fault e, w) r = shows false true tt (in_world r w)

  unfoldable pub converge : ℕ → Lifecycle → Bool → Act W Shown
  converge vmid running false r = on_view vmid (api.start_gate r.seat.world) r
  converge vmid running true r = shows true false tt r
  converge vmid stopped true r = then_do (say shut_down api.post_shutdown) (waiting false) r
  converge vmid stopped false r = shows false false tt r
  converge vmid absent runs r = shows runs false tt r
  converge vmid unknown runs r = shows runs false tt r

  abbrev pub refreshing : Machine → Room W → Room W
  refreshing m r = if is_absent m.intent then r else in_world r (api.refreshed r.seat.world)

  abbrev pub with_seat : Shown → List Order → Echo W → Answer (Shown × Option Text) × Room W
  with_seat s os (ok echo, t) = (ok (s, echo), record { seat = t; orders = os })
  with_seat s os (fault e, t) = (fault e, record { seat = t; orders = os })

  -- The reboot, of a machine that runs by now and is to.
  unfoldable pub reboot_it : Machine → Option ℕ → Shown → Act W (Shown × Option Text)
  reboot_it m uptime s r =
      let r' = refreshing m r in
      with_seat s r'.orders
        (reboot_pass api.reboots m.reboot_token (s.runs && is_running m.intent) uptime r'.seat)

  -- `runs` and `uptime` are what the node said of the machine.
  unfoldable pub ensure_existing : Machine → Bool → Option ℕ → Act W (Shown × Option Text)
  ensure_existing m runs uptime =
      then_do (place m) (λ _. then_do (converge m.vmid m.intent runs) (reboot_it m uptime))
