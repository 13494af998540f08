-- ===== src/Examples/Machines.antt =====
-- A machine that Core wants running and that stands stopped, on the wrong bridge.
use omnuv_provider.Base.{Option, ℕ, ◌≡◌, refl, true, false, [], ◌∷◌, none, some}
use omnuv_provider.Base.Text.{Text, codes, same, text_leb, split, split_once, strip_prefix}
use omnuv_provider.Base.Decimal.{print, digits_of}
use omnuv_provider.Hypervisor.{Answer, ok, Config, field}
use omnuv_provider.Lease.{running, sort, insert_sorted}
use omnuv_provider.Volumes.{dedup_texts}
use omnuv_provider.Gate.{
  Readings, task_blockers, properties, values_of, valued, bridge_up, bridges_from, bridge_blockers,
  held_cards, config_cards, guest_cards, guests_cards, card_blockers, start_blockers, gate,
  start_when_ready,
}
use omnuv_provider.Reboots.{remove, reboot_pass}
use omnuv_provider.Machine.{
  plug, start_it, MachineApi, Machine, Room, settle, plug_in, to_segment, ensure_segment, replug,
  on_field, to_egress, ensure_egress, ensure_network, place, on_start, start_gated, on_view,
  converge, reboot_it, ensure_existing,
}
use omnuv_provider.Restore.{View, no_head}
use omnuv_provider.Reread.{Link}
use omnuv_provider.Machine.Gated.{gated, Timely, started-Timely}
use omnuv_provider.Machine.Orders.{Grows, Licensed, ensure_existing-Licensed}

abbrev lines : Config
lines =
    (codes "net0", some (codes "virtio=AA,bridge=onat0"))
    ∷ (codes "net1", some (codes "virtio=BB,bridge=onvabc"))
    ∷ []

abbrev quiet : Readings
quiet = record {
  active = some [];
  config = some lines;
  vnets = some [];
  zone_content = λ z. none;
  network = some (some (codes "onat0") ∷ some (codes "onvabc") ∷ []);
  vms = some [];
  configs = λ v. none;
}

abbrev machine : Machine
machine = record {
  vmid = 101;
  intent = running;
  network = some (codes "onvabc", codes "BB");
  reboot_token = none;
}

-- The world is the clock.
abbrev api : MachineApi ℕ
api = record {
  config = λ w. (ok lines, w);
  set_net = λ k v w. (ok none, w);
  post_start = λ w. (ok (codes "UPID:1"), w);
  post_shutdown = λ w. (ok (codes "UPID:2"), w);
  wait = λ u w. (ok tt, w);
  looks = λ w. ((λ n. quiet), w);
  start_gate = λ w. (ok true, w);
  reboots = record {
    now = λ w. w;
    read = λ w. (true, w);
    write = λ r w. (true, w);
    remove = λ w. (true, w);
    post = λ w. (ok (codes "UPID:3"), w);
    wait = λ u w. (ok tt, w);
  };
  tagged = λ w. w;
  refreshed = λ w. w;
}

abbrev room : Room ℕ
room = record { seat = record { world = 5; journal = none; sent = [] }; orders = [] }

moved_and_started :
    (ensure_existing api 30 machine false none room).1.orders
    ≡ start_it ∷ plug (codes "net0") (codes "virtio=AA,bridge=onvnat0") ∷ []
unfolding ensure_existing place ensure_network ensure_segment to_segment ensure_egress to_egress
    on_field replug plug_in settle converge on_view start_gated on_start reboot_it reboot_pass
    remove start_when_ready gate start_blockers task_blockers valued values_of properties
    bridge_blockers bridges_from bridge_up card_blockers guests_cards guest_cards config_cards
    held_cards field same split split_once strip_prefix sort insert_sorted text_leb dedup_texts
    print digits_of
moved_and_started = refl

ensure_existing-Licensed_example :
    Grows (Licensed api 30 machine false) room (ensure_existing api 30 machine false none room).1
ensure_existing-Licensed_example = ensure_existing-Licensed api 30 machine false none room

-- Core answers the machine's view again.
abbrev fetch : ℕ → ℕ → Answer (View × Option Text) × ℕ
fetch known w = (
  ok (
    record {
      unchanged = false;
      version = 8;
      instances = record { id = codes "m"; intent = running } ∷ [];
      inference_workers = [];
    },
    none,
  ),
  w,
)

abbrev link : Link ℕ
link = record {
  world = 0;
  held = none;
  restore = record { armed = false; head = no_head; disk = none; exists = false };
}

abbrev link_api : MachineApi (Link ℕ)
link_api = record {
  config = λ w. (ok lines, w);
  set_net = λ k v w. (ok none, w);
  post_start = λ w. (ok (codes "UPID:1"), w);
  post_shutdown = λ w. (ok (codes "UPID:2"), w);
  wait = λ u w. (ok tt, w);
  looks = λ w. ((λ n. quiet), w);
  start_gate = λ w. (ok false, w);
  reboots = record {
    now = λ w. 5;
    read = λ w. (true, w);
    write = λ r w. (true, w);
    remove = λ w. (true, w);
    post = λ w. (ok (codes "UPID:3"), w);
    wait = λ u w. (ok tt, w);
  };
  tagged = λ w. w;
  refreshed = λ w. w;
}

abbrev link_room : Room (Link ℕ)
link_room = record { seat = record { world = link; journal = none; sent = [] }; orders = [] }

started-Timely_example :
    Grows
      (Timely fetch true (codes "m") link_api 30 machine false)
      link_room
      (ensure_existing (gated fetch true (codes "m") link_api) 30 machine false none link_room).1
started-Timely_example =
    started-Timely fetch true (codes "m") link_api 30 machine false none link_room
