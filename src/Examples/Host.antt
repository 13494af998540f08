-- ===== src/Examples/Host.antt =====
-- A host with one machine on one node, its state whether that machine runs, and what the stop of a
-- leased machine and the host timer do there.
use omnuv_provider.Base.{
  ℕ, ◌≡◌, refl, ◌↔◌, Bool, true, false, List, [], ◌∷◌, Option, none, some, if◌then◌else◌, any, In,
  inl,
}
use omnuv_provider.Base.Text.{
  trim_start, trim, Text, codes, same, split, split_once, drop_return, first_line,
}
use omnuv_provider.Names.{
  tag_instance, description, stamped, label, tags, carries_key, is_key_of, short_tag, key_tag,
}
use omnuv_provider.Hypervisor.{ok, Config, ClusterVm, NodeLine, NodeVm, Guest, Api, Run, listed}
use omnuv_provider.RunLease.{Written}
use omnuv_provider.Leased.{
  no_stops, tagged, claimed_guests, node_guests, live_guests, stop_leased, online, has_stamp,
  stop_found, stop_guests, stop_guest, stop_stamped, send_stop, live_status, stamp_line,
}
use omnuv_provider.Leased.Sent.{Licensed, stop_leased-Licensed}
use omnuv_provider.Leased.Tally.{stops_sent}
use omnuv_provider.Leased.Claims.{claimed_guests-nil}
use omnuv_provider.Timer.{Looks, found, taken, would_block, whole_seconds, act_on, exit_code, pass}
use omnuv_provider.Timer.Guards.{pass-idle}
use omnuv_provider.Timer.Stopping.{DueStamp, file_leases, pass-Licensed, AllSeen, act_on-exit_code}

abbrev pub machine_id : Text
machine_id = codes "ab12"

abbrev pub node_name : Text
node_name = codes "alpha"

abbrev machine_tags : Option Text
machine_tags = some (tags tag_instance machine_id none)

abbrev alpha : NodeLine
alpha = record { name = some node_name; status = some (codes "online") }

abbrev pub machine : Guest
machine = record { node = node_name; vmid = 101; tags = machine_tags }

abbrev machine_config : Config
machine_config = (codes "description", some (description tag_instance machine_id)) ∷ []

-- One node, with the guests given on it, all with the machine's configuration.
abbrev host : List ClusterVm → List NodeVm → Api Bool
host vms here = record {
  cluster_vms = λ w. (ok vms, w);
  nodes = λ w. (ok (alpha ∷ []), w);
  node_vms = λ n w. (ok here, w);
  config = λ n v w. (ok machine_config, w);
  container_config = λ n v w. (ok [], w);
  status = λ n v w. (ok (some (if w then codes "running" else codes "stopped")), w);
  stop = λ n v w. (ok (codes "UPID"), false);
  destroy = λ n v w. (ok (codes "UPID"), w);
  wait = λ n t w. (ok tt, w);
  active_tasks = λ n w. (ok [], w);
  ha_resources = λ w. (ok [], w);
  content = λ n s w. (ok [], w);
  remove = λ n v w. (ok none, w);
}

abbrev pub with_machine : Api Bool
with_machine = host (record { guest = machine; pool = none; kind = none } ∷ []) []

abbrev pub without : Api Bool
without = host [] []

abbrev pub running_host : Run Bool
running_host = record { world = true; trace = [] }

stop_leased-Licensed_example :
    Licensed
      (λ c. has_stamp tag_instance machine_id c ≡ true)
      (stop_leased with_machine true machine_id no_stops running_host).2.trace
stop_leased-Licensed_example =
    stop_leased-Licensed with_machine true machine_id
      (λ c. has_stamp tag_instance machine_id c ≡ true) (λ c h. h) no_stops running_host tt

-- The machine is found, its stamp is whole, it runs, and one stop is sent.
found_here :
    (claimed_guests with_machine tag_instance machine_id running_host).0 ≡ ok (machine ∷ [])
unfolding claimed_guests tagged carries_key same split tags is_key_of short_tag key_tag trim_start
    trim
found_here = refl

stops_the_machine :
    stops_sent (stop_leased with_machine true machine_id no_stops running_host).2.trace ≡ 1
unfolding stop_leased stop_found stop_guests stop_guest stop_stamped send_stop live_status
    claimed_guests tagged carries_key same split tags is_key_of short_tag key_tag trim_start trim
    stamp_line first_line split_once drop_return stamped label description
stops_the_machine = refl

nothing_here : (claimed_guests without tag_instance machine_id running_host).0 ≡ ok []
unfolding claimed_guests live_guests node_guests same
nothing_here = refl

alpha-online : online alpha ≡ true
unfolding same
alpha-online = refl

claimed_guests-nil_example :
    ((vms : List ClusterVm) × ((without.cluster_vms true).0 ≡ ok vms)
      × (any (λ (v : ClusterVm). tagged tag_instance machine_id v.guest.tags) vms ≡ false))
    × ((vms : List NodeVm) × In
          (listed node_name (ok vms))
          (claimed_guests without tag_instance machine_id running_host).1.trace
        × (any (λ (v : NodeVm). tagged tag_instance machine_id v.tags) vms ≡ false))
claimed_guests-nil_example =
    claimed_guests-nil without tag_instance machine_id running_host alpha (alpha ∷ []) node_name
      nothing_here refl (inl refl) refl alpha-online

abbrev machine_lease : Written
machine_lease = record { id = machine_id; until_unix = 100 }

abbrev reader : Text → Option (List Written)
reader t = some (machine_lease ∷ [])

abbrev late : ℕ
late = 101_000_000_000

-- The agent has been silent for a minute, and its lock is free.
abbrev unattended : Looks
unattended = record {
  present = found tt;
  lock = taken;
  age = found 60_000_000_000;
  content = found (codes "[…]");
}

-- The agent's lease task holds the lock.
abbrev attended : Looks
attended = record unattended { lock = would_block }

pass-Licensed_example :
    Licensed
      (DueStamp (whole_seconds late) (file_leases reader (found (codes "[…]"))))
      (pass (some with_machine) reader unattended late true running_host).2.trace
pass-Licensed_example =
    pass-Licensed (some with_machine) reader unattended late true running_host tt

pass-idle_example :
    (pass (some with_machine) reader attended late true running_host).2 ≡ running_host
pass-idle_example = pass-idle (some with_machine) reader attended late true running_host refl

act_on-exit_code_example :
    exit_code (act_on (some with_machine) reader (machine_lease ∷ []) true running_host).0 ≡ 0
    ↔ AllSeen with_machine (machine_lease ∷ []) running_host
act_on-exit_code_example = act_on-exit_code with_machine reader (machine_lease ∷ []) running_host
