-- ===== src/Examples/Deletes.antt =====
-- The delete of the machine of `Host`, with a disk that keeps its tombstone and one that cannot.
use omnuv_provider.Base.{
  suc, List, ◌+◌, ℕ, ◌≡◌, refl, Bool, true, false, [], ◌∷◌, none, some, arith,
}
use omnuv_provider.Base.Text.{
  Text, codes, same, split, split_once, drop_return, first_line, strip_prefix, trim, trim_start,
}
use omnuv_provider.Names.{
  tag_instance, description, stamped, label, tags, carries_key, is_key_of, short_tag, key_tag,
}
use omnuv_provider.Hypervisor.{ok, ClusterVm, Api}
use omnuv_provider.Lease.{sort}
use omnuv_provider.Leased.{
  tagged, claimed_guests, node_guests, live_guests, live_status, stamp_line,
}
use omnuv_provider.Volumes.{disk_volids, volids_where, dedup_texts, is_numbered}
use omnuv_provider.Teardown.{
  Doomed, hour, destroy, licence, licence_found, licence_one, stamped_guests, stamped_among,
  within_hour, destroy_it, destroy_running, started_destroy_allowed, stop_first, delete_it,
}
use omnuv_provider.Teardown.Destroys.{Careful, destroy_it-Careful, Allowed, licence-Allowed}
use omnuv_provider.Teardown.Hourly.{Destroying, Spaced, destroy_log, destroy_log-Spaced}
use omnuv_provider.Tombs.{
  Tombstone, Journal, no_bytes, proven, Agent, Times, Order, blank, tomb_file, concluded, push_new,
  its_volumes, examine, prove, tear_down, read_tomb, on_licence, on_doomed, destroyed_seen,
}
use omnuv_provider.Tombs.Proof.{Fit, tear_down-Fit}
use omnuv_provider.Tombs.Conclusions.{touched, tear_down-unsaved, prove-proven}
use omnuv_provider.Examples.Host.{
  machine_id, node_name, machine, with_machine, without, running_host,
}

abbrev doomed : Doomed
doomed = record { node = node_name; vmid = 101; volids = [] }

destroy_it-Careful_example :
    Careful node_name 101 (destroy_it with_machine 3 doomed 5 6 [] running_host).2.trace
destroy_it-Careful_example = destroy_it-Careful with_machine 3 doomed 5 6 [] running_host tt

-- Three destroys of a running machine with a cap of one: the second finds no room, the third comes an hour
-- after the first.
abbrev order_at : ℕ → Destroying Bool
order_at t = record { doomed = doomed; now = t; done = suc t; run = running_host }

abbrev orders : List (Destroying Bool)
orders = order_at 5 ∷ order_at 7 ∷ order_at (6 + hour) ∷ []

destroyed_twice : destroy_log with_machine 1 orders [] [] ≡ (7 + hour) ∷ 6 ∷ []
unfolding destroy_log destroy_it destroy_running started_destroy_allowed within_hour stop_first
    delete_it live_status same
destroyed_twice = refl

destroy_log-Spaced_example : Spaced 1 (destroy_log with_machine 1 orders [] [])
destroy_log-Spaced_example =
    destroy_log-Spaced with_machine 1 orders (omega arith)
      (omega arith, omega arith, (omega arith, omega arith, (omega arith, omega arith, tt)))

licensed : (licence with_machine tag_instance machine_id [] running_host).0 ≡ ok (destroy doomed)
unfolding licence licence_found licence_one claimed_guests tagged carries_key same split tags
    is_key_of short_tag key_tag trim_start trim stamp_line first_line split_once drop_return stamped
    label description disk_volids volids_where dedup_texts sort is_numbered strip_prefix
licensed = refl

licence-Allowed_example : Allowed with_machine tag_instance machine_id [] running_host doomed
licence-Allowed_example =
    licence-Allowed with_machine tag_instance machine_id [] running_host doomed licensed

-- A disk that keeps whatever is written, or nothing.
abbrev disk : Bool → Journal ℕ
disk writes = record { load = λ name d. no_bytes; save = λ name t d. (writes, d) }

abbrev order : Order Bool
order = record {
  kind = tag_instance;
  id = machine_id;
  snippets = [];
  live_tags = [];
  reread = λ w. (ok true, w);
  most = 0;
}

abbrev times : Times
times = record { recorded = 1; destroyed = 2; proven = 3; asked = 4; done = 5 }

abbrev agent : Agent Bool ℕ
agent = record { run = running_host; disk = 0; destroys = [] }

tear_down-Fit_example :
    Fit tag_instance machine_id (tear_down with_machine (disk true) order times agent).1.run.trace
tear_down-Fit_example = tear_down-Fit with_machine (disk true) order times agent tt

-- That pass stops the machine and destroys it.
deletes : touched (tear_down with_machine (disk true) order times agent).1.run.trace ≡ 2
unfolding tear_down read_tomb on_licence on_doomed destroyed_seen destroy_it destroy_running
    started_destroy_allowed stop_first delete_it live_status tomb_file push_new licence
    licence_found licence_one claimed_guests tagged carries_key same split tags is_key_of short_tag
    key_tag trim_start trim stamp_line first_line split_once drop_return stamped label description
deletes = refl

tear_down-unsaved_example :
    touched (tear_down with_machine (disk false) order times agent).1.run.trace ≡ 0
tear_down-unsaved_example =
    tear_down-unsaved with_machine (disk false) order times (λ t d. refl) agent

abbrev tomb : Tombstone
tomb = blank tag_instance machine_id

is_gone : (prove without (disk true) order times tomb agent).0 ≡ ok proven
unfolding prove examine claimed_guests live_guests node_guests same stamped_guests stamped_among
    its_volumes concluded push_new tomb_file
is_gone = refl

prove-proven_example :
    ((claimed_guests without tag_instance machine_id running_host).0 ≡ ok [])
    × ((stamped_guests without tag_instance machine_id
          (claimed_guests without tag_instance machine_id running_host).1).0
        ≡ ok [])
    × (order.snippets ≡ [])
prove-proven_example = prove-proven without (disk true) order times tomb agent is_gone

abbrev volume : Text
volume = codes "local:vm-101-disk-0"

abbrev storing : Api Bool
storing = record with_machine { content = λ n s w. (ok (some volume ∷ []), w) }

abbrev vm : ClusterVm
vm = record { guest = machine; pool = none; kind = none }
