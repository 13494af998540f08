-- ===== src/Examples/Scrubs.antt =====
-- A node with the guest of one scrub, whose program has said `clean`; and the abandoned lease file of a
-- machine.
use omnuv_provider.Base.{
  false, ◌==◌, any, ℕ, ◌+◌, ◌*◌, ◌≤◌, ◌≡◌, refl, Bool, true, List, [], ◌∷◌, ◌++◌, Option, none,
  some, all, arith,
}
use omnuv_provider.Base.Text.{
  Text, codes, same, split, split_once, drop_return, first_line, strip_prefix, trim, trim_start,
  is_space,
}
use omnuv_provider.Base.Decimal.{parse_uint, scan}
use omnuv_provider.Names.{
  tag_scrub, stamped, label, tags, carries_key, is_key_of, short_tag, key_tag, pool,
}
use omnuv_provider.Hypervisor.{Event, sent_destroy, ok, Config, ClusterVm, Api, Run}
use omnuv_provider.RunLease.{Written, all_read, read_body, first_unnamed}
use omnuv_provider.Lease.{seconds}
use omnuv_provider.Leased.{
  live_guests, node_guests, tagged, claimed_guests, stamp_line, live_status,
}
use omnuv_provider.Teardown.{destroy_it, destroy_running, delete_it}
use omnuv_provider.Scrub.{
  pos, Wanted, clean, nothing_added, GuestReport, step, Said, attempt_of, scrub_of, find_attempt,
  lines, line_ends, parse_i32,
}
use omnuv_provider.Scrub.Pass.{
  scrub_each, start_scrub, start_from, card_free, sweep, sweep_each, Env, Bench, scrub_one,
  on_guests, on_config, look, read_report, conclude, remove_guest, stop_it, destroy_now, scrub_pass,
  is_wanted,
}
use omnuv_provider.Scrub.Rule.{ScrubsOnly}
use omnuv_provider.Scrub.Safe.{scrub_pass-ScrubsOnly}
use omnuv_provider.Scrub.Build.{
  broken, build, await_clone, on_end, abandon_clone, on_abandoned, take_away, stopping, deleting,
  settle, volumes_left, ended, Builder,
}
use omnuv_provider.Gate.{Readings}
use omnuv_provider.Scrub.Looks.{Tells, scrub_one-Tells, OncePer, scrub_pass-OncePer}
use omnuv_provider.Timer.{every, whole_seconds, due_leases, pass}
use omnuv_provider.Timer.Due.{past}
use omnuv_provider.Timer.Deadline.{abandoned, Asks, stopped_by_deadline}
use omnuv_provider.Examples.Host.{machine_id, node_name, without, with_machine}

abbrev scrub_id : Text
scrub_id = codes "c0ffee"

abbrev wanted : Wanted
wanted = record {
  id = scrub_id;
  attempt = pos 1;
  card = codes "0000:05:00.0";
  node = node_name;
  model = codes "m";
  image = codes "i";
}

abbrev scrub_tags : Option Text
scrub_tags = some (tags tag_scrub scrub_id none)

abbrev scrub_guest : ClusterVm
scrub_guest = record {
  guest = record { node = node_name; vmid = 200; tags = scrub_tags };
  pool = some pool;
  kind = none;
}

abbrev scrub_config : Config
scrub_config =
    (codes "description", some (stamped tag_scrub scrub_id ++ (10 ∷ codes "attempt 1"))) ∷ []

-- The state says whether the guest runs.
abbrev api : Api Bool
api = record without {
  cluster_vms = λ w. (ok (scrub_guest ∷ []), w);
  config = λ n v w. (ok scrub_config, w);
}

abbrev clean_report : GuestReport
clean_report = record {
  status = codes "clean";
  stage = [];
  uptime_s = 90;
  cards = 1;
  total_mib = 100;
  covered_mib = 100;
  residue_mib = 0;
  verified = true;
  detail = [];
}

abbrev quiet_readings : Readings
quiet_readings = record {
  active = some [];
  config = some scrub_config;
  vnets = some [];
  zone_content = λ z. some [];
  network = some [];
  vms = some [];
  configs = λ v. none;
}

abbrev builder : Builder Bool
builder = record {
  next_id = λ w. (ok 201, w);
  write_pending = λ v w. (ok tt, w);
  remove_pending = λ v w. w;
  clone = λ n t f w. (ok (codes "UPID:clone"), w);
  task_end = λ n u w. (ended, w);
  set_config = λ n v f w. (ok none, w);
  looks = λ n v w. ((λ i. quiet_readings), w);
  start = λ n v w. (ok (codes "UPID:start"), w);
  gate_looks = 3;
  storage = codes "local";
  environment = none;
}

abbrev env : Env Bool
env = record {
  api = api;
  current = λ n v w. (ok (record { status = some (codes "running"); uptime = some 90 }), w);
  guest_file = λ n v w. (some [], w);
  report_of = λ t. some clean_report;
  template_for = λ i. none;
  create_nodes = λ w. (ok [], w);
  builder = builder;
  most = 0;
  deadline = 600;
  clock = λ n. n;
}

abbrev bench : Bench Bool
bench = record { run = record { world = true; trace = [] }; destroys = []; readings = 0 }

abbrev said : Said
said = record {
  id = scrub_id;
  attempt = pos 1;
  outcome = clean;
  detail = record { measured = some clean_report; added = nothing_added };
  guest_uptime_s = 90;
}

said_clean : (scrub_one env wanted bench).0 ≡ ok (some said)
unfolding scrub_one on_guests on_config look read_report conclude remove_guest stop_it destroy_now
    claimed_guests tagged stamp_line live_status destroy_it destroy_running delete_it attempt_of
    scrub_of find_attempt lines line_ends parse_i32 step tags carries_key is_key_of short_tag
    key_tag same split split_once drop_return first_line strip_prefix trim trim_start is_space
    parse_uint scan stamped label
said_clean = refl

scrub_one-Tells_example : Tells env wanted said (scrub_one env wanted bench).1.run.trace
scrub_one-Tells_example = scrub_one-Tells env wanted bench said said_clean

-- A cluster where the scrub has no guest yet, and the clone of one fails.
abbrev failing : Env Bool
failing = record env {
  api = record without { config = λ n v w. (ok scrub_config, w) };
  template_for = λ i. some 9;
  create_nodes = λ w. (ok (node_name ∷ []), w);
  builder = record builder { task_end = λ n u w. (broken, w) };
}

abbrev is_destroy : Event → Bool
is_destroy (sent_destroy n v) = v == 201
is_destroy _ = false

rolled_back : any is_destroy (scrub_pass failing (wanted ∷ []) [] bench).1.run.trace ≡ true
unfolding scrub_pass scrub_each scrub_one on_guests start_scrub start_from card_free build
    await_clone on_end abandon_clone on_abandoned take_away stopping deleting settle sweep
    sweep_each claimed_guests live_guests node_guests stamp_line live_status same split split_once
    drop_return first_line strip_prefix trim trim_start is_space stamped label volumes_left
rolled_back = refl

scrub_pass-ScrubsOnly_example : ScrubsOnly (scrub_pass failing (wanted ∷ []) [] bench).1.run.trace
scrub_pass-ScrubsOnly_example = scrub_pass-ScrubsOnly failing (wanted ∷ []) [] bench tt

scrub_pass-OncePer_example :
    OncePer (scrub_pass env (wanted ∷ []) [] bench).0
    × (all (is_wanted env (wanted ∷ [])) (scrub_pass env (wanted ∷ []) [] bench).0 ≡ true)
scrub_pass-OncePer_example = scrub_pass-OncePer env (wanted ∷ []) [] bench tt

-- A lease that ends at second 1000, last written at 1020; the timer began at 30.
abbrev leases : List Written
leases = record { id = machine_id; until_unix = 1000 } ∷ []

abbrev from_json : Text → Option (List Written)
from_json t = some leases

abbrev body : Text
body = codes "{}"

body_read : read_body from_json body ≡ all_read leases
unfolding read_body first_unnamed trim trim_start is_space
body_read = refl

lease_past : past 1000 machine_id leases ≡ true
unfolding same
lease_past = refl

stopped_by_deadline_example :
    (k : ℕ) × (seconds 30 + k * every ≤ seconds (1000 + 150))
    × ((r : Run Bool)
        → Asks
            (some with_machine)
            from_json
            with_machine
            machine_id
            (due_leases (whole_seconds (seconds 30 + k * every)) leases)
            r
            (pass
              (some with_machine)
              from_json
              (abandoned body (seconds 1020) (seconds 30 + k * every))
              (seconds 30 + k * every)
              true
              r).2)
stopped_by_deadline_example =
    stopped_by_deadline (some with_machine) from_json with_machine body leases machine_id 1000
      (seconds 1020) (seconds 30) refl body_read lease_past (omega arith) (omega arith)
