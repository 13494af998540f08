-- ===== src/Examples/Rereads.antt =====
-- A machine that Core's newer view wants absent, and an older view that wants it running.
use omnuv_provider.Base.{ℕ, ◌≡◌, refl, true, false, [], ◌∷◌, Option, none, some}
use omnuv_provider.Base.Text.{Text, codes, same}
use omnuv_provider.Hypervisor.{Answer, ok}
use omnuv_provider.Lease.{Lifecycle, running, absent}
use omnuv_provider.Restore.{View, no_head, observe, observed, read_view, wanted_again, told, ended}
use omnuv_provider.Reread.{
  Link, intent_of, taken_if, taken, on_view, intent_now, still_absent, still_running,
}
use omnuv_provider.Reread.Fresh.{Answered, intent_now-Fresh}

abbrev view : ℕ → Lifecycle → View
view n i = record {
  unchanged = false;
  version = n;
  instances = record { id = codes "m"; intent = i } ∷ [];
  inference_workers = [];
}

abbrev before : Link ℕ
before = record {
  world = 0;
  held = some (view 7 running);
  restore = record { armed = false; head = no_head; disk = none; exists = false };
}

abbrev core : View → ℕ → ℕ → Answer (View × Option Text) × ℕ
core v known w = (ok (v, none), w)

still_wanted_absent : (still_absent (core (view 8 absent)) true (codes "m") before).0 ≡ ok true
unfolding still_absent intent_now on_view observe observed read_view wanted_again told ended taken
    taken_if intent_of same
still_wanted_absent = refl

older_view : (still_running (core (view 6 running)) true (codes "m") before).0 ≡ ok false
unfolding still_running intent_now on_view observe observed read_view wanted_again told ended taken
    taken_if intent_of same
older_view = refl

intent_now-Fresh_example :
    Answered
      (core (view 8 absent))
      true
      (codes "m")
      absent
      (core (view 8 absent) 7 0)
      before
      (intent_now (core (view 8 absent)) true (codes "m") before).1
unfolding intent_now on_view observe observed read_view wanted_again told ended taken taken_if
    intent_of same
intent_now-Fresh_example =
    intent_now-Fresh (core (view 8 absent)) true (codes "m") before absent refl
