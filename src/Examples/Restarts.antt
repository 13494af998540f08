-- ===== src/Examples/Restarts.antt =====
-- A machine whose reboot Core asks for once, with the write of its outcome failing.
use omnuv_provider.Base.{
  ℕ, suc, ◌+◌, ◌≤◌, ◌≡◌, refl, true, false, [], ◌∷◌, none, some, if◌then◌else◌,
}
use omnuv_provider.Base.Text.{Text, codes, same}
use omnuv_provider.Hypervisor.{ok}
use omnuv_provider.Reboots.{
  happened, Calls, Seat, recorded, read, write, finish, post, asked, ask_reboot, on_record,
  reboot_pass,
}
use omnuv_provider.Reboots.Pass.{misread}
use omnuv_provider.Reboots.Once.{times, start, later, core_names, passes, Reached-once}

-- The world is the clock; the outcome cannot be written.
abbrev calls : Calls ℕ
calls = record {
  now = λ w. w;
  read = λ w. (true, w);
  write = λ r w. (if r.is_done then false else true, w);
  remove = λ w. (true, w);
  post = λ w. (ok (codes "UPID:1"), w);
  wait = λ u w. (ok tt, w);
}

abbrev token : Text
token = codes "t-1"

abbrev fresh : Seat ℕ
fresh = record { world = 1000; journal = none; sent = [] }

abbrev asked_once : Seat ℕ
asked_once = record {
  world = 1000;
  journal = some (record { token = token; asked_at = 1000; is_done = false });
  sent = token ∷ [];
}

first_pass : (reboot_pass calls (some token) true (some 3600) fresh).1 ≡ asked_once
unfolding reboot_pass read recorded on_record ask_reboot write asked post finish same
first_pass = refl

second_pass : (reboot_pass calls (some token) true (some 3600) asked_once).1 ≡ asked_once
unfolding reboot_pass read recorded on_record happened ask_reboot write asked post finish same
second_pass = refl

Reached-once_example :
    times token (reboot_pass calls (some token) true none fresh).1.sent
    ≤ suc (0 + misread calls (some token) true fresh)
Reached-once_example =
    Reached-once calls (later (later (start 1000 none) (core_names token refl)) (passes true none))
      token
