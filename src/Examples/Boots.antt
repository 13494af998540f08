-- ===== src/Examples/Boots.antt =====
-- A host that starts again while Core cannot be reached.
use omnuv_provider.Base.{ℕ, ◌≡◌, ◌⊎◌, refl, true, false, List, [], ◌∷◌, none, some, arith, ◌+◌}
use omnuv_provider.Base.Text.{codes, same}
use omnuv_provider.Base.Assoc.{get, Unique}
use omnuv_provider.Hypervisor.{Answer, ok}
use omnuv_provider.Lease.{Book, InstanceSpec, running, seconds, expired, sort, missing}
use omnuv_provider.Lease.Expiry.{member}
use omnuv_provider.Restore.{unread, load}
use omnuv_provider.HeldView.{Persisted, persisted, refused, Gates, to_start, boot_pass}
use omnuv_provider.HeldView.Boot.{starts, to_start-expired, Open, boot_pass-Open}
use omnuv_provider.Examples.Host.{machine_id}

abbrev book : Book
book = record {
  pending = none;
  leases =
      (machine_id, record { deadline = seconds 60; wall = seconds 1060; stopped = false }) ∷ [];
}

abbrev view : Persisted
view = record {
  core_url = codes "https://core";
  version = 7;
  asked_unix = 1000;
  instances = record { id = machine_id; intent = running } ∷ [];
}

book-Unique : Unique book.leases
unfolding get
book-Unique = (refl, tt)

ran_out : member machine_id (expired (seconds 61) book) ≡ true
unfolding expired sort same
ran_out = refl

to_start-expired_example : starts machine_id (to_start view book (seconds 62)) ≡ false
to_start-expired_example =
    to_start-expired view book (seconds 61) (seconds 62) machine_id book-Unique ran_out
      (omega arith)

-- The lease file could not be found, so which machines ran under a lease is not known.
abbrev gates : Gates
gates = record {
  file = persisted view;
  core_url = codes "https://core";
  max_age = seconds 900;
  leases = some missing;
  lease = book;
  restore = load unread false;
}

abbrev maintain : List InstanceSpec → ℕ → Answer ℕ × ℕ
maintain specs w = (ok 1, w + 1)

boot_pass-Open_example :
    (boot_pass maintain gates (seconds 1000) (seconds 61) 0 ≡ (refused, 0))
    ⊎ Open gates (seconds 1000)
boot_pass-Open_example = boot_pass-Open maintain gates (seconds 1000) (seconds 61) 0
