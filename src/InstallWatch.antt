-- ===== src/InstallWatch.antt =====
-- crates/onv-core-link/src/installwatch.rs: which machines are installing, and when the next pass is owed
-- for them. Instants count nanoseconds.
use omnuv_provider.Base.{
  ℕ, ◌+◌, ◌-◌, Bool, true, false, ◌&&◌, ◌||◌, List, [], ◌∷◌, Option, none, some, if◌then◌else◌, leb,
  or_else,
}
use omnuv_provider.Base.Text.{Text, codes, same}
use omnuv_provider.Base.Assoc.{Assoc, get, insert}
use omnuv_provider.Lease.{seconds}

abbrev pub look_again : ℕ
look_again = seconds 10

abbrev pub stream_max : ℕ
stream_max = seconds 180

abbrev pub unread_max : ℕ
unread_max = seconds 1800

-- One machine, as a pass left it.
pub record Seen : Type 0 where
  pub id : Text
  pub running : Bool
  pub recipe : Bool
  pub progress : Option Text
  pub stream_pending : Bool

pub record InstallWatch : Type 0 where
  pub unread_since : Assoc ℕ
  pub stream_since : Assoc ℕ
  pub installing : Bool

abbrev pub no_watch : InstallWatch
no_watch = record { unread_since = []; stream_since = []; installing = false }

-- Since when the machine is followed, from the watch before, put into the watch being built.
abbrev pub followed : ℕ → ℕ → Text → Assoc ℕ → Assoc ℕ → Assoc ℕ × Bool
followed now longest id before m =
    let since = or_else (get id before) now in (insert id since m, leb (now - since) longest)

unfoldable pub watch_stream : ℕ → Seen → InstallWatch → InstallWatch → InstallWatch
watch_stream now s before w =
    let (m, close) = followed now stream_max s.id before.stream_since w.stream_since in
    if s.stream_pending
    then record w { stream_since = m; installing = w.installing || close }
    else w

unfoldable pub watch_install : ℕ → Seen → InstallWatch → InstallWatch → InstallWatch
watch_install now s before w =
    let (m, close) = followed now unread_max s.id before.unread_since w.unread_since in
    elim s.progress [
      | some p ↦ if same p (codes "running") then record w { installing = true } else w
      | none ↦
          if s.running && s.recipe
          then record w { unread_since = m; installing = w.installing || close }
          else w
    ]

unfoldable pub watch_each : ℕ → List Seen → InstallWatch → InstallWatch → InstallWatch
watch_each now [] before w = w
watch_each now (s ∷ rest) before w =
    watch_each now rest before (watch_install now s before (watch_stream now s before w))

-- What a pass saw. Machines it did not see are forgotten.
unfoldable pub watch_pass : ℕ → List Seen → InstallWatch → InstallWatch
watch_pass now seen before = watch_each now seen before no_watch

unfoldable pub due : ℕ → InstallWatch → Option ℕ
due now w = if w.installing then some (now + look_again) else none
