-- ===== src/HeldView.antt =====
-- src/heldview.rs: the last view kept for a restart of the host, and the machines maintained from it
-- before any Core has answered. The machines' maintenance is the agent's own, a parameter here.
pub mod Boot
use omnuv_provider.Base.{
  ℕ, ◌-◌, Bool, true, false, ◌&&◌, not, List, [], ◌∷◌, map, Option, none, some, if◌then◌else◌, keep,
  is_empty, length, leb, ltb, ◌==◌,
}
use omnuv_provider.Base.Text.{Text, same}
use omnuv_provider.Hypervisor.{Answer, ok, fault}
use omnuv_provider.Lease.{
  InstanceSpec, Lifecycle, running, is_running, Book, Unread, may_restart, seconds,
}
use omnuv_provider.Restore.{View, State, held_at_boot}

abbrev pub future_skew : ℕ
future_skew = seconds 60

pub record Held : Type 0 where
  pub id : Text
  pub intent : Lifecycle

pub record Persisted : Type 0 where
  pub core_url : Text
  pub version : ℕ
  pub asked_unix : ℕ
  pub instances : List Held

-- The view as it is kept, asked for at a whole second.
unfoldable pub of_view : Text → View → ℕ → Persisted
of_view core_url view asked_unix = record {
  core_url = core_url;
  version = view.version;
  asked_unix = asked_unix;
  instances = map (λ (s : InstanceSpec). record { id = s.id; intent = s.intent }) view.instances;
}

-- What reading the file gave.
pub data ViewFile : Type 0 where
  not_read not_parsed : ViewFile
  persisted : Persisted → ViewFile

-- Read strictly: this Core's, and neither too old nor from the future.
unfoldable pub read_held : ViewFile → Text → ℕ → ℕ → Option Persisted
read_held not_read core_url max_age now = none
read_held not_parsed core_url max_age now = none
read_held (persisted held) core_url max_age now =
    let asked = seconds held.asked_unix in
    let in_time =
      if leb asked now then leb (now - asked) max_age else leb (asked - now) future_skew in
    if same held.core_url core_url && in_time then some held else none

unfoldable pub start_each : Book → ℕ → List Held → List InstanceSpec
start_each book now [] = []
start_each book now (h ∷ hs) =
    let rest = start_each book now hs in
    if is_running h.intent && may_restart h.id now book
    then record { id = h.id; intent = running } ∷ rest
    else rest

-- The machines to start: those the view has Running, whose lease does not forbid it.
unfoldable pub to_start : Persisted → Book → ℕ → List InstanceSpec
to_start held book now = start_each book now held.instances

-- What the pass is let through by.
pub record Gates : Type 0 where
  pub file : ViewFile
  pub core_url : Text
  pub max_age : ℕ
  pub leases : Option Unread
  pub lease : Book
  pub restore : State

pub data Pass : Type 0 where
  refused : Pass
  started : ℕ → Pass

module _ {W : Type 0} (maintain : List InstanceSpec → W → Answer ℕ × W) where
  unfoldable pub maintain_those : List InstanceSpec → W → Pass × W
  maintain_those [] w = (started 0, w)
  maintain_those (s ∷ specs) w =
      let (a, w') = maintain (s ∷ specs) w in
      elim a [ ok n ↦ (started n, w') | fault e ↦ (refused, w') ]

  unfoldable pub maintain_held : Gates → ℕ → ℕ → W → Pass × W
  maintain_held g wall now w = elim (read_held g.file g.core_url g.max_age wall) [
    | none ↦ (refused, w)
    | some held ↦ maintain_those (to_start held g.lease now) w
  ]

  unfoldable pub on_restore : Gates → ℕ → ℕ → W → Pass × W
  on_restore g wall now w = elim (held_at_boot g.restore) [
    | some evidence ↦ (refused, w)
    | none ↦ maintain_held g wall now w
  ]

  -- One try, at a wall clock's time and an instant.
  unfoldable pub boot_pass : Gates → ℕ → ℕ → W → Pass × W
  boot_pass g wall now w =
      let opened : Pass × W = elim g.leases [
        | some unread ↦ (refused, w)
        | none ↦ on_restore g wall now w
      ] in
      if g.max_age == 0 then (refused, w) else opened
