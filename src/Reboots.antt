-- ===== src/Reboots.antt =====
-- Reboots of a machine, each once per token: crates/onv-driver-proxmox/src/reboots.rs, and the part of
-- `ensure_instance_gated` of src/instance.rs that asks for them. The calls of one machine are a
-- parameter, with whether its file can be read and parses: one that does not reads as if it were missing.
pub mod Pass
pub mod Once
use omnuv_provider.Base.{
  ℕ, ◌+◌, ◌-◌, Bool, true, false, List, ◌∷◌, Option, none, some, if◌then◌else◌, leb,
}
use omnuv_provider.Base.Text.{Text, same}
use omnuv_provider.Hypervisor.{Answer, ok, fault, unwritten}

pub record Reboot : Type 0 where
  pub token : Text
  pub asked_at : ℕ
  pub is_done : Bool

-- An unknown uptime is not an observation.
unfoldable pub happened : Reboot → Option ℕ → ℕ → Bool
happened r none now = false
happened r (some up) now = leb up (now - r.asked_at + 5)

-- One machine's calls, and whether a reading, a write or a removal of its file works.
pub record Calls (W : Type 0) : Type 0 where
  pub now : W → ℕ
  pub read : W → Bool × W
  pub write : Reboot → W → Bool × W
  pub remove : W → Bool × W
  pub post : W → Answer Text × W
  pub wait : Text → W → Answer (Unit {0}) × W

-- The world, the machine's file, and the tokens of the requests sent, newest first.
pub record Seat (W : Type 0) : Type 0 where
  pub world : W
  pub journal : Option Reboot
  pub sent : List Text

abbrev pub Echo : Type 0 → Type 0
Echo W = Answer (Option Text) × Seat W

-- What was read, if it is the token's.
unfoldable pub recorded : Text → Option Reboot → Option Reboot
recorded token none = none
recorded token (some r) = if same r.token token then some r else none

module _ {W : Type 0} (c : Calls W) where
  -- A record that is not read is taken for none.
  unfoldable pub read : Seat W → Option Reboot × Seat W
  read s =
      let (works, w) = c.read s.world in (if works then s.journal else none, record s { world = w })

  -- A temporary file and a rename: the new record, or the old one.
  unfoldable pub write : Reboot → Seat W → Bool × Seat W
  write r s =
      let (works, w) = c.write r s.world in
      if works
      then (true, record s { world = w; journal = some r })
      else (false, record s { world = w })

  unfoldable pub remove : Seat W → Seat W
  remove s =
      let (works, w) = c.remove s.world in
      if works then record s { world = w; journal = none } else record s { world = w }

  abbrev pub echoed : Text → Bool × Seat W → Echo W
  echoed token (true, s) = (ok (some token), s)
  echoed token (false, s) = (fault (unwritten token), s)

  -- It happened: written, and echoed.
  unfoldable pub finish : Text → Reboot → Seat W → Echo W
  finish token r s = echoed token (write (record r { is_done = true }) s)

  abbrev pub waited : Text → Reboot → Answer (Unit {0}) × W → Seat W → Echo W
  waited token asked (ok _, w) s = finish token asked (record s { world = w })
  waited token asked (fault e, w) s = (fault e, record s { world = w })

  abbrev pub requested : Text → Reboot → Answer Text × Seat W → Echo W
  requested token asked (ok upid, s) = waited token asked (c.wait upid s.world) s
  requested token asked (fault e, s) = (fault e, s)

  -- The request itself.
  unfoldable pub post : Text → Seat W → Answer Text × Seat W
  post token s = let (a, w) = c.post s.world in (a, record s { world = w; sent = token ∷ s.sent })

  unfoldable pub asked : Text → Seat W → Reboot
  asked token s = record { token = token; asked_at = c.now s.world; is_done = false }

  abbrev pub journalled : Text → Reboot → Bool × Seat W → Echo W
  journalled token r (true, s) = requested token r (post token s)
  journalled token r (false, s) = (fault (unwritten token), s)

  -- No record, no reboot.
  unfoldable pub ask_reboot : Text → Seat W → Echo W
  ask_reboot token s = let r = asked token s in journalled token r (write r s)

  unfoldable pub on_record : Option Reboot → Text → Option ℕ → Seat W → Echo W
  on_record none token uptime s = ask_reboot token s
  on_record (some r) token uptime s =
      if r.is_done
      then (ok (some token), s)
      else if happened r uptime (c.now s.world)
      then finish token r s
      else (ok none, s)

  -- The pass: the token Core asks with, whether the machine runs and is to, and its uptime.
  unfoldable pub reboot_pass : Option Text → Bool → Option ℕ → Seat W → Echo W
  reboot_pass none runs uptime s = (ok none, remove s)
  reboot_pass (some token) false uptime s = (ok none, s)
  reboot_pass (some token) true uptime s =
      let (found, s') = read s in on_record (recorded token found) token uptime s'
