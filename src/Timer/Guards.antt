-- ===== src/Timer/Guards.antt =====
-- When the host timer touches the hypervisor at all, in crates/onv-lease-expire/src/lib.rs.
use omnuv_provider.Base.{ℕ, ◌≡◌, refl, Bool, true, false, ◌&&◌, List, Option, arith, leb}
use omnuv_provider.Base.Text.{Text}
use omnuv_provider.Hypervisor.{Api, Run}
use omnuv_provider.RunLease.{Written, Body, all_read, not_a_file, unnamed, read_body}
use omnuv_provider.Timer.{
  Look, found, not_there, failed, LockTry, unopened, taken, would_block, lock_error, Looks,
  stale_after, act_on, on_leases, on_body, on_content, on_age, on_held, on_lock, on_present, pass,
}

-- The file was there, its lock was taken, it was written long enough ago, and the run may act.
abbrev pub unlocked : LockTry → Bool
unlocked taken = true
unlocked unopened = false
unlocked would_block = false
unlocked lock_error = false

abbrev pub is_stale : Look ℕ → Bool
is_stale (found age) = leb stale_after age
is_stale not_there = false
is_stale failed = false

abbrev pub may_act : Looks → Bool → Bool
may_act looks act = unlocked looks.lock && is_stale looks.age && act

module _ {W : Type 0} (driver : Option (Api W)) (from_json : Text → Option (List Written)) where
  on_leases-dry :
      (now : ℕ) (ls : List Written) (r : Run W) → (on_leases driver from_json now false ls r).2 ≡ r
  unfolding on_leases act_on
  on_leases-dry now ls r = ground arith

  on_body-dry :
      (now : ℕ) (text : Text) (r : Run W) → (on_body driver from_json now false text r).2 ≡ r
  unfolding on_body
  on_body-dry now text r = go (read_body from_json text) refl
    where
      go :
          (b : Body)
          → read_body from_json text ≡ b
          → (on_body driver from_json now false text r).2 ≡ r
      go (all_read ls) e = rw (e, on_body) (on_leases-dry now ls r)
      go not_a_file e = rw (e, on_body) refl
      go (unnamed n) e = rw (e, on_body) refl

  on_content-dry :
      (now : ℕ) (c : Look Text) (r : Run W) → (on_content driver from_json now false c r).2 ≡ r
  unfolding on_content
  on_content-dry now not_there r = refl
  on_content-dry now failed r = refl
  on_content-dry now (found text) r = on_body-dry now text r

  on_age-idle :
      (now : ℕ) (act : Bool) (a : Look ℕ) (c : Look Text) (r : Run W)
      → (is_stale a && act) ≡ false
      → (on_age driver from_json now act a c r).2 ≡ r
  unfolding on_age
  on_age-idle now act not_there c r h = refl
  on_age-idle now act failed c r h = refl
  on_age-idle now true (found age) c r h = ground arith
  on_age-idle now false (found age) c r h = ground (arith, on_content-dry now c r)

  pub on_held-idle : (a : Look ℕ) (r : Run W) → (on_held driver from_json a r).2 ≡ r
  unfolding on_held
  on_held-idle not_there r = refl
  on_held-idle failed r = refl
  on_held-idle (found age) r = ground arith

  on_lock-idle :
      (now : ℕ) (act : Bool) (l : LockTry) (looks : Looks) (r : Run W)
      → (unlocked l && is_stale looks.age && act) ≡ false
      → (on_lock driver from_json now act l looks r).2 ≡ r
  unfolding on_lock
  on_lock-idle now act unopened looks r h = refl
  on_lock-idle now act lock_error looks r h = refl
  on_lock-idle now act would_block looks r h = on_held-idle looks.age r
  on_lock-idle now act taken looks r h = on_age-idle now act looks.age looks.content r h

  on_present-idle :
      (now : ℕ) (act : Bool) (p : Look (Unit {0})) (looks : Looks) (r : Run W)
      → may_act looks act ≡ false
      → (on_present driver from_json now act p looks r).2 ≡ r
  unfolding on_present
  on_present-idle now act not_there looks r h = refl
  on_present-idle now act failed looks r h = refl
  on_present-idle now act (found _) looks r h = on_lock-idle now act looks.lock looks r h

  -- A run of the timer whose lock is not taken, or whose file was written less than `stale_after`
  -- ago or has no known age, or that is not to act, asks the hypervisor nothing and changes nothing
  -- there, whatever the file says.
  pub pass-idle :
      (looks : Looks) (now : ℕ) (act : Bool) (r : Run W)
      → may_act looks act ≡ false
      → (pass driver from_json looks now act r).2 ≡ r
  unfolding pass
  pass-idle looks now act r h = on_present-idle now act looks.present looks r h
