-- ===== src/Opening/Apply.antt =====
-- crates/onv-hostnet/src/opening.rs: one run of the applier, `apply_main`, with its exit code. `nft` and
-- the kernel's table, getifaddrs and the reads of the two files are parameters.
use omnuv_provider.Base.{
  ℕ, Bool, true, false, ◌&&◌, not, List, [], Option, none, some, if◌then◌else◌, length, ◌==◌,
}
use omnuv_provider.Base.Results.{Result, done, failed}
use omnuv_provider.Base.Text.{Text}
use omnuv_provider.Opening.{Reach, public, forwarded, OpeningConfig, Checked, Complaint, checked}
use omnuv_provider.Opening.Book.{Machines, File, no_file, unreadable, holds}
use omnuv_provider.Opening.Rules.{Entries, entries}

-- The script that nft loads: the table whole, or only its delete.
pub data Script : Type 0 where
  deleted : Script
  rendered : Checked → Entries → Script

-- A table as nft lists it: how many translations and masquerades it names.
pub record Table : Type 0 where
  pub dnats : ℕ
  pub masquerades : ℕ

-- The kernel and nft, whose state is `W`: a load works or not, and a listing answers a table, no table,
-- or fails.
pub record Kernel (W : Type 0) : Type 0 where
  pub load : Script → W → Bool × W
  pub listed : W → Result Text (Option Table)
  pub has_address : Checked → Bool

-- `agent.yaml`: not there, not parsed, or its `opening` block.
pub data ConfigFile : Type 0 where
  unread : ConfigFile
  unparsed : ConfigFile
  parsed : OpeningConfig → ConfigFile

module _ {W : Type 0} (k : Kernel W) where
  -- The table is removed, and proved gone.
  unfoldable pub remove : W → Bool × W
  remove w =
      let (ok, w') = k.load deleted w in
      if ok
      then (elim (k.listed w') [ done none ↦ true | done (some t) ↦ false | failed e ↦ false ], w')
      else (false, w')

  unfoldable pub fallback : Bool → ℕ → W → ℕ × W
  fallback print code w = if print then (code, w) else (code, (remove w).1)

  abbrev pub counts : Entries → Table → Bool
  counts es t = (t.dnats == length es) && (t.masquerades == length es)

  -- After the load: the rules read back are counted.
  unfoldable pub read_back : Entries → W → ℕ × W
  read_back es w = elim (k.listed w) [
    | done (some t) ↦ if counts es t then (0, w) else fallback false 1 w
    | done none ↦ fallback false 1 w
    | failed e ↦ fallback false 1 w
  ]

  unfoldable pub load_entries : Bool → Checked → Entries → W → ℕ × W
  load_entries print c es w =
      let (ok, w') = k.load (rendered c es) w in
      if print then (0, w) else if ok then read_back es w' else fallback false 1 w'

  unfoldable pub apply_machines : Bool → Checked → Machines → W → ℕ × W
  apply_machines print c m w = elim (entries c m) [
    | failed e ↦ fallback print 1 w
    | done es ↦ load_entries print c es w
  ]

  abbrev pub is_public : Reach → Bool
  is_public public = true
  is_public forwarded = false

  -- A public address that is not on the interface.
  unfoldable pub misplaced : Bool → Checked → Bool
  misplaced print c = is_public c.reach && not print && not (k.has_address c)

  unfoldable pub apply_file : Bool → Checked → File → W → ℕ × W
  apply_file print c no_file w = apply_machines print c [] w
  apply_file print c unreadable w = fallback print 1 w
  apply_file print c (holds m) w = apply_machines print c m w

  unfoldable pub apply_on : Bool → Checked → File → W → ℕ × W
  apply_on print c f w = if misplaced print c then fallback print 1 w else apply_file print c f w

  unfoldable pub apply_off : Bool → W → ℕ × W
  apply_off print w =
      let (ok, w') = remove w in if print then (0, w) else if ok then (0, w') else (1, w')

  unfoldable pub apply_checked : Bool → Result (List Complaint) (Option Checked) → File → W → ℕ × W
  apply_checked print (done (some c)) f w = apply_on print c f w
  apply_checked print (done none) f w = apply_off print w
  apply_checked print (failed bad) f w = fallback print 2 w

  unfoldable pub apply_main : ConfigFile → File → Bool → W → ℕ × W
  apply_main unread f print w = fallback print 1 w
  apply_main unparsed f print w = fallback print 2 w
  apply_main (parsed cfg) f print w = apply_checked print (checked cfg) f w
