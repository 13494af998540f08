-- ===== src/Opening/Applied.antt =====
-- What an exit code of the applier, `apply_main` of crates/onv-hostnet/src/opening.rs, promises.
use omnuv_provider.Base.{
  ℕ, ◌≡◌, ◌⊎◌, refl, Bool, true, false, List, [], Option, none, some, arith, Bool-cases, inl, inr,
}
use omnuv_provider.Base.Results.{Result, done, failed}
use omnuv_provider.Base.Text.{Text}
use omnuv_provider.Opening.{OpeningConfig, Checked, Complaint, checked}
use omnuv_provider.Opening.Book.{Machines, File, no_file, unreadable, holds}
use omnuv_provider.Opening.Rules.{Entries, Untrusted, entries}
use omnuv_provider.Opening.Apply.{
  rendered, Table, Kernel, ConfigFile, unread, unparsed, parsed, remove, fallback, counts,
  read_back, load_entries, apply_machines, misplaced, apply_file, apply_on, apply_off,
  apply_checked, apply_main,
}

-- The map that the applier reads in a file.
abbrev pub FileIs : File → Machines → Type 0
FileIs no_file m = m ≡ []
FileIs unreadable m = ⊥
FileIs (holds n) m = m ≡ n

module _ {W : Type 0} (k : Kernel W) where
  -- The kernel holds no table, and the configuration is off.
  abbrev pub Off : Result (List Complaint) (Option Checked) → W → Type 0
  Off r w = (r ≡ done none) × (k.listed w ≡ done none)

  -- Whether the table read back has as many translations and as many masquerades as there are entries.
  abbrev pub has_all : Entries → Result Text (Option Table) → Bool
  has_all es (done (some t)) = counts k es t
  has_all es (done none) = false
  has_all es (failed e) = false

  -- The kernel holds as many translations and masquerades as the file has trusted entries.
  abbrev pub On : Result (List Complaint) (Option Checked) → File → W → Type 0
  On r f w =
      (c : Checked) × (m : Machines) × (es : Entries) × (r ≡ done (some c))
      × FileIs f m
      × (entries c m ≡ done es)
      × (has_all es (k.listed w) ≡ true)

  fallback-code : (print : Bool) (code : ℕ) (w : W) → (fallback k print code w).0 ≡ code
  unfolding fallback
  fallback-code print code w = ground arith

  remove-lem : (w : W) → (remove k w).0 ≡ true → k.listed (remove k w).1 ≡ done none
  unfolding remove
  remove-lem w h = ground arith

  off_zero : (w : W) → (apply_off k false w).0 ≡ 0 → k.listed (apply_off k false w).1 ≡ done none
  unfolding apply_off
  off_zero w h = ground (arith, remove-lem w)

  read_back-zero :
      (es : Entries) (w : W)
      → (read_back k es w).0 ≡ 0
      → has_all es (k.listed (read_back k es w).1) ≡ true
  unfolding read_back
  read_back-zero es w h = ground (arith, fallback-code false 1 w)

  load_entries-zero :
      (c : Checked) (es : Entries) (w : W)
      → (load_entries k false c es w).0 ≡ 0
      → has_all es (k.listed (load_entries k false c es w).1) ≡ true
  unfolding load_entries
  load_entries-zero c es w h = ground (
    arith,
    read_back-zero es (k.load (rendered c es) w).1,
    fallback-code false 1 (k.load (rendered c es) w).1,
  )

  apply_machines-zero :
      (c : Checked) (m : Machines) (w : W)
      → (apply_machines k false c m w).0 ≡ 0
      → (es : Entries) × (entries c m ≡ done es)
        × (has_all es (k.listed (apply_machines k false c m w).1) ≡ true)
  unfolding apply_machines
  apply_machines-zero c m w h = go (entries c m) refl
    where
      go :
          (r : Result Untrusted Entries)
          → entries c m ≡ r
          → (es : Entries) × (entries c m ≡ done es)
            × (has_all es (k.listed (apply_machines k false c m w).1) ≡ true)
      go (failed e) q = absurd (ground (arith, fallback-code false 1 w))
      go (done es) q = (es, q, ground (arith, load_entries-zero c es w))

  apply_file-zero :
      (c : Checked) (f : File) (w : W)
      → (apply_file k false c f w).0 ≡ 0
      → (m : Machines) × (es : Entries) × FileIs f m
        × (entries c m ≡ done es)
        × (has_all es (k.listed (apply_file k false c f w).1) ≡ true)
  unfolding apply_file
  apply_file-zero c no_file w h =
      let (es, e, t) = apply_machines-zero c [] w h in ([], es, refl, e, t)
  apply_file-zero c unreadable w h = absurd (ground (arith, fallback-code false 1 w))
  apply_file-zero c (holds m) w h =
      let (es, e, t) = apply_machines-zero c m w h in (m, es, refl, e, t)

  apply_on-zero :
      (c : Checked) (f : File) (w : W)
      → (apply_on k false c f w).0 ≡ 0
      → On (done (some c)) f (apply_on k false c f w).1
  unfolding apply_on
  apply_on-zero c f w h = elim (Bool-cases (misplaced k false c)) [
    | inl refusal ↦ absurd (ground (arith, fallback-code false 1 w))
    | inr fine ↦
        let (m, es, i, e, t) = apply_file-zero c f w (ground arith) in
        (c, m, es, refl, i, e, rw fine t)
  ]

  apply_checked-zero :
      (r : Result (List Complaint) (Option Checked)) (f : File) (w : W)
      → (apply_checked k false r f w).0 ≡ 0
      → Off r (apply_checked k false r f w).1 ⊎ On r f (apply_checked k false r f w).1
  unfolding apply_checked
  apply_checked-zero (done (some c)) f w h = inr (apply_on-zero c f w h)
  apply_checked-zero (done none) f w h = inl (refl, off_zero w h)
  apply_checked-zero (failed bad) f w h = absurd (ground (arith, fallback-code false 2 w))

  -- A run that is not a print and exits 0 leaves no table in the kernel when the configuration is off,
  -- and otherwise a table that lists as many translations and as many masquerades as the file, whose
  -- every entry is trusted, has machines with an address.
  pub apply_main-zero :
      (cf : ConfigFile) (f : File) (w : W)
      → (apply_main k cf f false w).0 ≡ 0
      → (cfg : OpeningConfig) × (cf ≡ parsed cfg)
        × (Off (checked cfg) (apply_main k cf f false w).1
            ⊎ On (checked cfg) f (apply_main k cf f false w).1)
  unfolding apply_main
  apply_main-zero unread f w h = absurd (ground (arith, fallback-code false 1 w))
  apply_main-zero unparsed f w h = absurd (ground (arith, fallback-code false 2 w))
  apply_main-zero (parsed cfg) f w h = (cfg, refl, apply_checked-zero (checked cfg) f w h)

  fallback_print : (code : ℕ) (w : W) → (fallback k true code w).1 ≡ w
  unfolding fallback
  fallback_print code w = refl

  apply_machines_print : (c : Checked) (m : Machines) (w : W) → (apply_machines k true c m w).1 ≡ w
  unfolding apply_machines load_entries
  apply_machines_print c m w = ground (arith, fallback_print 1 w)

  apply_file_print : (c : Checked) (f : File) (w : W) → (apply_file k true c f w).1 ≡ w
  unfolding apply_file
  apply_file_print c no_file w = apply_machines_print c [] w
  apply_file_print c unreadable w = fallback_print 1 w
  apply_file_print c (holds m) w = apply_machines_print c m w

  apply_checked_print :
      (r : Result (List Complaint) (Option Checked)) (f : File) (w : W)
      → (apply_checked k true r f w).1 ≡ w
  unfolding apply_checked apply_on apply_off
  apply_checked_print (done (some c)) f w =
      ground (arith, fallback_print 1 w, apply_file_print c f w)
  apply_checked_print (done none) f w = refl
  apply_checked_print (failed bad) f w = fallback_print 2 w

  -- A print changes nothing in the kernel.
  pub apply_main-print : (cf : ConfigFile) (f : File) (w : W) → (apply_main k cf f true w).1 ≡ w
  unfolding apply_main
  apply_main-print unread f w = fallback_print 1 w
  apply_main-print unparsed f w = fallback_print 2 w
  apply_main-print (parsed cfg) f w = apply_checked_print (checked cfg) f w
