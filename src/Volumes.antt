-- ===== src/Volumes.antt =====
-- src/teardown.rs: the volumes a guest's configuration names, and the number a volume's name carries.
use omnuv_provider.Base.{
  ℕ, Bool, true, false, ◌&&◌, not, List, [], ◌∷◌, ◌++◌, Option, none, some, if◌then◌else◌, any, all,
  is_empty, is_some, ◌==◌,
}
use omnuv_provider.Base.Text.{Text, codes, same, is_digit, strip_prefix, split_once, span}
use omnuv_provider.Base.Decimal.{parse_uint, u32_bound}
use omnuv_provider.Hypervisor.{Config}
use omnuv_provider.Lease.{sort}

abbrev pub slots : List Text
slots =
    codes "scsi"
    ∷ codes "virtio"
    ∷ codes "sata"
    ∷ codes "ide"
    ∷ codes "unused"
    ∷ codes "efidisk"
    ∷ codes "tpmstate"
    ∷ []

abbrev pub is_number : Text → Bool
is_number n = not (is_empty n) && all is_digit n

-- `strip_prefix(p).is_some_and(…)`: the prefix and then digits, at least one.
unfoldable pub is_numbered : Text → Text → Bool
is_numbered k p = elim (strip_prefix p k) [ none ↦ false | some n ↦ is_number n ]

abbrev pub is_slot : Text → Bool
is_slot k = any (is_numbered k) slots

-- `contains`
unfoldable pub contains_text : Text → Text → Bool
contains_text needle [] = is_some (strip_prefix needle [])
contains_text needle (c ∷ s) =
    if is_some (strip_prefix needle (c ∷ s)) then true else contains_text needle s

-- `split(',').next()`
unfoldable pub volid_of : Text → Text
volid_of v = (span (λ c. not (c == b',')) v).0

unfoldable pub is_disk : Text → Bool
is_disk volid =
    contains_text (codes ":") volid
    && not (contains_text (codes ":iso/") volid)
    && not (same volid (codes "none"))

-- The volume ids of the fields whose key and whose volume pass.
unfoldable pub volids_where : (Text → Bool) → (Text → Bool) → Config → List Text
volids_where key volume [] = []
volids_where key volume ((k, none) ∷ rest) = volids_where key volume rest
volids_where key volume ((k, some v) ∷ rest) =
    if key k && volume (volid_of v)
    then volid_of v ∷ volids_where key volume rest
    else volids_where key volume rest

-- `dedup`: of neighbours that are the same, the first.
unfoldable pub dedup_texts : List Text → List Text
dedup_texts [] = []
dedup_texts (a ∷ []) = a ∷ []
dedup_texts (a ∷ b ∷ rest) =
    let more = dedup_texts (b ∷ rest) in if same a b then more else a ∷ more

unfoldable pub disk_volids : Config → List Text
disk_volids config = dedup_texts (sort (volids_where is_slot is_disk config))

abbrev pub is_mount : Text → Bool
is_mount k = if same k (codes "rootfs") then true else is_numbered k (codes "mp")

unfoldable pub named_volids : Config → List Text
named_volids config =
    dedup_texts
      (sort (disk_volids config ++ volids_where is_mount (contains_text (codes ":")) config))

-- `vm-<id>-…` and the like.
unfoldable pub vmid_after : List Text → Text → Option ℕ
vmid_after [] name = none
vmid_after (p ∷ ps) name =
    let later = vmid_after ps name in
    elim (strip_prefix p name) [
      | none ↦ later
      | some rest ↦
          let (digits, after) = span is_digit rest in
          let vmid : Option ℕ =
            if not (is_empty digits) && is_some (strip_prefix (codes "-") after)
            then parse_uint u32_bound digits
            else none in
          elim vmid [ some n ↦ some n | none ↦ later ]
    ]

abbrev pub name_of : Text → Text
name_of volid = elim (split_once b':' volid) [ none ↦ volid | some (storage, name) ↦ name ]

abbrev pub prefixes : List Text
prefixes = codes "vm-" ∷ codes "base-" ∷ codes "subvol-" ∷ codes "basevol-" ∷ []

unfoldable pub volume_vmid : Text → Option ℕ
volume_vmid volid =
    let name = name_of volid in
    elim (split_once b'/' name) [
      | some (dir, file) ↦ parse_uint u32_bound dir
      | none ↦ vmid_after prefixes name
    ]
