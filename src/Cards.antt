-- ===== src/Cards.antt =====
-- src/proxmox.rs: which guests lay claim to a card (a PCI device), and which cards may be offered.
-- A HashSet is a list without an order; what was asked of the hypervisor is an argument.
pub mod Claims
pub mod Offers
use omnuv_provider.Base.{
  ℕ, suc, ◌+◌, ◌*◌, ◌-◌, Bool, true, false, ◌&&◌, ◌||◌, not, List, [], ◌∷◌, ◌++◌, map, Option, none,
  some, if◌then◌else◌, leb, ◌==◌, any, all, keep, length, is_some, is_empty,
}
use omnuv_provider.Base.Results.{Result, done, failed}
use omnuv_provider.Base.Text.{Text, codes, same, split, split_once, lowercase, is_hex_digit}
use omnuv_provider.Scrub.Pass.{pci_slot}

pub data CardFault : Type 0 where
  malformed_function malformed_address out_of_range : CardFault
  bad_property repeated_property : CardFault
  no_single_source no_source : CardFault
  no_mapping ambiguous_mapping no_mapped_node no_path no_devices : CardFault
  not_full ambiguous_owner : CardFault
  not_an_object no_power_state not_assignment : CardFault

abbrev pub Slots : Type 0
Slots = List Text

abbrev pub has : Text → Slots → Bool
has s xs = any (λ x. same x s) xs

-- `insert` and `extend`.
abbrev pub add : Text → Slots → Slots
add s xs = if has s xs then xs else s ∷ xs

abbrev pub extend : Slots → Slots → Slots
extend [] ys = ys
extend (x ∷ xs) ys = extend xs (add x ys)

-- The value of a hexadecimal digit.
abbrev pub hex_value : ℕ → ℕ
hex_value c = if leb b'a' c then c - b'a' + 10 else if leb b'A' c then c - b'A' + 10 else c - b'0'

abbrev pub fits_widths : List Text → List ℕ → Bool
fits_widths [] ns = true
fits_widths (p ∷ ps) [] = true
fits_widths (p ∷ ps) (n ∷ ns) = (length p == n) && all is_hex_digit p && fits_widths ps ns

unfoldable pub widths_of : List Text → Option (List ℕ)
widths_of (a ∷ b ∷ []) = some (2 ∷ 2 ∷ [])
widths_of (a ∷ b ∷ c ∷ []) = some (4 ∷ 2 ∷ 2 ∷ [])
widths_of _ = none

-- The last part, of two hexadecimal digits, is at most 31.
unfoldable pub device_fits : List Text → Bool
device_fits [] = false
device_fits ((c ∷ d ∷ []) ∷ []) = leb (hex_value c * 16 + hex_value d) 31
device_fits (p ∷ []) = false
device_fits (p ∷ q ∷ ps) = device_fits (q ∷ ps)

abbrev pub is_function : Text → Bool
is_function (c ∷ []) = leb b'0' c && leb c b'7'
is_function _ = false

unfoldable pub check_address : Text → Result CardFault (Unit {0})
check_address base =
    let parts = split (λ c. c == b':') base in
    elim (widths_of parts) [
      | none ↦ failed malformed_address
      | some ns ↦
          if not (fits_widths parts ns)
          then failed malformed_address
          else if device_fits parts
          then done tt
          else failed out_of_range
    ]

-- One address: its function, if it has one, then its parts.
unfoldable pub address_of : Text → Result CardFault (Unit {0})
address_of address = elim (split_once b'.' address) [
  | none ↦ check_address address
  | some (base, function) ↦
      if is_function function then check_address base else failed malformed_function
]

unfoldable pub slots_from : List Text → Result CardFault Slots
slots_from [] = done []
slots_from (a ∷ more) = elim (address_of a) [
  | failed e ↦ failed e
  | done _ ↦ elim (slots_from more) [ failed e ↦ failed e | done xs ↦ done (add (pci_slot a) xs) ]
]

unfoldable pub pci_claim_slots : Text → Result CardFault Slots
pci_claim_slots raw = slots_from (split (λ c. c == b';') raw)

abbrev pub Fields : Type 0
Fields = List (Text × Text)

abbrev pub lookup : Text → Fields → Option Text
lookup k [] = none
lookup k ((j, v) ∷ fs) = if same j k then some v else lookup k fs

-- Each property once, and none empty.
unfoldable pub fields_from : Fields → List Text → Result CardFault Fields
fields_from seen [] = done seen
fields_from seen (f ∷ fs) = elim (split_once b'=' f) [
  | none ↦ failed bad_property
  | some (k, v) ↦
      let rest = fields_from ((k, v) ∷ seen) fs in
      if is_empty k || is_empty v || is_some (lookup k seen) then failed repeated_property else rest
]

unfoldable pub property_fields : Text → Result CardFault Fields
property_fields raw = fields_from [] (split (λ c. c == b',') raw)

pub record PciMapping : Type 0 where
  pub id : Text
  pub entries : List Text

-- Where an assignment takes its card from: an address, or a mapping by its id.
pub record Source : Type 0 where
  pub mapped : Bool
  pub value : Text

-- What one field of an assignment says: no property, a property of no interest, or a source.
pub data Field : Type 0 where
  malformed : Field
  other : Field
  source : Source → Field

unfoldable pub field_of : Bool → Text → Field
field_of is_first f = elim (split_once b'=' f) [
  | none ↦ if is_first then source (record { mapped = false; value = f }) else malformed
  | some (k, v) ↦
      if same k (codes "host")
      then source (record { mapped = false; value = v })
      else if same k (codes "mapping")
      then source (record { mapped = true; value = v })
      else other
]

unfoldable pub source_from : Bool → Option Source → List Text → Result CardFault (Option Source)
source_from is_first known [] = done known
source_from is_first known (f ∷ fs) = elim (field_of is_first f) [
  | malformed ↦ failed bad_property
  | other ↦ source_from false known fs
  | source s ↦
      if is_some known || is_empty s.value
      then failed no_single_source
      else source_from false (some s) fs
]

-- The devices of one mapping's entry, when it is of this node.
unfoldable pub entry_slots : Text → Text → Result CardFault Slots
entry_slots node entry = elim (property_fields entry) [
  | failed e ↦ failed e
  | done fs ↦ elim (lookup (codes "node") fs) [
    | none ↦ failed no_mapped_node
    | some n ↦ elim (lookup (codes "path") fs) [
      | none ↦ failed no_path
      | some p ↦ if same n node then pci_claim_slots p else done []
    ]
  ]
]

unfoldable pub entries_slots : Text → List Text → Result CardFault Slots
entries_slots node [] = done []
entries_slots node (e ∷ es) = elim (entry_slots node e) [
  | failed x ↦ failed x
  | done xs ↦ elim (entries_slots node es) [ failed x ↦ failed x | done ys ↦ done (extend xs ys) ]
]

unfoldable pub mapped_slots : Text → List PciMapping → Result CardFault Slots
mapped_slots node [] = failed no_mapping
mapped_slots node (m ∷ []) = elim (entries_slots node m.entries) [
  | failed e ↦ failed e
  | done [] ↦ failed no_devices
  | done (s ∷ ss) ↦ done (s ∷ ss)
]
mapped_slots node (m ∷ n ∷ more) = failed ambiguous_mapping

-- The devices of one assignment, by this node's mappings.
unfoldable pub resolve_pci_claim : Text → Text → List PciMapping → Result CardFault Slots
resolve_pci_claim raw node mappings = elim (source_from true none (split (λ c. c == b',') raw)) [
  | failed e ↦ failed e
  | done none ↦ failed no_source
  | done (some s) ↦
      if s.mapped
      then mapped_slots node (keep (λ (m : PciMapping). same m.id s.value) mappings)
      else pci_claim_slots s.value
]
