-- ===== src/Examples/Openings.antt =====
-- A host whose opening has two ports, 31820 and 31821.
use omnuv_provider.Base.{
  ℕ, ◌+◌, ◌≡◌, ◌≢◌, ◌≤◌, ◌<◌, ◌⊎◌, refl, true, false, List, [], ◌∷◌, Option, none, some, length,
  arith, ap, subst, if◌then◌else◌,
}
use omnuv_provider.Base.Results.{Result, done, failed}
use omnuv_provider.Base.Text.{
  Text, codes, trim, trim_start, split_once, split, same, text_leb, is_space,
}
use omnuv_provider.Base.Decimal.{parse_uint, scan}
use omnuv_provider.Base.Assoc.{get}
use omnuv_provider.Ipv4.{octets, octet, dotted, parse_ip, not_public, in_egress}
use omnuv_provider.Opening.{
  forwarded, OpeningConfig, Checked, max_ports, range_of, ports_of, parse_ports, public_of,
  conclude, complaints, valid_interface, checked,
}
use omnuv_provider.Opening.Book.{
  Slot, Machines, no_file, holds, Host, Reply, load, persist, through, held, lowest_free, put,
  given, without, allocate_at, allocate_for, allocate_on, allocate, same_machines, egress_seen,
  least, look, look_each,
}
use omnuv_provider.Opening.Rules.{port_twice, two_ports, entries_from, sorted, entries}
use omnuv_provider.Opening.Steps.{allocating, Reached, start, later, first_start, entries-once}
use omnuv_provider.Opening.Answers.{allocate-lowest, new_slot, allocate-on_disk}
use omnuv_provider.Opening.Config.{Unreserved, checked-usable}
use omnuv_provider.Opening.Apply.{
  Script, deleted, rendered, Table, Kernel, parsed, read_back, load_entries, apply_machines,
  misplaced, apply_file, apply_on, apply_checked, apply_main,
}
use omnuv_provider.Opening.Applied.{Off, On, apply_main-zero}

abbrev config : OpeningConfig
config = record {
  enabled = true;
  reach = some forwarded;
  public_address = some (codes "203.0.113.7");
  interface = codes "vmbr0";
  ports = codes "31820-31821";
}

abbrev use_two : Checked
use_two = record {
  first = 31820;
  last = 31821;
  public_ip = octets 203 0 113 7;
  reach = forwarded;
  interface = codes "vmbr0";
}

two_ports_config : checked config ≡ done (some use_two)
unfolding checked complaints parse_ports ports_of range_of public_of conclude parse_uint scan trim
    trim_start is_space split_once parse_ip dotted octet split not_public
two_ports_config = refl

checked-usable_example :
    (config.enabled ≡ true)
    × (1024 ≤ 31820)
    × (31820 ≤ 31821)
    × (31821 < 31820 + max_ports)
    × Unreserved (octets 203 0 113 7)
    × (valid_interface (codes "vmbr0") ≡ true)
checked-usable_example = checked-usable config use_two two_ports_config

-- On, and without an address.
abbrev unset : OpeningConfig
unset = record config { public_address = none }

abbrev empty_host : Host
empty_host = first_start (some use_two)

abbrev a_machine : Text
a_machine = codes "ab"

abbrev slot : ℕ → Slot
slot p = record { port = p; address = none }

abbrev one_host : Host
one_host = record {
  book = record {
    on = some use_two;
    has_path = true;
    machines = (a_machine, slot 31820) ∷ [];
    refused = false;
    written = some ((a_machine, slot 31820) ∷ []);
    exhausted = [];
  };
  file = holds ((a_machine, slot 31820) ∷ []);
}

-- The whole of an allocation.
first_given :
    allocate true a_machine empty_host
    ≡ (done (some (record { port = 31820; public_ip = octets 203 0 113 7 })), one_host)
unfolding allocate allocate_on allocate_for allocate_at load get lowest_free held given put without
    through persist same_machines
first_given = refl

abbrev another : Text
another = codes "cd"

another_new : get another one_host.book.machines ≡ none
unfolding get same
another_new = refl

-- A second machine gets the next port; the two are in the file, and a third gets none.
allocate-lowest_example :
    ((p : ℕ) × ((allocate true another one_host).0
        ≡ done (some (record { port = p; public_ip = octets 203 0 113 7 })))
      × (31820 ≤ p)
      × (p ≤ 31821)
      × (held p one_host.book.machines ≡ false)
      × ((r : ℕ) → 31820 ≤ r → r < p → held r one_host.book.machines ≡ true))
    ⊎ (((allocate true another one_host).0 ≡ done none)
        × ((r : ℕ) → 31820 ≤ r → r ≤ 31821 → held r one_host.book.machines ≡ true))
allocate-lowest_example = allocate-lowest true another one_host use_two refl refl another_new refl

has_path : empty_host.book.has_path ≡ true
unfolding load
has_path = refl

unwritten : (w : Machines) → empty_host.book.written ≡ some w → empty_host.file ≡ holds w
unfolding load
unwritten w e = absurd (ground arith)

holds_none : get a_machine empty_host.book.machines ≡ none
unfolding load get
holds_none = refl

allocate-on_disk_example :
    (m : Machines) × ((allocate true a_machine empty_host).1.file ≡ holds m)
    × ((allocate true a_machine empty_host).1.book.machines ≡ m)
    × (get a_machine m ≡ some (new_slot (record { port = 31820; public_ip = octets 203 0 113 7 })))
allocate-on_disk_example =
    allocate-on_disk true a_machine empty_host
      (record { port = 31820; public_ip = octets 203 0 113 7 }) has_path unwritten holds_none
      (ap (λ (r : Reply). r.0) first_given)

-- A write that fails, then a second call: the machine is answered a port that no file holds.
abbrev unsaved : Host
unsaved = (allocate false a_machine empty_host).1

port_not_on_disk :
    (allocate true a_machine unsaved).0
    ≡ done (some (record { port = 31820; public_ip = octets 203 0 113 7 }))
unfolding allocate allocate_on allocate_for allocate_at load get lowest_free held given put without
    through persist same_machines same text_leb
port_not_on_disk = refl

still_no_file : (allocate true a_machine unsaved).1.file ≡ no_file
unfolding allocate allocate_on allocate_for allocate_at load get lowest_free held given put without
    through persist same_machines same text_leb
still_no_file = refl

-- A host is reached where the file holds the machine.
reached : Reached one_host
reached =
    subst Reached (ap (λ (r : Reply). r.1) first_given)
      (later (start (some use_two)) (allocating true a_machine))

entries-once_example : entries use_two ((a_machine, slot 31820) ∷ []) ≢ failed (port_twice 31820)
entries-once_example = entries-once use_two ((a_machine, slot 31820) ∷ []) 31820 reached refl

-- One address that the host's table names for two machines, one of them long stopped: the applier
-- refuses the whole file.
abbrev leased_again : Machines
leased_again =
    (a_machine, record { port = 31820; address = some (octets 10 201 0 100) })
    ∷ (another, record { port = 31821; address = none })
    ∷ []

abbrev table : Text → List Text
table id = if same id another then codes "10.201.0.100" ∷ [] else []

one_address_twice :
    entries use_two (look_each table leased_again).0 ≡ failed (two_ports (octets 10 201 0 100))
unfolding entries entries_from look_each look egress_seen least same parse_ip dotted octet split
    scan in_egress
one_address_twice = refl

-- A kernel whose table is the last script.
abbrev listing : Option Script → Result Text (Option Table)
listing none = done none
listing (some deleted) = done none
listing (some (rendered c es)) = done (some (record { dnats = length es; masquerades = length es }))

abbrev kernel : Kernel (Option Script)
kernel = record { load = λ s w. (true, some s); listed = listing; has_address = λ c. true }

applied : (apply_main kernel (parsed config) one_host.file false none).0 ≡ 0
unfolding apply_main apply_checked apply_on misplaced apply_file apply_machines load_entries
    read_back entries entries_from sorted checked complaints parse_ports ports_of range_of public_of
    conclude parse_uint scan trim trim_start is_space split_once parse_ip dotted octet split
    not_public
applied = refl

apply_main-zero_example :
    (cfg : OpeningConfig) × (parsed config ≡ parsed cfg)
    × (Off kernel (checked cfg) (apply_main kernel (parsed config) one_host.file false none).1
        ⊎ On kernel
            (checked cfg)
            one_host.file
            (apply_main kernel (parsed config) one_host.file false none).1)
apply_main-zero_example = apply_main-zero kernel (parsed config) one_host.file none applied
