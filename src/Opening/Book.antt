-- ===== src/Opening/Book.antt =====
-- crates/onv-hostnet/src/opening.rs: the book of which machine holds which port, and its file. The
-- file's bytes are those of the map it holds, so the map stands for them. `saves` says whether the
-- write of an operation works, and `Host` is the book with its file.
use omnuv_provider.Base.{
  ℕ, zero, suc, ◌+◌, ◌-◌, Bool, true, false, ◌&&◌, ◌||◌, not, List, [], ◌∷◌, Option, none, some,
  if◌then◌else◌, leb, ltb, ◌==◌, any, keep, is_empty, is_some, map,
}
use omnuv_provider.Base.Results.{Result, done, failed}
use omnuv_provider.Base.Text.{Text, same, text_leb}
use omnuv_provider.Base.Assoc.{Assoc, get, remove, retain}
use omnuv_provider.Ipv4.{parse_ip, in_egress}
use omnuv_provider.Opening.{Checked}

pub record Slot : Type 0 where
  pub port : ℕ
  pub address : Option ℕ

-- In the order of the keys, as a BTreeMap.
abbrev pub Machines : Type 0
Machines = Assoc Slot

-- `BTreeMap::insert` into a map in the order of its keys.
unfoldable pub put : Text → Slot → Machines → Machines
put j w [] = (j, w) ∷ []
put j w ((k, v) ∷ m) =
    if same j k
    then (j, w) ∷ m
    else if text_leb j k
    then (j, w) ∷ (k, v) ∷ m
    else (k, v) ∷ put j w m

abbrev same_address : Option ℕ → Option ℕ → Bool
same_address none none = true
same_address none (some b) = false
same_address (some a) none = false
same_address (some a) (some b) = a == b

unfoldable pub same_machines : Machines → Machines → Bool
same_machines [] [] = true
same_machines [] (e ∷ m) = false
same_machines (e ∷ m) [] = false
same_machines ((j, s) ∷ m) ((k, t) ∷ n) =
    same j k && (s.port == t.port) && same_address s.address t.address && same_machines m n

pub record Book : Type 0 where
  pub on : Option Checked
  pub has_path : Bool
  pub machines : Machines
  pub refused : Bool
  pub written : Option Machines
  pub exhausted : List Text

-- What the file is: not there, there and not readable, or a map.
pub data File : Type 0 where
  no_file : File
  unreadable : File
  holds : Machines → File

pub record Host : Type 0 where
  pub book : Book
  pub file : File

-- The agent's answer for a machine: the port and the public address.
pub record Opened : Type 0 where
  pub port : ℕ
  pub public_ip : ℕ

abbrev fresh : Option Checked → Book
fresh on = record {
  on = on;
  has_path = true;
  machines = [];
  refused = false;
  written = none;
  exhausted = [];
}

-- `load`, from the configuration's check and the file.
unfoldable pub load : Option Checked → File → Book
load on no_file = fresh on
load on unreadable = record (fresh on) { refused = true }
load on (holds m) = record (fresh on) { machines = m; written = some m }

abbrev is_written : Book → Bool
is_written b = elim b.written [ none ↦ false | some w ↦ same_machines w b.machines ]

-- `persist`: whether it worked, and the host after it.
unfoldable pub persist : Bool → Host → Bool × Host
persist saves h =
    if not h.book.has_path || is_written h.book
    then (true, h)
    else if saves
    then (
      true,
      record {
        book = record h.book { written = some h.book.machines };
        file = holds h.book.machines;
      },
    )
    else (false, h)

-- The host with another book, written through.
unfoldable pub through : Bool → Book → File → Bool × Host
through saves b f = persist saves (record { book = b; file = f })

abbrev pub in_range : Checked → ℕ → Bool
in_range c p = leb c.first p && leb p c.last

unfoldable pub settled : Checked → Book → Book
settled c b = record b { machines = retain (λ _ s. in_range c s.port) b.machines }

-- Off releases every port, on drops what is outside the range.
unfoldable pub settle_on : Option Checked → Bool → Host → Bool × Host
settle_on none saves h = through saves (record h.book { machines = []; refused = false }) h.file
settle_on (some c) saves h =
    if h.book.refused then (true, h) else through saves (settled c h.book) h.file

unfoldable pub settle : Bool → Host → Bool × Host
settle saves h = settle_on h.book.on saves h

-- Whether some machine holds the port.
unfoldable pub held : ℕ → Machines → Bool
held p m = any (λ (e : Text × Slot). e.1.port == p) m

-- The lowest of `n` ports from `p` on that is free.
unfoldable pub lowest_free : Machines → ℕ → ℕ → Option ℕ
lowest_free m zero p = none
lowest_free m (suc n) p = let later = lowest_free m n (p + 1) in if held p m then later else some p

abbrev pub range_length : Checked → ℕ
range_length c = c.last + 1 - c.first

-- A BTreeSet, as a list.
unfoldable pub without : Text → List Text → List Text
without id xs = keep (λ x. not (same x id)) xs

unfoldable pub given : Text → ℕ → Book → Book
given id p b = record b {
  machines = put id (record { port = p; address = none }) b.machines;
  exhausted = without id b.exhausted;
}

abbrev pub Reply : Type 0
Reply = Result (Unit {0}) (Option Opened) × Host

-- The answer after the write: `?` on its failure.
abbrev pub answered : Opened → Bool × Host → Reply
answered o (true, h) = (done (some o), h)
answered o (false, h) = (failed tt, h)

-- The range used up, or the port that was found.
unfoldable pub allocate_at : Option ℕ → Bool → Checked → Text → Host → Reply
allocate_at none saves c id h =
    (done none, record h { book = record h.book { exhausted = id ∷ without id h.book.exhausted } })
allocate_at (some p) saves c id h =
    answered (record { port = p; public_ip = c.public_ip })
      (through saves (given id p h.book) h.file)

-- A machine that holds a port keeps it.
unfoldable pub allocate_for : Option Slot → Bool → Checked → Text → Host → Reply
allocate_for (some s) saves c id h =
    (done (some (record { port = s.port; public_ip = c.public_ip })), h)
allocate_for none saves c id h =
    allocate_at (lowest_free h.book.machines (range_length c) c.first) saves c id h

unfoldable pub allocate_on : Option Checked → Bool → Text → Host → Reply
allocate_on none saves id h = (done none, h)
allocate_on (some c) saves id h =
    if h.book.refused then (done none, h) else allocate_for (get id h.book.machines) saves c id h

unfoldable pub allocate : Bool → Text → Host → Reply
allocate saves id h = allocate_on h.book.on saves id h

unfoldable pub opened : Text → Host → Option Opened
opened id h = elim h.book.on [
  | none ↦ none
  | some c ↦ elim (get id h.book.machines) [
    | none ↦ none
    | some s ↦ some (record { port = s.port; public_ip = c.public_ip })
  ]
]

unfoldable pub release : Bool → Text → Host → Bool × Host
release saves id h =
    let b = record h.book { exhausted = without id h.book.exhausted } in
    if is_some (get id b.machines)
    then through saves (record b { machines = remove id b.machines }) h.file
    else (true, record h { book = b })

-- The machines that a listing does not name.
unfoldable pub gone_of : (Text → Bool) → Machines → List Text
gone_of named m = keep (λ id. not (named id)) (map (λ (e : Text × Slot). e.0) m)

unfoldable pub remove_all : List Text → Machines → Machines
remove_all [] m = m
remove_all (id ∷ ids) m = remove_all ids (remove id m)

unfoldable pub sweep : Bool → (Text → Bool) → Host → Bool × Host
sweep saves named h =
    let gone = gone_of named h.book.machines in
    let b = record h.book {
      machines = remove_all gone h.book.machines;
      exhausted = keep named h.book.exhausted;
    } in
    if is_empty gone then (true, record h { book = b }) else through saves b h.file

-- The addresses of a machine that are on the egress bridge, and the least of them.
unfoldable pub egress_seen : List Text → List ℕ
egress_seen [] = []
egress_seen (t ∷ ts) =
    let rest = egress_seen ts in
    elim (parse_ip t) [ none ↦ rest | some a ↦ if in_egress a then a ∷ rest else rest ]

unfoldable pub least : ℕ → List ℕ → ℕ
least a [] = a
least a (b ∷ bs) = if ltb b a then least b bs else least a bs

abbrev is_among : Option ℕ → List ℕ → Bool
is_among none seen = false
is_among (some a) seen = any (λ b. a == b) seen

-- One machine's slot after a look at the table, and whether it moved.
unfoldable pub look : List ℕ → Slot → Slot × Bool
look [] s = (s, false)
look (a ∷ as') s =
    if is_among s.address (a ∷ as')
    then (s, false)
    else (record s { address = some (least a as') }, true)

-- `addresses` is the neighbour table asked for the machine's egress MAC.
unfoldable pub look_each : (Text → List Text) → Machines → Machines × Bool
look_each addresses [] = ([], false)
look_each addresses ((id, s) ∷ m) =
    let (t, moved) = look (egress_seen (addresses id)) s in
    let (n, others) = look_each addresses m in ((id, t) ∷ n, moved || others)

unfoldable pub observe : Bool → (Text → List Text) → Host → Bool × Host
observe saves addresses h =
    if h.book.refused
    then (true, h)
    else let (m, moved) = look_each addresses h.book.machines in
      let b = record h.book { machines = m } in
      if moved then through saves b h.file else (true, record h { book = b })
