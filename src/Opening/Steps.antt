-- ===== src/Opening/Steps.antt =====
-- The agent and its file over time, in crates/onv-hostnet/src/opening.rs: every operation of the book
-- in any order, its write working or not, restarts under any configuration, a file that is spoiled.
use omnuv_provider.Base.{
  ℕ, ◌≡◌, ◌≢◌, refl, Bool, true, false, List, [], ◌∷◌, Option, arith, All, subst, ◌==◌, any,
  or_else,
}
use omnuv_provider.Base.Results.{Result, failed}
use omnuv_provider.Base.Text.{Text}
use omnuv_provider.Opening.{Checked}
use omnuv_provider.Opening.Book.{
  Slot, Machines, no_file, unreadable, holds, Host, load, settle, allocate, release, sweep, observe,
  held,
}
use omnuv_provider.Opening.Ports.{
  Distinct, FileDistinct, HostDistinct, settle-Distinct, allocate-Distinct, release-Distinct,
  sweep-Distinct, observe-Distinct, load-Distinct,
}
use omnuv_provider.Opening.Rules.{Untrusted, port_twice, Entries, entries_from, entries}

pub data Step (h : Host) : Host → Type 0 where
  settling : (saves : Bool) → Step h (settle saves h).1
  allocating : (saves : Bool) (id : Text) → Step h (allocate saves id h).1
  releasing : (saves : Bool) (id : Text) → Step h (release saves id h).1
  sweeping : (saves : Bool) (named : Text → Bool) → Step h (sweep saves named h).1
  observing : (saves : Bool) (addresses : Text → List Text) → Step h (observe saves addresses h).1
  restarting : (on : Option Checked) → Step h (record h { book = load on h.file })
  spoiling : Step h (record h { file = unreadable })

-- A host where no agent ran before.
abbrev pub first_start : Option Checked → Host
first_start on = record { book = load on no_file; file = no_file }

pub data Reached : Host → Type 0 where
  start : (on : Option Checked) → Reached (first_start on)
  later : {h k : Host} → Reached h → Step h k → Reached k

Step-Distinct : {h k : Host} → Step h k → HostDistinct h → HostDistinct k
Step-Distinct {h} (settling saves) d = settle-Distinct saves h d
Step-Distinct {h} (allocating saves id) d = allocate-Distinct saves id h d
Step-Distinct {h} (releasing saves id) d = release-Distinct saves h d id
Step-Distinct {h} (sweeping saves named) d = sweep-Distinct saves h d named
Step-Distinct {h} (observing saves addresses) d = observe-Distinct saves h d addresses
Step-Distinct {h} (restarting on) d = (load-Distinct on h.file d.1, d.1)
Step-Distinct spoiling d = (d.0, tt)

-- On every host that is reached from a first start by the book's operations in any order, each write
-- working or not, by restarts under any configuration and by spoilt files, no two machines hold one
-- port, in the book and in its file.
pub Reached-Distinct : {h : Host} → Reached h → HostDistinct h
Reached-Distinct (start on) = (load-Distinct on no_file tt, tt)
Reached-Distinct (later r s) = Step-Distinct s (Reached-Distinct r)

abbrev is_port_twice : Result Untrusted Entries → Bool
is_port_twice (failed (port_twice p)) = true
is_port_twice _ = false

-- None of the ports that were met is held further on.
abbrev Clear : List ℕ → Machines → Type 0
Clear ports m = All (λ q. held q m ≡ false) ports

Clear-tail :
    (ports : List ℕ) (id : Text) (s : Slot) (m : Machines)
    → Clear ports ((id, s) ∷ m)
    → Clear ports m
unfolding held
Clear-tail [] id s m c = tt
Clear-tail (q ∷ qs) id s m c = (ground arith, Clear-tail qs id s m c.1)

Clear-head :
    (ports : List ℕ) (id : Text) (s : Slot) (m : Machines)
    → Clear ports ((id, s) ∷ m)
    → any (λ q. s.port == q) ports ≡ false
unfolding held
Clear-head [] id s m c = refl
Clear-head (q ∷ qs) id s m c = ground (arith, Clear-head qs id s m c.1)

entries_from-once :
    (c : Checked) (ports addrs : List ℕ) (m : Machines)
    → Distinct m
    → Clear ports m
    → is_port_twice (entries_from c ports addrs m) ≡ false
unfolding entries_from
entries_from-once c ports addrs [] d k = refl
entries_from-once c ports addrs ((id, s) ∷ m) d k =
    let h = Clear-head ports id s m k in
    let t : Clear (s.port ∷ ports) m = (d.0, Clear-tail ports id s m k) in
    ground (
      arith,
      entries_from-once c (s.port ∷ ports) addrs m d.1 t,
      entries_from-once c (s.port ∷ ports) (or_else s.address 0 ∷ addrs) m d.1 t,
    )

-- The rules never refuse, for a port given twice, a file that a reachable host holds.
pub entries-once :
    {h : Host} (c : Checked) (m : Machines) (p : ℕ)
    → Reached h
    → h.file ≡ holds m
    → entries c m ≢ failed (port_twice p)
unfolding entries
entries-once {h} c m p r e twice =
    let d : Distinct m = subst FileDistinct e (Reached-Distinct r).1 in
    ground (arith, entries_from-once c [] [] m d tt)
