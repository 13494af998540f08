-- ===== src/Opening/Rules.antt =====
-- crates/onv-hostnet/src/opening.rs, the applier's side: `entries` checks every entry of the file.
use omnuv_provider.Base.{
  ℕ, Bool, ◌&&◌, ◌||◌, not, List, [], ◌∷◌, none, some, if◌then◌else◌, ltb, ◌==◌, any, leb,
}
use omnuv_provider.Base.Results.{Result, done, failed}
use omnuv_provider.Base.Text.{Text}
use omnuv_provider.Ipv4.{octet3, in_egress}
use omnuv_provider.Opening.{Checked}
use omnuv_provider.Opening.Book.{Machines, in_range}

-- Why the file is refused.
pub data Untrusted : Type 0 where
  outside : Text → ℕ → Untrusted
  port_twice : ℕ → Untrusted
  not_a_machine : Text → ℕ → Untrusted
  two_ports : ℕ → Untrusted

abbrev pub Entries : Type 0
Entries = List (ℕ × ℕ)

-- `out.sort()`: by the port, then by the address.
abbrev pub entry_leb : ℕ × ℕ → ℕ × ℕ → Bool
entry_leb (p, a) (q, b) = ltb p q || ((p == q) && leb a b)

unfoldable pub insort : ℕ × ℕ → Entries → Entries
insort e [] = e ∷ []
insort e (f ∷ fs) = if entry_leb e f then e ∷ f ∷ fs else f ∷ insort e fs

unfoldable pub sorted : Entries → Entries
sorted [] = []
sorted (e ∷ es) = insort e (sorted es)

abbrev pub is_machines : ℕ → Bool
is_machines a = in_egress a && not ((octet3 a == 0) || (octet3 a == 1) || (octet3 a == 255))

abbrev seen : ℕ → List ℕ → Bool
seen x xs = any (λ y. x == y) xs

-- The loop, with the ports and the addresses that were met.
unfoldable pub entries_from : Checked → List ℕ → List ℕ → Machines → Result Untrusted Entries
entries_from c ports addrs [] = done []
entries_from c ports addrs ((id, s) ∷ m) =
    let unaddressed = entries_from c (s.port ∷ ports) addrs m in
    let addressed : ℕ → Result Untrusted Entries =
      λ a. entries_from c (s.port ∷ ports) (a ∷ addrs) m in
    if not (in_range c s.port)
    then failed (outside id s.port)
    else if seen s.port ports
    then failed (port_twice s.port)
    else elim s.address [
      | none ↦ unaddressed
      | some a ↦
          if not (is_machines a)
          then failed (not_a_machine id a)
          else if seen a addrs
          then failed (two_ports a)
          else elim (addressed a) [ failed e ↦ failed e | done out ↦ done ((s.port, a) ∷ out) ]
    ]

unfoldable pub entries : Checked → Machines → Result Untrusted Entries
entries c m = elim (entries_from c [] [] m) [ failed e ↦ failed e | done out ↦ done (sorted out) ]
