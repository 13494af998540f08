-- ===== src/Opening/Ports.antt =====
-- No two machines of the book share a port, whatever the operations of crates/onv-hostnet/src/opening.rs
-- do to it.
use omnuv_provider.Base.{
  ℕ, zero, suc, ◌+◌, ◌≡◌, refl, Bool, true, false, List, [], ◌∷◌, Option, none, some, arith,
  if_both, ◌==◌, ==_iff,
}
use omnuv_provider.Base.Text.{Text}
use omnuv_provider.Base.Assoc.{remove, retain}
use omnuv_provider.Opening.{Checked}
use omnuv_provider.Opening.Book.{
  Slot, Machines, Book, File, no_file, unreadable, holds, Host, load, persist, through, settled,
  settle_on, settle, held, lowest_free, put, given, Opened, Reply, allocate_at, allocate_for,
  allocate_on, answered, allocate, release, remove_all, gone_of, sweep, egress_seen, look,
  look_each, observe,
}

-- No port is held twice.
abbrev pub Distinct : Machines → Type 0
Distinct [] = Unit {0}
Distinct ((id, s) ∷ m) = (held s.port m ≡ false) × Distinct m

abbrev pub FileDistinct : File → Type 0
FileDistinct no_file = Unit {0}
FileDistinct unreadable = Unit {0}
FileDistinct (holds m) = Distinct m

abbrev pub HostDistinct : Host → Type 0
HostDistinct h = Distinct h.book.machines × FileDistinct h.file

held-put :
    (q : ℕ) (j : Text) (w : Slot) (m : Machines)
    → held q m ≡ false
    → (w.port == q) ≡ false
    → held q (put j w m) ≡ false
unfolding held put
held-put q j w [] h n = ground arith
held-put q j w ((k, v) ∷ m) h n = ground (arith, held-put q j w m)

put-Distinct :
    (j : Text) (w : Slot) (m : Machines) → Distinct m → held w.port m ≡ false → Distinct (put j w m)
unfolding held put
put-Distinct j w [] d n = (refl, tt)
put-Distinct j w ((k, v) ∷ m) d n =
    ground (arith, held-put v.port j w m, put-Distinct j w m d.1, ==_iff w.port v.port)

held-remove : (q : ℕ) (j : Text) (m : Machines) → held q m ≡ false → held q (remove j m) ≡ false
unfolding held remove
held-remove q j [] h = refl
held-remove q j ((k, v) ∷ m) h = ground (arith, held-remove q j m)

remove-Distinct : (j : Text) (m : Machines) → Distinct m → Distinct (remove j m)
unfolding remove
remove-Distinct j [] d = tt
remove-Distinct j ((k, v) ∷ m) d = ground (arith, held-remove v.port j m, remove-Distinct j m d.1)

remove_all-Distinct : (ids : List Text) (m : Machines) → Distinct m → Distinct (remove_all ids m)
unfolding remove_all
remove_all-Distinct [] m d = d
remove_all-Distinct (id ∷ ids) m d = remove_all-Distinct ids (remove id m) (remove-Distinct id m d)

held-retain :
    (p : Text → Slot → Bool) (q : ℕ) (m : Machines) → held q m ≡ false → held q (retain p m) ≡ false
unfolding held retain
held-retain p q [] h = refl
held-retain p q ((k, v) ∷ m) h = ground (arith, held-retain p q m)

retain-Distinct : (p : Text → Slot → Bool) (m : Machines) → Distinct m → Distinct (retain p m)
unfolding retain
retain-Distinct p [] d = tt
retain-Distinct p ((k, v) ∷ m) d = ground (arith, held-retain p v.port m, retain-Distinct p m d.1)

look-port : (seen : List ℕ) (s : Slot) → (look seen s).0.port ≡ s.port
unfolding look
look-port [] s = refl
look-port (a ∷ rest) s = ground arith

module _ (addresses : Text → List Text) where
  held-look_each : (q : ℕ) (m : Machines) → held q (look_each addresses m).0 ≡ held q m
  unfolding held look_each
  held-look_each q [] = refl
  held-look_each q ((k, v) ∷ m) =
      ground (arith, look-port (egress_seen (addresses k)) v, held-look_each q m)

  look_each-Distinct : (m : Machines) → Distinct m → Distinct (look_each addresses m).0
  unfolding look_each
  look_each-Distinct [] d = tt
  look_each-Distinct ((k, v) ∷ m) d =
      rw (look-port (egress_seen (addresses k)) v, held-look_each v.port m)
        (d.0, look_each-Distinct m d.1)

-- A write keeps the book and writes nothing but it.
through-Distinct :
    (saves : Bool) (b : Book) (f : File)
    → Distinct b.machines
    → FileDistinct f
    → HostDistinct (through saves b f).1
unfolding through persist
through-Distinct saves b f d e = ground arith

lowest_free-free : (m : Machines) (n p : ℕ) (q : ℕ) → lowest_free m n p ≡ some q → held q m ≡ false
unfolding lowest_free
lowest_free-free m zero p q h = absurd (ground arith)
lowest_free-free m (suc n) p q h = ground (arith, lowest_free-free m n (p + 1) q)

-- Each operation, on its whole result.
settle_on-Distinct :
    (on : Option Checked) (saves : Bool) (h : Host)
    → HostDistinct h
    → HostDistinct (settle_on on saves h).1
unfolding settle_on settled
settle_on-Distinct none saves h (d, e) = through-Distinct saves _ h.file tt e
settle_on-Distinct (some c) saves h (d, e) =
    if_both (λ (r : Bool × Host). HostDistinct r.1) h.book.refused _ _ (d, e)
      (through-Distinct saves _ h.file (retain-Distinct _ _ d) e)

pub settle-Distinct : (saves : Bool) (h : Host) → HostDistinct h → HostDistinct (settle saves h).1
unfolding settle
settle-Distinct saves h d = settle_on-Distinct h.book.on saves h d

answered-Distinct :
    (o : Opened) (r : Bool × Host) → HostDistinct r.1 → HostDistinct (answered o r).1
answered-Distinct o (true, h) d = d
answered-Distinct o (false, h) d = d

allocate_at-Distinct :
    (o : Option ℕ) (saves : Bool) (c : Checked) (id : Text) (h : Host)
    → ((p : ℕ) → o ≡ some p → held p h.book.machines ≡ false)
    → HostDistinct h
    → HostDistinct (allocate_at o saves c id h).1
unfolding allocate_at given
allocate_at-Distinct none saves c id h free d = d
allocate_at-Distinct (some p) saves c id h free (d, e) =
    answered-Distinct _ _ (through-Distinct saves _ h.file (put-Distinct id _ _ d (free p refl)) e)

allocate_for-Distinct :
    (o : Option Slot) (saves : Bool) (c : Checked) (id : Text) (h : Host)
    → HostDistinct h
    → HostDistinct (allocate_for o saves c id h).1
unfolding allocate_for
allocate_for-Distinct (some s) saves c id h d = d
allocate_for-Distinct none saves c id h d =
    allocate_at-Distinct _ saves c id h (lowest_free-free _ _ _) d

allocate_on-Distinct :
    (on : Option Checked) (saves : Bool) (id : Text) (h : Host)
    → HostDistinct h
    → HostDistinct (allocate_on on saves id h).1
unfolding allocate_on
allocate_on-Distinct none saves id h d = d
allocate_on-Distinct (some c) saves id h d =
    if_both (λ (r : Reply). HostDistinct r.1) h.book.refused _ _ d
      (allocate_for-Distinct _ saves c id h d)

pub allocate-Distinct :
    (saves : Bool) (id : Text) (h : Host) → HostDistinct h → HostDistinct (allocate saves id h).1
unfolding allocate
allocate-Distinct saves id h d = allocate_on-Distinct h.book.on saves id h d

module _ (saves : Bool) (h : Host) (d : HostDistinct h) where
  pub release-Distinct : (id : Text) → HostDistinct (release saves id h).1
  unfolding release
  release-Distinct id =
      if_both (λ (r : Bool × Host). HostDistinct r.1) _ _ _
        (through-Distinct saves _ h.file (remove-Distinct id _ d.0) d.1) d

  pub sweep-Distinct : (named : Text → Bool) → HostDistinct (sweep saves named h).1
  unfolding sweep
  sweep-Distinct named =
      let kept = remove_all-Distinct (gone_of named h.book.machines) h.book.machines d.0 in
      if_both (λ (r : Bool × Host). HostDistinct r.1) _ _ _ (kept, d.1)
        (through-Distinct saves _ h.file kept d.1)

  pub observe-Distinct : (addresses : Text → List Text) → HostDistinct (observe saves addresses h).1
  unfolding observe
  observe-Distinct addresses =
      let kept = look_each-Distinct addresses h.book.machines d.0 in
      if_both (λ (r : Bool × Host). HostDistinct r.1) h.book.refused _ _ d
        (if_both (λ (r : Bool × Host). HostDistinct r.1) _ _ _
          (through-Distinct saves _ h.file kept d.1) (kept, d.1))

pub load-Distinct :
    (on : Option Checked) (f : File) → FileDistinct f → Distinct (load on f).machines
unfolding load
load-Distinct on no_file e = tt
load-Distinct on unreadable e = tt
load-Distinct on (holds m) e = e
