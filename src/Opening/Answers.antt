-- ===== src/Opening/Answers.antt =====
-- What `allocate` of crates/onv-hostnet/src/opening.rs answers, and what it leaves behind.
use omnuv_provider.Base.{
  ℕ, zero, suc, ◌+◌, ◌≡◌, ◌≤◌, ◌<◌, ◌⊎◌, refl, sym, ap, ◌∙◌, subst, Bool, true, false, [], ◌∷◌,
  Option, none, some, arith, inl, inr, Bool-cases, Option-cases, if◌then◌else◌, ==_iff, ◌==◌,
}
use omnuv_provider.Base.Results.{Result, done, failed}
use omnuv_provider.Base.Text.{Text, same_iff, same_refl, same→eq}
use omnuv_provider.Base.Assoc.{get}
use omnuv_provider.Opening.{Checked}
use omnuv_provider.Opening.Book.{
  Slot, Machines, Book, File, holds, Host, Opened, Reply, persist, through, held, lowest_free,
  range_length, put, given, answered, allocate_at, allocate_for, allocate_on, allocate, opened,
  same_machines,
}

from_next :
    (m : Machines) (p r : ℕ)
    → held p m ≡ true
    → p ≤ r
    → (p + 1 ≤ r → held r m ≡ true)
    → held r m ≡ true
from_next m p r taken h later = elim (Bool-cases (p == r)) [
  | inl e ↦ subst (λ x. held x m ≡ true) ((==_iff p r).0 e) taken
  | inr ne ↦ later (ground arith)
]

-- The search tries the ports in order.
lowest_free-lem :
    (m : Machines) (n p : ℕ)
    → ((q : ℕ) × (lowest_free m n p ≡ some q)
        × (p ≤ q)
        × (q < p + n)
        × (held q m ≡ false)
        × ((r : ℕ) → p ≤ r → r < q → held r m ≡ true))
      ⊎ ((lowest_free m n p ≡ none) × ((r : ℕ) → p ≤ r → r < p + n → held r m ≡ true))
unfolding lowest_free
lowest_free-lem m zero p = inr (refl, λ r h k. absurd (omega arith))
lowest_free-lem m (suc n) p = elim (Bool-cases (held p m)) [
  | inr free ↦ inl (p, rw free refl, omega arith, omega arith, free, λ r h k. absurd (omega arith))
  | inl taken ↦ elim (lowest_free-lem m n (p + 1)) [
    | inl (q, e, lo, hi, free, low) ↦ inl (
      q,
      rw taken e,
      omega arith,
      omega arith,
      free,
      λ r h k. from_next m p r taken h (λ g. low r g k),
    )
    | inr (e, all_held) ↦
        inr (rw taken e, λ r h k. from_next m p r taken h (λ g. all_held r g (omega arith)))
  ]
]

get-put : (j : Text) (w : Slot) (m : Machines) → get j m ≡ none → get j (put j w m) ≡ some w
unfolding get put
get-put j w [] h = rw (same_refl j) refl
get-put j w ((k, v) ∷ m) h = ground (arith, same_refl j, same_iff j k, same_iff k j, get-put j w m)

same_machines-eq : (m n : Machines) → same_machines m n ≡ true → m ≡ n
unfolding same_machines
same_machines-eq [] [] h = refl
same_machines-eq [] (e ∷ n) h = absurd (ground arith)
same_machines-eq (e ∷ m) [] h = absurd (ground arith)
same_machines-eq ((j, s) ∷ m) ((k, t) ∷ n) h =
    ground (arith, same→eq j k, same_machines-eq m n, ==_iff s.port t.port)

answered-first :
    (o : Opened) (r : Bool × Host) → (answered o r).0 ≡ (if r.0 then done (some o) else failed tt)
answered-first o (true, h) = refl
answered-first o (false, h) = refl

answered-second : (o : Opened) (r : Bool × Host) → (answered o r).1 ≡ r.1
answered-second o (true, h) = refl
answered-second o (false, h) = refl

answered-is :
    (o o' : Opened) (r : Bool × Host) → (answered o r).0 ≡ done (some o') → (r.0 ≡ true) × (o ≡ o')
answered-is o o' (true, h) e = (refl, cc)
answered-is o o' (false, h) e = absurd (ground arith)

through-works : (b : Book) (f : File) → (through true b f).0 ≡ true
unfolding through persist
through-works b f = ground arith

through-book :
    (saves : Bool) (b : Book) (f : File)
    → ((through saves b f).1.book.on ≡ b.on)
      × ((through saves b f).1.book.refused ≡ b.refused)
      × ((through saves b f).1.book.machines ≡ b.machines)
unfolding through persist
through-book saves b f = ground arith

-- A write that worked leaves the book's map in the file.
through-file :
    (saves : Bool) (b : Book) (f : File)
    → b.has_path ≡ true
    → ((w : Machines) → b.written ≡ some w → f ≡ holds w)
    → (through saves b f).0 ≡ true
    → (through saves b f).1.file ≡ holds b.machines
unfolding through persist
through-file saves b f path sync works = go b.written refl
  where
    go : (w : Option Machines) → b.written ≡ w → (through saves b f).1.file ≡ holds b.machines
    go none e = ground arith
    go (some w) e = ground (arith, sync w e, same_machines-eq w b.machines)

allocate-new :
    (saves : Bool) (id : Text) (h : Host) (c : Checked)
    → h.book.on ≡ some c
    → h.book.refused ≡ false
    → get id h.book.machines ≡ none
    → allocate saves id h
      ≡ allocate_at (lowest_free h.book.machines (range_length c) c.first) saves c id h
unfolding allocate allocate_on allocate_for
allocate-new saves id h c on read new = rw (on, read, new) refl

allocate_at-first :
    (saves : Bool) (p : ℕ) (c : Checked) (id : Text) (h : Host)
    → saves ≡ true
    → (allocate_at (some p) saves c id h).0
      ≡ done (some (record { port = p; public_ip = c.public_ip }))
unfolding allocate_at
allocate_at-first saves p c id h works =
    rw
      (
        works,
        answered-first (record { port = p; public_ip = c.public_ip })
            (through true (given id p h.book) h.file),
        through-works (given id p h.book) h.file,
      )
      refl

-- What a machine that holds a port is answered.
abbrev Opens : Text → Opened → Host → Type 0
Opens id o h = (opened id h ≡ some o) × ((again : Bool) → allocate again id h ≡ (done (some o), h))

holds-Opens :
    (id : Text) (h : Host) (c : Checked) (s : Slot)
    → h.book.on ≡ some c
    → h.book.refused ≡ false
    → get id h.book.machines ≡ some s
    → Opens id (record { port = s.port; public_ip = c.public_ip }) h
unfolding allocate allocate_on allocate_for opened
holds-Opens id h c s on read here = (ground arith, λ again. rw (on, read, here) refl)

-- A port that was answered is held, by a book that is on.
given-Opens :
    (saves : Bool) (p : ℕ) (c : Checked) (id : Text) (h : Host) (o : Opened)
    → h.book.on ≡ some c
    → h.book.refused ≡ false
    → get id h.book.machines ≡ none
    → (allocate_at (some p) saves c id h).0 ≡ done (some o)
    → Opens id o (allocate_at (some p) saves c id h).1
unfolding allocate_at given
given-Opens saves p c id h o on read new e =
    let b = given id p h.book in
    let made : Opened = record { port = p; public_ip = c.public_ip } in
    let (k_on, k_read, k_machines) = through-book saves b h.file in
    let (works, same_o) = answered-is made o (through saves b h.file) e in
    let slot : Slot = record { port = p; address = none } in
    rw (answered-second made (through saves b h.file)) (
      subst (λ x. Opens id x (through saves b h.file).1) same_o
        (holds-Opens id (through saves b h.file).1 c slot (k_on ∙ on) (k_read ∙ read)
          (ap (get id) k_machines ∙ get-put id slot h.book.machines new)))

-- The ways to be answered a port: it was held, or it was free.
allocate-cases :
    (saves : Bool) (id : Text) (h : Host) (o : Opened)
    → (allocate saves id h).0 ≡ done (some o)
    → (c : Checked) × (h.book.on ≡ some c)
      × (h.book.refused ≡ false)
      × (((s : Slot) × (get id h.book.machines ≡ some s)
            × (allocate saves id h
                ≡ (done (some (record { port = s.port; public_ip = c.public_ip })), h)))
          ⊎ ((p : ℕ) × (get id h.book.machines ≡ none)
              × (allocate saves id h ≡ allocate_at (some p) saves c id h)))
unfolding allocate allocate_on allocate_for allocate_at
allocate-cases saves id h o e = elim (Option-cases h.book.on) [
  | inl off ↦ absurd (ground arith)
  | inr (c, on) ↦ elim (Bool-cases h.book.refused) [
    | inl refusal ↦ absurd (ground arith)
    | inr read ↦ (
      c,
      on,
      read,
      elim (Option-cases (get id h.book.machines)) [
        | inr (s, here) ↦ inl (s, here, rw (on, read, here) refl)
        | inl new ↦ elim (Option-cases (lowest_free h.book.machines (range_length c) c.first)) [
          | inl full ↦ absurd (ground arith)
          | inr (p, found) ↦ inr (p, new, rw (on, read, new, found) refl)
        ]
      ],
    )
  ]
]

answer-eq :
    (a b : Opened)
    → ◌≡◌ {A = Result (Unit {0}) (Option Opened)} (done (some a)) (done (some b))
    → a ≡ b
answer-eq a b e = cc

given-file :
    (saves : Bool) (p : ℕ) (c : Checked) (id : Text) (h : Host) (o : Opened)
    → h.book.has_path ≡ true
    → ((w : Machines) → h.book.written ≡ some w → h.file ≡ holds w)
    → (allocate_at (some p) saves c id h).0 ≡ done (some o)
    → (allocate_at (some p) saves c id h).1.file
      ≡ holds (allocate_at (some p) saves c id h).1.book.machines
unfolding allocate_at given
given-file saves p c id h o path sync e =
    let b = given id p h.book in
    let made : Opened = record { port = p; public_ip = c.public_ip } in
    let (works, same_o) = answered-is made o (through saves b h.file) e in
    rw (answered-second made (through saves b h.file))
      (through-file saves b h.file path sync works ∙ ap holds (sym (through-book saves b h.file).2))

-- The slot of a machine that was answered a port.
abbrev pub new_slot : Opened → Slot
new_slot o = record { port = o.port; address = none }

given-slot :
    (saves : Bool) (p : ℕ) (c : Checked) (id : Text) (h : Host) (o : Opened)
    → get id h.book.machines ≡ none
    → (allocate_at (some p) saves c id h).0 ≡ done (some o)
    → get id (allocate_at (some p) saves c id h).1.book.machines ≡ some (new_slot o)
unfolding allocate_at given
given-slot saves p c id h o new e =
    let b = given id p h.book in
    let made : Opened = record { port = p; public_ip = c.public_ip } in
    let (_, _, k_machines) = through-book saves b h.file in
    let (works, same_o) = answered-is made o (through saves b h.file) e in
    let slot : Slot = record { port = p; address = none } in
    rw (answered-second made (through saves b h.file)) (
      ap (get id) k_machines
      ∙ (get-put id slot h.book.machines new ∙ ap (λ (u : Opened). some (new_slot u)) same_o))

module _ (saves : Bool) (id : Text) (h : Host) where
  -- A machine without a port, when the opening is on, its file was read and writes work, is given the
  -- lowest port of the range that no machine holds, and none only if every port of the range is held.
  pub allocate-lowest :
      (c : Checked)
      → h.book.on ≡ some c
      → h.book.refused ≡ false
      → get id h.book.machines ≡ none
      → saves ≡ true
      → ((p : ℕ) × ((allocate saves id h).0
            ≡ done (some (record { port = p; public_ip = c.public_ip })))
          × (c.first ≤ p)
          × (p ≤ c.last)
          × (held p h.book.machines ≡ false)
          × ((r : ℕ) → c.first ≤ r → r < p → held r h.book.machines ≡ true))
        ⊎ (((allocate saves id h).0 ≡ done none)
            × ((r : ℕ) → c.first ≤ r → r ≤ c.last → held r h.book.machines ≡ true))
  unfolding allocate allocate_at
  allocate-lowest c on read new works =
      let e = ap (λ (r : Reply). r.0) (allocate-new saves id h c on read new) in
      elim (lowest_free-lem h.book.machines (range_length c) c.first) [
        | inl (p, q, lo, hi, free, low) ↦
            inl (p, e ∙ rw q (allocate_at-first saves p c id h works), lo, omega arith, free, low)
        | inr (q, all_held) ↦
            inr (e ∙ rw (q, allocate_at) refl, λ r g k. all_held r g (omega arith))
      ]

  -- A port that was answered is the one the machine holds afterwards: `opened` names it, and a second
  -- call answers it again and changes nothing.
  pub allocate-opened :
      (o : Opened)
      → (allocate saves id h).0 ≡ done (some o)
      → (opened id (allocate saves id h).1 ≡ some o)
        × ((again : Bool)
            → allocate again id (allocate saves id h).1 ≡ (done (some o), (allocate saves id h).1))
  allocate-opened o e =
      let (c, on, read, cases) = allocate-cases saves id h o e in
      elim cases [
        | inl (s, here, q) ↦
            let made : Opened = record { port = s.port; public_ip = c.public_ip } in
            let same_o : made ≡ o = answer-eq made o (sym (ap (λ (r : Reply). r.0) q) ∙ e) in
            subst (λ (r : Reply). Opens id o r.1) (sym q)
              (subst (λ x. Opens id x h) same_o (holds-Opens id h c s on read here))
        | inr (p, new, q) ↦
            subst (λ (r : Reply). Opens id o r.1) (sym q)
              (given-Opens saves p c id h o on read new (sym (ap (λ (r : Reply). r.0) q) ∙ e))
      ]

  -- A machine that held no port is answered one only when the file holds the book, and in it the machine
  -- with that port, if the book's last write is what the file holds and the book has a file.
  pub allocate-on_disk :
      (o : Opened)
      → h.book.has_path ≡ true
      → ((w : Machines) → h.book.written ≡ some w → h.file ≡ holds w)
      → get id h.book.machines ≡ none
      → (allocate saves id h).0 ≡ done (some o)
      → (m : Machines) × ((allocate saves id h).1.file ≡ holds m)
        × ((allocate saves id h).1.book.machines ≡ m)
        × (get id m ≡ some (new_slot o))
  allocate-on_disk o path sync new e =
      let (c, on, read, cases) = allocate-cases saves id h o e in
      elim cases [
        | inl (s, here, q) ↦ absurd (ground arith)
        | inr (p, _, q) ↦
            let answer = sym (ap (λ (r : Reply). r.0) q) ∙ e in
            (
              (allocate saves id h).1.book.machines,
              subst (λ (r : Reply). r.1.file ≡ holds r.1.book.machines) (sym q)
                  (given-file saves p c id h o path sync answer),
              refl,
              subst (λ (r : Reply). get id r.1.book.machines ≡ some (new_slot o)) (sym q)
                  (given-slot saves p c id h o new answer),
            )
      ]
