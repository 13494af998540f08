-- ===== src/Lease/Resume.antt =====
-- A restarted agent resumes the leases of the file: `resumed` of src/lease.rs.
use omnuv_provider.Base.{
  ℕ, ◌+◌, ◌-◌, ◌≤◌, ◌≡◌, refl, sym, subst, ◌∙◌, ap, inl, inr, false, List, [], ◌∷◌, Option, none,
  some, arith, leb, Bool-cases, In,
}
use omnuv_provider.Base.Text.{Text, same, same→eq, same_refl}
use omnuv_provider.Base.Assoc.{Assoc, get, get-insert}
use omnuv_provider.RunLease.{Written, Body, not_a_file, unnamed, all_read, read_body}
use omnuv_provider.Lease.{
  Lease, Book, not_resumed, FileRead, not_found, io_error, seconds, body, Resumed, resumed_ok,
  resume_one, resume_each, resumed,
}

-- The deadline a lease of the file has on this process's clock.
abbrev pub mapped : ℕ → ℕ → Written → ℕ
mapped now wall l = now + (seconds l.until_unix - wall)

-- There is a lease, until then or later.
abbrev pub Reaches : ℕ → Option Lease → Type 0
Reaches d o = (x : Lease) × (o ≡ some x) × (d ≤ x.deadline)

abbrev fresh : ℕ → ℕ → Written → Lease
fresh now wall l = record {
  deadline = mapped now wall l;
  wall = seconds l.until_unix;
  stopped = false;
}

resume_one-grows :
    (now wall : ℕ) (l : Written) (n : ℕ) (m : Assoc Lease) (id : Text) (d : ℕ)
    → Reaches d (get id m)
    → Reaches d (get id (resume_one now wall l (n, m)).1)
unfolding resume_one
resume_one-grows now wall l n m id d (x, e, le) = elim (Bool-cases (same l.id id)) [
  | inl q ↦
      let held : get l.id m ≡ some x = ap (λ t. get t m) (same→eq l.id id q) ∙ e in
      elim (Bool-cases (leb (mapped now wall l) x.deadline)) [
        | inl later ↦ (x, ground arith, le)
        | inr sooner ↦ (
          fresh now wall l,
          ground (arith, get-insert l.id id (fresh now wall l) m),
          ground arith,
        )
      ]
  | inr q ↦ (x, ground (arith, get-insert l.id id (fresh now wall l) m), le)
]

resume_one-Reaches :
    (now wall : ℕ) (l : Written) (n : ℕ) (m : Assoc Lease)
    → Reaches (mapped now wall l) (get l.id (resume_one now wall l (n, m)).1)
unfolding resume_one
resume_one-Reaches now wall l n m = go (get l.id m) refl
  where
    go :
        (o : Option Lease)
        → get l.id m ≡ o
        → Reaches (mapped now wall l) (get l.id (resume_one now wall l (n, m)).1)
    go none e = (
      fresh now wall l,
      ground (arith, get-insert l.id l.id (fresh now wall l) m, same_refl l.id),
      ground arith,
    )
    go (some x) e = elim (Bool-cases (leb (mapped now wall l) x.deadline)) [
      | inl later ↦ (x, ground arith, ground arith)
      | inr sooner ↦ (
        fresh now wall l,
        ground (arith, get-insert l.id l.id (fresh now wall l) m, same_refl l.id),
        ground arith,
      )
    ]

resume_each-grows :
    (now wall : ℕ) (ls : List Written) (n : ℕ) (m : Assoc Lease) (id : Text) (d : ℕ)
    → Reaches d (get id m)
    → Reaches d (get id (resume_each now wall ls (n, m)).1)
unfolding resume_each
resume_each-grows now wall [] n m id d h = h
resume_each-grows now wall (l ∷ ls) n m id d h =
    resume_each-grows now wall ls _ _ id d (resume_one-grows now wall l n m id d h)

resume_each-Reaches :
    (now wall : ℕ) (ls : List Written) (n : ℕ) (m : Assoc Lease) (l : Written)
    → In l ls
    → Reaches (mapped now wall l) (get l.id (resume_each now wall ls (n, m)).1)
unfolding resume_each
resume_each-Reaches now wall (k ∷ ls) n m l (inl e) = resume_each-grows now wall ls _ _ l.id _ (
    subst (λ (q : Written). Reaches (mapped now wall q) (get q.id (resume_one now wall k (n, m)).1))
      (sym e) (resume_one-Reaches now wall k n m))
resume_each-Reaches now wall (k ∷ ls) n m l (inr h) = resume_each-Reaches now wall ls _ _ l h
resume_each-Reaches now wall [] n m l h = absurd h

-- The book after the file was read: as it was, when the file was not resumed.
abbrev pub book_after : Book → Resumed → Book
book_after b (resumed_ok n b') = b'
book_after b (not_resumed u) = b

-- A file that is read whole is resumed whole: every lease it holds is a lease of the book, until its
-- time on this process's clock or later.
pub resumed-Reaches :
    (from_json : Text → Option (List Written)) (text : Text) (ls : List Written) (now wall : ℕ)
    (b : Book) (l : Written)
    → read_body from_json text ≡ all_read ls
    → In l ls
    → Reaches
        (mapped now wall l)
        (get l.id (book_after b (resumed from_json (body text) now wall b)).leases)
unfolding resumed
resumed-Reaches from_json text ls now wall b l e h =
    rw (e, resumed) (resume_each-Reaches now wall ls 0 b.leases l h)

-- A lease the book holds until some time is held until then or later after any reading of the file,
-- a failed one included.
pub resumed-keeps :
    (from_json : Text → Option (List Written)) (file : FileRead) (now wall : ℕ) (b : Book)
    (id : Text) (d : ℕ)
    → Reaches d (get id b.leases)
    → Reaches d (get id (book_after b (resumed from_json file now wall b)).leases)
unfolding resumed
resumed-keeps from_json not_found now wall b id d h = h
resumed-keeps from_json io_error now wall b id d h = h
resumed-keeps from_json (body text) now wall b id d h = go (read_body from_json text) refl
  where
    go :
        (x : Body)
        → read_body from_json text ≡ x
        → Reaches d (get id (book_after b (resumed from_json (body text) now wall b)).leases)
    go (all_read ls) e = rw (e, resumed) (resume_each-grows now wall ls 0 b.leases id d h)
    go not_a_file e = rw (e, resumed) h
    go (unnamed n) e = rw (e, resumed) h
