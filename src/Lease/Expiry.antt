-- ===== src/Lease/Expiry.antt =====
-- Which machines the lease task stops, and what a look at them changes, in src/lease.rs.
use omnuv_provider.Base.{
  ℕ, ◌≤◌, ◌≡◌, ◌↔◌, refl, sym, subst, ◌∙◌, ap, inl, inr, Bool, true, false, ◌||◌, Option-cases,
  List, [], ◌∷◌, Option, none, some, arith, any, Bool-cases,
}
use omnuv_provider.Base.Text.{Text, same, same→eq, same_refl}
use omnuv_provider.Base.Assoc.{Assoc, get, get-insert, Unique}
use omnuv_provider.Hypervisor.{Config, Answer, ok, fault, Api, Run}
use omnuv_provider.Names.{tag_instance}
use omnuv_provider.Leased.{has_stamp, stop_leased, no_stops}
use omnuv_provider.Leased.Sent.{Licensed, stop_leased-Licensed}
use omnuv_provider.Lease.{
  Lease, Book, is_expired, expired_ids, insert_sorted, sort, expired, may_restart, mark_stopped,
  check_each, check,
}

abbrev pub member : Text → List Text → Bool
member x xs = any (λ y. same y x) xs

insert_sorted-member :
    (a x : Text) (xs : List Text) → member x (insert_sorted a xs) ≡ (same a x || member x xs)
unfolding insert_sorted
insert_sorted-member a x [] = refl
insert_sorted-member a x (y ∷ ys) = ground (arith, insert_sorted-member a x ys)

sort-member : (x : Text) (xs : List Text) → member x (sort xs) ≡ member x xs
unfolding sort
sort-member x [] = refl
sort-member x (y ∷ ys) =
    insert_sorted-member y x (sort ys) ∙ ap (λ b. same y x || b) (sort-member x ys)

some-eq : (l k : Lease) → some l ≡ some k → l ≡ k
some-eq l k e = cc

-- Whether a lease has run out and its machine is not stopped yet.
abbrev pub owed : ℕ → Option Lease → Bool
owed now none = false
owed now (some l) = is_expired now l

expired_ids-member :
    (now : ℕ) (id : Text) (m : Assoc Lease)
    → Unique m
    → member id (expired_ids now m) ≡ owed now (get id m)
unfolding get
expired_ids-member now id [] u = refl
expired_ids-member now id ((k, l) ∷ m) u = elim (Bool-cases (same k id)) [
  | inl e ↦
      let free : get id m ≡ none = subst (λ t. get t m ≡ none) (same→eq k id e) u.0 in
      ground (arith, expired_ids-member now id m u.1, ap (owed now) free)
  | inr ne ↦ ground (arith, expired_ids-member now id m u.1)
]

expired-owed :
    (now : ℕ) (id : Text) (b : Book)
    → Unique b.leases
    → member id (expired now b) ≡ owed now (get id b.leases)
unfolding expired
expired-owed now id b u =
    sort-member id (expired_ids now b.leases) ∙ expired_ids-member now id b.leases u

-- Its deadline has come, and it was not stopped for that.
abbrev pub RunOut : ℕ → Lease → Type 0
RunOut now l = (l.deadline ≤ now) × (l.stopped ≡ false)

owed-RunOut :
    (now : ℕ) (o : Option Lease) → owed now o ≡ true ↔ ((l : Lease) × (o ≡ some l) × RunOut now l)
owed-RunOut now none = ((λ e. absurd (ground arith)), λ (l, e, _). absurd (ground arith))
owed-RunOut now (some l) = (
  λ e. (l, refl, (ground arith, ground arith)),
  λ (k, e, (due, left)). ground (arith, some-eq l k e),
)

-- The list of machines that a look of the lease task goes through to stop names a machine exactly if
-- the book has a lease of it, that lease's deadline has come, and it is not marked as stopped. No
-- machine has two leases before.
pub expired-member :
    (now : ℕ) (id : Text) (b : Book)
    → Unique b.leases
    → member id (expired now b) ≡ true ↔ ((l : Lease) × (get id b.leases ≡ some l) × RunOut now l)
expired-member now id b u =
    let (to, from) = owed-RunOut now (get id b.leases) in
    ((λ e. to (sym (expired-owed now id b u) ∙ e)), λ h. expired-owed now id b u ∙ from h)

may_restart-owed :
    (now later : ℕ) (id : Text) (b : Book)
    → owed now (get id b.leases) ≡ true
    → now ≤ later
    → may_restart id later b ≡ false
unfolding may_restart
may_restart-owed now later id b h le = ground arith

-- A machine that a look stops is one that maintenance does not start, then or later. No machine has
-- two leases before.
pub expired_no_restart :
    (now later : ℕ) (id : Text) (b : Book)
    → Unique b.leases
    → member id (expired now b) ≡ true
    → now ≤ later
    → may_restart id later b ≡ false
expired_no_restart now later id b u h le =
    may_restart-owed now later id b (sym (expired-owed now id b u) ∙ h) le

mark_stopped-may_restart :
    (j id : Text) (later : ℕ) (b : Book)
    → may_restart id later (mark_stopped j b) ≡ may_restart id later b
unfolding mark_stopped may_restart
mark_stopped-may_restart j id later b = elim (Option-cases (get j b.leases)) [
  | inl e ↦ rw (e, mark_stopped) refl
  | inr (l, e) ↦ elim (Bool-cases (same j id)) [
    | inl q ↦
        let held : get id b.leases ≡ some l = sym (ap (λ t. get t b.leases) (same→eq j id q)) ∙ e in
        ground (arith, get-insert j id (record l { stopped = true }) b.leases, held)
    | inr q ↦ ground (arith, get-insert j id (record l { stopped = true }) b.leases)
  ]
]

outcome-may_restart :
    (a : Answer (Unit {0})) (j id : Text) (later : ℕ) (b : Book)
    → may_restart id later (elim a [ ok _ ↦ mark_stopped j b | fault _ ↦ b ])
      ≡ may_restart id later b
outcome-may_restart (ok _) j id later b = mark_stopped-may_restart j id later b
outcome-may_restart (fault e) j id later b = refl

module _ {W : Type 0} (api : Api W) where
  check_each-may_restart :
      (ids : List Text) (id : Text) (later : ℕ) (b : Book) (r : Run W)
      → may_restart id later (check_each api ids b r).0 ≡ may_restart id later b
  unfolding check_each
  check_each-may_restart [] id later b r = refl
  check_each-may_restart (j ∷ js) id later b r =
      check_each-may_restart js id later _ _
      ∙ outcome-may_restart (stop_leased api false j no_stops r).0 j id later b

  -- Whatever the hypervisor does, a look of the lease task changes for no machine whether
  -- maintenance may start it.
  pub check-may_restart :
      (now later : ℕ) (id : Text) (b : Book) (r : Run W)
      → may_restart id later (check api now b r).0 ≡ may_restart id later b
  unfolding check
  check-may_restart now later id b r = check_each-may_restart (expired now b) id later b r

  -- A configuration with the whole stamp of a machine whose lease had run out.
  abbrev pub StampOut : ℕ → Book → Config → Type 0
  StampOut now b c =
      (id : Text) × (l : Lease) × (get id b.leases ≡ some l)
      × RunOut now l
      × (has_stamp tag_instance id c ≡ true)

  check_each-Licensed :
      (P : Config → Type 0) (ids : List Text) (b : Book) (r : Run W)
      → ((id : Text)
          → member id ids ≡ true
          → (c : Config) → has_stamp tag_instance id c ≡ true
          → P c)
      → Licensed P r.trace
      → Licensed P (check_each api ids b r).1.trace
  unfolding check_each
  check_each-Licensed P [] b r f h = h
  check_each-Licensed P (j ∷ js) b r f h =
      check_each-Licensed P js _ _ (λ id m. f id (ground arith))
        (stop_leased-Licensed api false j P (λ c k. f j (ground (arith, same_refl j)) c k) no_stops
          r h)

  -- Whatever the hypervisor does, a look of the lease task sends a stop only to a guest that has, in
  -- its configuration read just before, the whole stamp of a machine of which the book has a lease,
  -- whose deadline had come and which was not marked as stopped. No machine has two leases before. A
  -- trace that was so before stays so.
  pub check-Licensed :
      (now : ℕ) (b : Book) (r : Run W)
      → Unique b.leases
      → Licensed (StampOut now b) r.trace
      → Licensed (StampOut now b) (check api now b r).2.trace
  unfolding check
  check-Licensed now b r u h =
      check_each-Licensed (StampOut now b) (expired now b) b r
        (λ id m c k. let (l, e, out) = (expired-member now id b u).0 m in (id, l, e, out, k)) h
