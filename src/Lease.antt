-- ===== src/Lease.antt =====
-- src/lease.rs: the run leases the agent holds. Instants and durations count nanoseconds, the wall
-- clock from the epoch; sums of them are not bounded, where the source panics past its clock's range.
-- `Book` is the state behind the source's mutex: a call of `heard`, `renew`, `forget`, `expired`,
-- `may_restart`, `mark_stopped` is one critical section.
pub mod Renewal
pub mod Expiry
pub mod Resume
use omnuv_provider.Base.{
  ℕ, suc, ◌+◌, ◌-◌, ◌*◌, ◌/◌, Bool, true, false, ◌&&◌, ◌||◌, not, List, [], ◌∷◌, map, Option, none,
  some, ltb, leb, ◌==◌, if◌then◌else◌, any, is_empty, ◌>>=◌, keep,
}
use omnuv_provider.Base.Text.{Text, same, split, text_leb}
use omnuv_provider.Base.Decimal.{parse_u64}
use omnuv_provider.Base.Assoc.{Assoc, get, insert, remove, retain}
use omnuv_provider.RunLease.{Written, Body, all_read, not_a_file, unnamed, read_body}
use omnuv_provider.Hypervisor.{Answer, ok, fault, Api, Run}
use omnuv_provider.Leased.{Stops, no_stops, stop_leased}

-- What a view wants of a machine (the protocol's `Lifecycle`, as far as the agent tells it apart).
pub data Lifecycle : Type 0 where
  running stopped absent unknown : Lifecycle

abbrev pub is_running : Lifecycle → Bool
is_running running = true
is_running stopped = false
is_running absent = false
is_running unknown = false

-- One machine of a view: what this module reads of it.
pub record InstanceSpec : Type 0 where
  pub id : Text
  pub intent : Lifecycle

abbrev pub seconds : ℕ → ℕ
seconds n = n * 1_000_000_000

-- When a view was asked for, on both clocks.
pub record Asked : Type 0 where
  pub at : ℕ
  pub wall : ℕ

pub record Reading : Type 0 where
  pub asked : Asked
  pub header : Option Text

pub record Lease : Type 0 where
  pub deadline : ℕ
  pub wall : ℕ
  pub stopped : Bool

pub record Book : Type 0 where
  pub pending : Option Reading
  pub leases : Assoc Lease

abbrev pub no_book : Book
no_book = record { pending = none; leases = [] }

-- `<T> <id> …`: T a positive number of seconds, then ids.
unfoldable pub from_words : List Text → Option (ℕ × List Text)
from_words [] = none
from_words (t ∷ ids) = parse_u64 t >>= λ n. if n == 0 then none else some (seconds n, ids)

unfoldable pub parse : Text → Option (ℕ × List Text)
unfolding from_words split
parse header = from_words (keep (λ w. not (is_empty w)) (split (λ c. c == 32) header))

unfoldable pub heard : Asked → Option Text → Book → Book
heard asked header b = record b { pending = some (record { asked = asked; header = header }) }

-- The lease a reading gives a machine.
abbrev pub granted : Asked → ℕ → Lease
granted asked t = record { deadline = asked.at + t; wall = asked.wall + t; stopped = false }

-- Never moved back by an older reading.
unfoldable pub renew_one : Asked → ℕ → Text → Assoc Lease → Assoc Lease
renew_one asked t id m = elim (get id m) [
  | none ↦ insert id (granted asked t) m
  | some l ↦ if ltb (asked.at + t) l.deadline then m else insert id (granted asked t) m
]

-- One machine of the view, under what the reading told.
unfoldable pub apply_one : Asked → Option (ℕ × List Text) → InstanceSpec → Assoc Lease → Assoc Lease
apply_one asked told spec m =
    if is_running spec.intent
    then elim told [
      | none ↦ remove spec.id m
      | some (t, ids) ↦
          if any (λ i. same i spec.id) ids then renew_one asked t spec.id m else remove spec.id m
    ]
    else m

unfoldable pub apply_each :
    Asked → Option (ℕ × List Text) → List InstanceSpec → Assoc Lease → Assoc Lease
apply_each asked told [] m = m
apply_each asked told (spec ∷ rest) m = apply_each asked told rest (apply_one asked told spec m)

abbrev pub names : List InstanceSpec → Text → Bool
names view id = any (λ (s : InstanceSpec). same s.id id) view

-- A lease is done when its machine was stopped past its deadline and the view no longer names it.
abbrev pub is_kept : Asked → List InstanceSpec → Text → Lease → Bool
is_kept asked view id l = not (l.stopped && leb l.deadline asked.at && not (names view id))

unfoldable pub told_by : Reading → Option (ℕ × List Text)
told_by r = r.header >>= parse

unfoldable pub apply : Reading → List InstanceSpec → Assoc Lease → Assoc Lease
apply r view m = retain (is_kept r.asked view) (apply_each r.asked (told_by r) view m)

unfoldable pub renew : List InstanceSpec → Book → Book
renew view b = elim b.pending [
  | none ↦ b
  | some r ↦ record { pending = none; leases = apply r view b.leases }
]

unfoldable pub forget : Text → Book → Book
forget id b = record b { leases = remove id b.leases }

abbrev pub is_expired : ℕ → Lease → Bool
is_expired now l = not l.stopped && leb l.deadline now

abbrev pub expired_ids : ℕ → Assoc Lease → List Text
expired_ids now [] = []
expired_ids now ((id, l) ∷ m) =
    if is_expired now l then id ∷ expired_ids now m else expired_ids now m

-- `sort` on texts.
unfoldable pub insert_sorted : Text → List Text → List Text
insert_sorted a [] = a ∷ []
insert_sorted a (b ∷ bs) = if text_leb a b then a ∷ b ∷ bs else b ∷ insert_sorted a bs

unfoldable pub sort : List Text → List Text
unfolding insert_sorted text_leb
sort [] = []
sort (a ∷ rest) = insert_sorted a (sort rest)

unfoldable pub expired : ℕ → Book → List Text
expired now b = sort (expired_ids now b.leases)

unfoldable pub may_restart : Text → ℕ → Book → Bool
may_restart id now b = elim (get id b.leases) [ none ↦ true | some l ↦ ltb now l.deadline ]

unfoldable pub mark_stopped : Text → Book → Book
mark_stopped id b = elim (get id b.leases) [
  | none ↦ b
  | some l ↦ record b { leases = insert id (record l { stopped = true }) b.leases }
]

-- What the file holds: each machine and its deadline in whole seconds since the epoch.
abbrev pub written : Text × Lease → Written
written (id, l) = record { id = id; until_unix = l.wall / 1_000_000_000 }

unfoldable pub insert_written : Written → List Written → List Written
insert_written a [] = a ∷ []
insert_written a (b ∷ bs) = if text_leb a.id b.id then a ∷ b ∷ bs else b ∷ insert_written a bs

unfoldable pub sort_written : List Written → List Written
unfolding insert_written text_leb
sort_written [] = []
sort_written (a ∷ rest) = insert_written a (sort_written rest)

unfoldable pub file_body : Book → List Written
file_body b = sort_written (map written b.leases)

-- Why the file's leases were not resumed.
pub data Unread : Type 0 where
  missing unreadable refused : Unread

-- What reading the file gave.
pub data FileRead : Type 0 where
  not_found io_error : FileRead
  body : Text → FileRead

pub data Resumed : Type 0 where
  resumed_ok : ℕ → Book → Resumed
  not_resumed : Unread → Resumed

-- One lease of the file: its deadline mapped from the wall clock onto the monotonic one, one
-- already past being past now, unless the book holds as late a one.
unfoldable pub resume_one : ℕ → ℕ → Written → ℕ × Assoc Lease → ℕ × Assoc Lease
resume_one now wall l (n, m) =
    let until = seconds l.until_unix in
    let deadline = now + (until - wall) in
    let fresh : ℕ × Assoc Lease =
      (suc n, insert l.id (record { deadline = deadline; wall = until; stopped = false }) m) in
    elim (get l.id m) [
      | none ↦ fresh
      | some held ↦ if leb deadline held.deadline then (n, m) else fresh
    ]

unfoldable pub resume_each : ℕ → ℕ → List Written → ℕ × Assoc Lease → ℕ × Assoc Lease
resume_each now wall [] s = s
resume_each now wall (l ∷ ls) s = resume_each now wall ls (resume_one now wall l s)

unfoldable pub resumed : (Text → Option (List Written)) → FileRead → ℕ → ℕ → Book → Resumed
resumed from_json not_found now wall b = not_resumed missing
resumed from_json io_error now wall b = not_resumed unreadable
resumed from_json (body text) now wall b = elim (read_body from_json text) [
  | not_a_file ↦ not_resumed refused
  | unnamed n ↦ not_resumed refused
  | all_read ls ↦
      let (n, m) = resume_each now wall ls (0, b.leases) in resumed_ok n (record b { leases = m })
]

module _ {W : Type 0} (api : Api W) where
  -- The expired machines in turn: each stopped, and marked when the stop ended well.
  unfoldable pub check_each : List Text → Book → Run W → Book × Run W
  check_each [] b r = (b, r)
  check_each (id ∷ ids) b r =
      let (a, out, r') = stop_leased api false id no_stops r in
      check_each ids (elim a [ ok _ ↦ mark_stopped id b | fault _ ↦ b ]) r'

  -- One look of the lease task, and the file it then writes.
  unfoldable pub check : ℕ → Book → Run W → Book × List Written × Run W
  check now b r = let (b', r') = check_each (expired now b) b r in (b', file_body b', r')
