-- ===== src/Scrub.antt =====
-- crates/onv-scrub/src/scrub.rs: a card is scrubbed before it is sold again. What Core wants, the
-- outcomes held until Core has answered, what one look at a scrub guest concludes, and what a guest's
-- description says of its scrub. Of a guest's report, its float of seconds and its untyped `persistent`
-- value are left out.
pub mod Build
pub mod Pass
pub mod Rule
pub mod Rolled
pub mod Safe
pub mod Looks
use omnuv_provider.Base.{
  ℕ, zero, suc, ◌+◌, ◌^◌, Bool, true, false, ◌&&◌, ◌||◌, not, List, [], ◌∷◌, ◌++◌, Option, none,
  some, if◌then◌else◌, leb, ◌==◌, ◌>>=◌, is_empty,
}
use omnuv_provider.Base.Text.{Text, codes, same, trim, split, drop_return, strip_prefix}
use omnuv_provider.Base.Decimal.{scan, parse_uint}
use omnuv_provider.Names.{tag_scrub, stamped}
use omnuv_provider.Hypervisor.{Config, field}
use omnuv_provider.Leased.{stamp_line}

-- The i32 of an attempt, over the native numbers.
pub data ℤ : Type 0 where
  pos : ℕ → ℤ
  negsuc : ℕ → ℤ

abbrev pub same_int : ℤ → ℤ → Bool
same_int (pos a) (pos b) = a == b
same_int (pos a) (negsuc b) = false
same_int (negsuc a) (pos b) = false
same_int (negsuc a) (negsuc b) = a == b

unfoldable pub negated : ℕ → ℤ
negated zero = pos 0
negated (suc n) = negsuc n

-- `str::parse::<i32>()`
unfoldable pub parse_i32 : Text → Option ℤ
parse_i32 [] = none
parse_i32 (c ∷ []) = parse_uint (2 ^ 31) (c ∷ []) >>= λ n. some (pos n)
parse_i32 (c ∷ d ∷ s) =
    if c == b'-'
    then (scan (2 ^ 31 + 1) 0 (d ∷ s) >>= λ n. some (negated n))
    else (parse_uint (2 ^ 31) (c ∷ d ∷ s) >>= λ n. some (pos n))

-- One scrub Core wants run.
pub record Wanted : Type 0 where
  pub id : Text
  pub attempt : ℤ
  pub card : Text
  pub node : Text
  pub model : Text
  pub image : Text

pub data Outcome : Type 0 where
  clean : Outcome
  unclean : Outcome

pub record GuestReport : Type 0 where
  pub status : Text
  pub stage : Text
  pub uptime_s : ℕ
  pub cards : ℕ
  pub total_mib : ℕ
  pub covered_mib : ℕ
  pub residue_mib : ℕ
  pub verified : Bool
  pub detail : Text

-- What the agent adds to what the program measured.
pub data Added : Type 0 where
  nothing_added : Added
  stopped_first : Added
  past_deadline : ℕ → Added

pub record Detail : Type 0 where
  pub measured : Option GuestReport
  pub added : Added

-- What one look concludes.
pub data Step : Type 0 where
  wait : Step
  over : Outcome → Detail → Step

abbrev pub says : Text → Option GuestReport → Bool
says word none = false
says word (some r) = same r.status word

-- `deadline` is in seconds.
unfoldable pub step : Option GuestReport → Bool → ℕ → ℕ → Step
step report running uptime deadline =
    let add = λ (a : Added). over unclean (record { measured = report; added = a }) in
    if says (codes "clean") report
    then over clean (record { measured = report; added = nothing_added })
    else if says (codes "failed") report
    then add nothing_added
    else if not running
    then add stopped_first
    else if leb deadline uptime
    then add (past_deadline uptime)
    else wait

-- One attempt's outcome, as it is reported.
pub record Said : Type 0 where
  pub id : Text
  pub attempt : ℤ
  pub outcome : Outcome
  pub detail : Detail
  pub guest_uptime_s : ℕ

-- What Core made of one reported attempt.
pub record Recorded : Type 0 where
  pub id : Text
  pub attempt : ℤ
  pub result : Text

-- Outcomes by their scrub and attempt: a map, in no order.
abbrev pub Held : Type 0
Held = List Said

abbrev pub is_of : Text → ℤ → Said → Bool
is_of id n s = same s.id id && same_int s.attempt n

unfoldable pub forget : Text → ℤ → Held → Held
forget id n [] = []
forget id n (s ∷ held) = if is_of id n s then forget id n held else s ∷ forget id n held

-- Forgets what Core has concluded on; `held` is the one word that keeps it.
unfoldable pub answered : List Recorded → Held → Held
answered [] held = held
answered (r ∷ rs) held =
    if same r.result (codes "held")
    then answered rs held
    else answered rs (forget r.id r.attempt held)

abbrev newline : ℕ → Bool
newline c = c == 10

-- `s.lines()`, from the pieces between line feeds.
unfoldable pub line_ends : List Text → List Text
line_ends [] = []
line_ends (p ∷ []) = if is_empty p then [] else p ∷ []
line_ends (p ∷ q ∷ ps) = drop_return p ∷ line_ends (q ∷ ps)

unfoldable pub lines : Text → List Text
lines s = line_ends (split newline s)

-- The first line that says an attempt, its rest.
unfoldable pub find_attempt : List Text → Option Text
find_attempt [] = none
find_attempt (l ∷ ls) = elim (strip_prefix (codes "attempt ") (trim l)) [
  | some n ↦ some n
  | none ↦ find_attempt ls
]

abbrev pub skip_one : List Text → List Text
skip_one [] = []
skip_one (l ∷ ls) = ls

-- The attempt a scrub guest was made for: a line after its stamp.
unfoldable pub attempt_of : Config → Option ℤ
attempt_of c = field (codes "description") c >>= λ d.
    find_attempt (skip_one (lines d)) >>= λ n. parse_i32 (trim n)

-- The scrub a guest's stamp names: the whole id on its first line.
unfoldable pub scrub_of : Config → Option Text
scrub_of c = stamp_line c >>= λ l.
    strip_prefix (stamped tag_scrub []) l >>= λ id. if is_empty id then none else some id
