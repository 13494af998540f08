-- ===== src/Timer.antt =====
-- crates/onv-lease-expire/src/lib.rs: one run of the host timer. What it reads of the file system is
-- its argument `Looks`, the hypervisor's API a parameter, and its log lines are values; times are
-- nanoseconds, the wall clock's from the epoch.
pub mod Guards
pub mod Due
pub mod Stopping
pub mod Sends
pub mod Deadline
use omnuv_provider.Base.{
  ℕ, suc, ◌+◌, ◌/◌, Bool, true, false, ◌&&◌, ◌||◌, not, List, [], ◌∷◌, ◌++◌, map, Option, none,
  some, ltb, leb, ◌==◌, if◌then◌else◌, any, is_empty, keep, length, find, is_some,
}
use omnuv_provider.Base.Text.{Text, codes, same}
use omnuv_provider.Names.{pool_buyers}
use omnuv_provider.Hypervisor.{Answer, ok, fault, Guest, Api, Run}
use omnuv_provider.RunLease.{Written, all_read, not_a_file, unnamed, read_body}
use omnuv_provider.Lease.{seconds, sort_written}
use omnuv_provider.Leased.{Stops, no_stops, stop_leased}

-- How recently a lock-free agent must have written the file for the timer to leave it alone.
abbrev pub stale_after : ℕ
stale_after = seconds 45

-- The timer's period.
abbrev pub every : ℕ
every = seconds 60

-- What one run found, and did.
pub data Verdict : Type 0 where
  no_file : Verdict
  agent_holds : Option ℕ → Verdict
  written_recently : ℕ → Verdict
  nothing_leased : Verdict
  none_due : ℕ → Verdict
  refused : Verdict
  would_stop : List Text → Verdict
  acted : ℕ → ℕ → ℕ → ℕ → Verdict

unfoldable pub exit_code : Verdict → ℕ
exit_code no_file = 0
exit_code (agent_holds none) = 0
exit_code (agent_holds (some age)) = 1
exit_code (written_recently age) = 0
exit_code nothing_leased = 0
exit_code (none_due n) = 0
exit_code refused = 2
exit_code (would_stop ids) = 0
exit_code (acted due stops refusals failed) = if ltb 0 failed then 1 else 0

-- A look at the file system.
pub data Look (A : Type 0) : Type 0 where
  found : A → Look A
  not_there : Look A
  failed : Look A

pub data LockTry : Type 0 where
  unopened taken would_block lock_error : LockTry

-- What a run reads: whether the file is there, the lock, the file's age and its body.
pub record Looks : Type 0 where
  pub present : Look (Unit {0})
  pub lock : LockTry
  pub age : Look ℕ
  pub content : Look Text

-- A line of the timer's own log.
pub data Said : Type 0 where
  said_file_refused said_agent_stale : Said
  said_stopped said_refused : Text → Guest → Said
  said_failed said_unseen : Text → Said

abbrev pub whole_seconds : ℕ → ℕ
whole_seconds t = t / 1_000_000_000

-- `dedup_by` on ids: of neighbours with one id, the first.
unfoldable pub dedup : List Written → List Written
dedup [] = []
dedup (a ∷ []) = a ∷ []
dedup (a ∷ b ∷ rest) = elim (dedup (b ∷ rest)) [
  | [] ↦ a ∷ []
  | c ∷ more ↦ if same a.id c.id then a ∷ more else a ∷ c ∷ more
]

-- The leases past their time, by id, each id once.
unfoldable pub due_leases : ℕ → List Written → List Written
unfolding dedup
due_leases now_unix ls = dedup (sort_written (keep (λ (l : Written). leb l.until_unix now_unix) ls))

-- What a run has done so far: guests stopped, refused, machines failed, and what was said.
pub record Done : Type 0 where
  pub stops : ℕ
  pub refusals : ℕ
  pub failures : ℕ
  pub said : List Said

abbrev pub nothing_done : Done
nothing_done = record { stops = 0; refusals = 0; failures = 0; said = [] }

-- What one stop's outcome adds: a failed call, and no visible guest with the stamp, both count as
-- a machine not stopped.
unfoldable pub tally : Text → Answer (Unit {0}) → Stops → Done → Done
tally id a out d =
    let said = d.said ++ (map (said_stopped id) out.stopped ++ map (said_refused id) out.refused) in
    let stops = d.stops + length out.stopped in
    let refusals = d.refusals + length out.refused in
    elim a [
      | fault e ↦ record {
        stops = stops;
        refusals = refusals;
        failures = suc d.failures;
        said = said ++ said_failed id ∷ [];
      }
      | ok _ ↦
          if out.claimed == 0
          then record {
            stops = stops;
            refusals = refusals;
            failures = suc d.failures;
            said = said ++ said_unseen id ∷ [];
          }
          else record { stops = stops; refusals = refusals; failures = d.failures; said = said }
    ]

module _ {W : Type 0} (api : Api W) where
  unfoldable pub stop_due : List Written → Done → Run W → Done × Run W
  stop_due [] d r = (d, r)
  stop_due (l ∷ ls) d r =
      let (a, out, r') = stop_leased api true l.id no_stops r in stop_due ls (tally l.id a out d) r'

module _ {W : Type 0} (driver : Option (Api W)) (from_json : Text → Option (List Written)) where
  -- The machines due, stopped if `act`.
  unfoldable pub act_on : List Written → Bool → Run W → Verdict × List Said × Run W
  act_on due false r = (would_stop (map (λ (l : Written). l.id) due), [], r)
  act_on due true r = elim driver [
    | none ↦ (refused, said_file_refused ∷ [], r)
    | some api ↦
        let (d, r') = stop_due api due nothing_done r in
        (acted (length due) d.stops d.refusals d.failures, d.said, r')
  ]

  -- The file's leases.
  unfoldable pub on_leases : ℕ → Bool → List Written → Run W → Verdict × List Said × Run W
  on_leases now act ls r =
      let due = due_leases (whole_seconds now) ls in
      if is_empty ls
      then (nothing_leased, [], r)
      else if is_empty due
      then (none_due (length ls), [], r)
      else act_on due act r

  unfoldable pub on_body : ℕ → Bool → Text → Run W → Verdict × List Said × Run W
  on_body now act text r = elim (read_body from_json text) [
    | not_a_file ↦ (refused, said_file_refused ∷ [], r)
    | unnamed n ↦ (refused, said_file_refused ∷ [], r)
    | all_read ls ↦ on_leases now act ls r
  ]

  unfoldable pub on_content : ℕ → Bool → Look Text → Run W → Verdict × List Said × Run W
  on_content now act not_there r = (no_file, [], r)
  on_content now act failed r = (refused, said_file_refused ∷ [], r)
  on_content now act (found text) r = on_body now act text r

  -- Under the lock.
  unfoldable pub on_age : ℕ → Bool → Look ℕ → Look Text → Run W → Verdict × List Said × Run W
  on_age now act not_there content r = (no_file, [], r)
  on_age now act failed content r = (refused, said_file_refused ∷ [], r)
  on_age now act (found age) content r =
      if ltb age stale_after
      then (written_recently (whole_seconds age), [], r)
      else on_content now act content r

  -- The agent's lease task holds the lock: said when the file is stale too.
  unfoldable pub on_held : Look ℕ → Run W → Verdict × List Said × Run W
  on_held not_there r = (agent_holds none, [], r)
  on_held failed r = (agent_holds none, [], r)
  on_held (found age) r =
      if ltb stale_after age
      then (agent_holds (some (whole_seconds age)), said_agent_stale ∷ [], r)
      else (agent_holds none, [], r)

  unfoldable pub on_lock : ℕ → Bool → LockTry → Looks → Run W → Verdict × List Said × Run W
  on_lock now act unopened looks r = (refused, said_file_refused ∷ [], r)
  on_lock now act lock_error looks r = (refused, said_file_refused ∷ [], r)
  on_lock now act would_block looks r = on_held looks.age r
  on_lock now act taken looks r = on_age now act looks.age looks.content r

  unfoldable pub on_present :
      ℕ → Bool → Look (Unit {0}) → Looks → Run W → Verdict × List Said × Run W
  on_present now act not_there looks r = (no_file, [], r)
  on_present now act failed looks r = (refused, said_file_refused ∷ [], r)
  on_present now act (found _) looks r = on_lock now act looks.lock looks r

  -- One run of the timer.
  unfoldable pub pass : Looks → ℕ → Bool → Run W → Verdict × List Said × Run W
  pass looks now act r = on_present now act looks.present looks r
