-- ===== src/RunLease.antt =====
-- crates/onv-agent-lib/src/run_lease.rs: the run lease's file, read strictly by the agent and by the
-- host timer. The JSON reader is serde_json's, a parameter.
use omnuv_provider.Base.{ℕ, suc, List, [], ◌∷◌, Option, none, some, if◌then◌else◌, is_empty}
use omnuv_provider.Base.Text.{Text, trim}

pub record Written : Type 0 where
  pub id : Text
  pub until_unix : ℕ

pub data Body : Type 0 where
  all_read : List Written → Body
  -- not a run-lease file
  not_a_file : Body
  -- the lease at this place names no machine
  unnamed : ℕ → Body

-- `position(|l| l.id.trim().is_empty())`
unfoldable pub first_unnamed : ℕ → List Written → Option ℕ
first_unnamed n [] = none
first_unnamed n (l ∷ ls) = if is_empty (trim l.id) then some n else first_unnamed (suc n) ls

unfoldable pub read_body : (Text → Option (List Written)) → Text → Body
unfolding first_unnamed
read_body from_json body = if is_empty (trim body) then all_read [] else elim (from_json body) [
  | none ↦ not_a_file
  | some ls ↦ elim (first_unnamed 0 ls) [ some n ↦ unnamed n | none ↦ all_read ls ]
]

-- Seconds between two looks of the lease task.
abbrev pub write_every : ℕ
write_every = 30
