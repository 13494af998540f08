-- ===== src/Report.antt =====
-- crates/onv-core-link/src/report.rs: the period at which the agent reports, as Core last said it;
-- and `poll` of crates/onv-agent-lib/src/timings.rs. Durations are milliseconds.
use omnuv_provider.Base.{
  ℕ, ◌*◌, ◌/◌, ◌≤◌, ◌<◌, ◌≡◌, Option, none, some, arith, if◌then◌else◌, ltb, or_else, ◌>>=◌, min,
  max,
}
use omnuv_provider.Base.Text.{Text, trim}
use omnuv_provider.Base.Decimal.{parse_u64}
use omnuv_provider.Dur.{secs, mins, as_secs}

abbrev pub floor : ℕ
floor = secs 10

abbrev pub ceiling : ℕ
ceiling = mins 10

abbrev pub poll_when_core_says_none : ℕ
poll_when_core_says_none = secs 120

abbrev pub poll_floor : ℕ
poll_floor = secs 10

abbrev pub poll_ceiling : ℕ
poll_ceiling = mins 30

-- `timings::poll`
unfoldable pub poll_kept : Option ℕ → ℕ
poll_kept none = poll_when_core_says_none
poll_kept (some s) =
    if ltb 0 s
    then max (secs (min s (as_secs poll_ceiling))) poll_floor
    else poll_when_core_says_none

-- What Core last said, zero being nothing.
pub record Heard : Type 0 where
  pub period : ℕ
  pub poll : ℕ

-- The handshake's answer, its number when it has one.
unfoldable pub answered : Option ℕ → Heard → Heard
answered none h = h
answered (some s) h = record h { period = s }

-- A view's header.
unfoldable pub headed : Option Text → Heard → Heard
headed value h = record h { period = or_else (value >>= λ v. parse_u64 (trim v)) 0 }

unfoldable pub polled : Option ℕ → Heard → Heard
polled said h = record h { poll = or_else said 0 }

abbrev pub fallback : ℕ → ℕ → ℕ
fallback configured core_poll = min configured (core_poll / 2)

-- The period to report at.
unfoldable pub period_kept : ℕ → Heard → ℕ
unfolding poll_kept
period_kept inventory_every h =
    if ltb 0 h.period
    then min (max (secs h.period) floor) ceiling
    else fallback inventory_every (poll_kept (if ltb 0 h.poll then some h.poll else none))

-- A period that Core says, in its own range, is kept exactly.
pub period_kept_exact :
    (inventory_every : ℕ) (h : Heard)
    → 10 ≤ h.period
    → h.period ≤ 600
    → period_kept inventory_every h ≡ h.period * 1000
unfolding period_kept
period_kept_exact inventory_every h low high = ground arith

-- Whatever period Core says, the one kept is in the range.
pub period_kept_in_range :
    (inventory_every : ℕ) (h : Heard)
    → 0 < h.period
    → (floor ≤ period_kept inventory_every h) × (period_kept inventory_every h ≤ ceiling)
unfolding period_kept
period_kept_in_range inventory_every h said = ground arith
