-- ===== src/Examples/Periods.antt =====
-- Periods of reports and of the passes that owe a proof.
use omnuv_provider.Base.{◌≡◌, refl, [], ◌^◌}
use omnuv_provider.Report.{Heard, floor, period_kept}
use omnuv_provider.FollowUp.{FollowUp}

abbrev half_a_minute : Heard
half_a_minute = record { period = 30; poll = 120 }

-- A period so long that its milliseconds wrap is kept as the shortest, not as the longest.
wrapped : period_kept 300_000 (record { period = 2 ^ 61; poll = 120 }) ≡ floor
unfolding period_kept
wrapped = refl

abbrev fresh : FollowUp
fresh = record { seen = []; streak = 0 }
