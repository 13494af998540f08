-- ===== src/Dur.antt =====
-- crates/onv-agent-lib/src/dur.rs: a duration in milliseconds, read and written with its unit.
-- The file's error texts are the constructors of `DurError`; `secs`, `mins` and `hours` wrap as a
-- u64 product does in the release profile.
pub mod RoundTrip
use omnuv_provider.Base.{
  ℕ, ◌*◌, ◌/◌, ◌%◌, ◌^◌, ◌≡◌, refl, Bool, ◌&&◌, List, [], ◌∷◌, ◌++◌, Option, none, some, arith, ltb,
  leb, ◌==◌, if◌then◌else◌, find, is_empty, or_else,
}
use omnuv_provider.Base.Text.{Text, codes, same, is_digit, span, trim}
use omnuv_provider.Base.Decimal.{parse_u64, print, u64_bound}

pub data DurError : Type 0 where
  not_a_duration no_unit bad_unit too_long : DurError

pub data Parsed : Type 0 where
  ok : ℕ → Parsed
  err : DurError → Parsed

abbrev pub secs : ℕ → ℕ
secs n = n * 1000 % 2 ^ 64

abbrev pub mins : ℕ → ℕ
mins n = n * 60_000 % 2 ^ 64

abbrev pub hours : ℕ → ℕ
hours n = n * 3_600_000 % 2 ^ 64

-- Whole seconds, rounded down.
abbrev pub as_secs : ℕ → ℕ
as_secs d = d / 1000

abbrev pub Units : Type 0
Units = List (Text × ℕ)

abbrev pub units : Units
units =
    (codes "d", 86_400_000)
    ∷ (codes "h", 3_600_000)
    ∷ (codes "m", 60_000)
    ∷ (codes "s", 1000)
    ∷ (codes "ms", 1)
    ∷ []

-- The first unit of the table that divides the value.
unfoldable pub unit_for : ℕ → Text × ℕ
unit_for d = or_else (find (λ u. (d % u.1) == 0) units) (codes "ms", 1)

-- `Display for Dur`
unfoldable pub display : ℕ → Text
unfolding unit_for
display d = if d == 0 then codes "0s" else let (unit, per) = unit_for d in print (d / per) ++ unit

-- The multiplier of a unit's name.
unfoldable pub per_unit : Text → Option ℕ
per_unit unit = elim (find (λ u. same u.0 unit) units) [ none ↦ none | some (_, per) ↦ some per ]

-- A number and its unit, once the text is cut in two.
unfoldable pub from_parts : Text → Text → Parsed
unfolding per_unit
from_parts n unit = elim (parse_u64 n) [
  | none ↦ err not_a_duration
  | some v ↦ if is_empty unit then err no_unit else elim (per_unit unit) [
    | none ↦ err bad_unit
    | some per ↦ if ltb (v * per) u64_bound then ok (v * per) else err too_long
  ]
]

-- `FromStr for Dur`
unfoldable pub from_str : Text → Parsed
unfolding from_parts
from_str text = let (n, unit) = span is_digit (trim text) in from_parts n unit
