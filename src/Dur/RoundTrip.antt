-- ===== src/Dur/RoundTrip.antt =====
-- Printing a duration and reading it back, and what a reader may rely on in what it reads.
use native.Mathlib.Nat.{div-add-mod, div-le_self}
use omnuv_provider.Base.{
  In, not, ◌≤◌, all-append, ℕ, ◌/◌, ◌%◌, ◌<◌, ◌≡◌, refl, ap, ◌∙◌, inl, inr, true, false, [], ◌++◌,
  some, arith, ◌==◌, is_empty, Bool-cases, all,
}
use omnuv_provider.Base.Text.{
  trim-eq, all_mono, is_space, Text, codes, same, is_digit, span, span-append, trim,
}
use omnuv_provider.Base.Decimal.{parse_uint, digits_of-digit, print, parse_u64-print, u64_bound}
use omnuv_provider.Dur.{ok, units, unit_for, display, per_unit, from_parts, from_str}

-- The unit chosen divides the value, and is one of the table's by name.
record Fits (d : ℕ) (u : Text × ℕ) : Type 0 where
  divides : d % u.1 ≡ 0
  positive : 0 < u.1
  named : per_unit u.0 ≡ some u.1
  worded : is_empty u.0 ≡ false
  wordy : (span is_digit u.0).0 ≡ []
  solid : all (λ c. not (is_space c)) u.0 ≡ true

unit_for-Fits : (d : ℕ) → Fits d (unit_for d)
unfolding unit_for per_unit same span is_space
unit_for-Fits d = ground arith

digit_solid : (c : ℕ) → is_digit c ≡ true → not (is_space c) ≡ true
unfolding is_space
digit_solid c h = ground arith

-- The two parts of a printed duration, read back.
from_parts-print :
    (d : ℕ) (u : Text × ℕ) → Fits d u → d < u64_bound → from_parts (print (d / u.1)) u.0 ≡ ok d
unfolding from_parts
from_parts-print d u f h =
    ground (arith, parse_u64-print (d / u.1) (omega (arith, div-le_self d u.1)), div-add-mod d u.1)

-- A text without white space is cut where its digits end.
from_str-append :
    (n unit : Text)
    → all is_digit n ≡ true
    → all (λ c. not (is_space c)) unit ≡ true
    → (span is_digit unit).0 ≡ []
    → from_str (n ++ unit) ≡ from_parts n unit
unfolding from_str
from_str-append n unit d w e = rw (
  trim-eq (n ++ unit) (all-append _ n unit (all_mono is_digit _ digit_solid n d) w),
  span-append is_digit n unit d e,
)

zero_lem : from_str (codes "0s") ≡ ok 0
unfolding from_str same parse_uint span trim
zero_lem = refl

display-zero : (d : ℕ) → (d == 0) ≡ true → display d ≡ codes "0s"
unfolding display
display-zero d h = rw h

display-pos : (d : ℕ) → (d == 0) ≡ false → display d ≡ print (d / (unit_for d).1) ++ (unit_for d).0
unfolding display
display-pos d h = rw h

print-digit : (n : ℕ) → all is_digit (print n) ≡ true
unfolding print
print-digit n = digits_of-digit 20 n

-- Every duration a u64 of milliseconds holds is printed as a text that reads back as the same
-- duration.
pub from_str-display : (d : ℕ) → d < u64_bound → from_str (display d) ≡ ok d
from_str-display d h = elim (Bool-cases (d == 0)) [
  | inl zeroed ↦ rw (display-zero d zeroed) (zero_lem ∙ ap ok (ground arith))
  | inr more ↦
      let f = unit_for-Fits d in
      rw (display-pos d more) (
        from_str-append (print (d / (unit_for d).1)) (unit_for d).0 (print-digit _) f.solid f.wordy
        ∙ from_parts-print d (unit_for d) f h)
]

-- What is read fits a u64, whatever the text.
pub from_str-lt : (t : Text) (d : ℕ) → from_str t ≡ ok d → d < u64_bound
unfolding from_str
from_str-lt t d h = ground arith

-- The unit printed divides the value, and no unit of the table that divides it is larger.
pub unit_for_largest :
    (d : ℕ) (u : Text × ℕ)
    → In u units
    → d % u.1 ≡ 0
    → (d % (unit_for d).1 ≡ 0) × (u.1 ≤ (unit_for d).1)
unfolding unit_for
unit_for_largest d u h z = ground arith
