-- ===== src/Base/Decimal.antt =====
-- Unsigned numbers in decimal: `{n}` of a format string, and `str::parse` at a width.
use mathlib.Core.Bool.{true, ◌&&◌}
use mathlib.Core.List.{[], ◌∷◌, ◌++◌}
use mathlib.Core.Option.{Option, none, some}
use mathlib.Core.Path.{◌≡◌, refl, ap, subst, ◌∙◌}
use native.Mathlib.Omega.{arith}
use mathlib.Core.Logic.{inl, inr}
use Prim.Native.Nat.{ℕ, zero, suc, ◌+◌, ◌-◌, ◌*◌, ◌/◌, ◌%◌, ◌^◌, ◌<◌}
use omnuv_provider.Base.Lists.{all, all-append}
use omnuv_provider.Base.Tests.{ltb, ltb→lt, ◌==◌, and-eq-true, ◌>>=◌, if◌then◌else◌, Bool-cases}
use omnuv_provider.Base.Text.{Text, is_digit}

abbrev pub u64_bound : ℕ
u64_bound = 2 ^ 64

abbrev pub u32_bound : ℕ
u32_bound = 2 ^ 32

-- The digits, most significant first; `fuel` is the number of digits there is room for.
unfoldable pub digits_of : ℕ → ℕ → Text
digits_of zero n = []
digits_of (suc fuel) n =
    let front = digits_of fuel (n / 10) in
    if ltb n 10 then (b'0' + n) ∷ [] else front ++ (b'0' + n % 10) ∷ []

-- Twenty digits hold every u64.
unfoldable pub print : ℕ → Text
unfolding digits_of
print n = digits_of 20 n

-- Each step is checked, so a value that reaches `bound` is refused.
unfoldable pub scan : ℕ → ℕ → Text → Option ℕ
scan bound acc [] = some acc
scan bound acc (c ∷ s) =
    let next = acc * 10 + (c - b'0') in
    let rest = scan bound next s in if is_digit c && ltb next bound then rest else none

-- `str::parse` into an unsigned type: one `+` may stand in front, and a digit must follow.
unfoldable pub parse_uint : ℕ → Text → Option ℕ
unfolding scan
parse_uint bound [] = none
parse_uint bound (c ∷ []) = if c == b'+' then none else scan bound 0 (c ∷ [])
parse_uint bound (c ∷ d ∷ s) = if c == b'+' then scan bound 0 (d ∷ s) else scan bound 0 (c ∷ d ∷ s)

abbrev pub parse_u64 : Text → Option ℕ
parse_u64 = parse_uint u64_bound

abbrev pub pow10 : ℕ → ℕ
pow10 zero = 1
pow10 (suc k) = 10 * pow10 k

scan-append :
    (bound acc : ℕ) (s t : Text)
    → scan bound acc (s ++ t) ≡ (scan bound acc s >>= λ a. scan bound a t)
unfolding scan
scan-append bound acc [] t = refl
scan-append bound acc (c ∷ s) t = ground (arith, scan-append bound (acc * 10 + (c - b'0')) s t)

scan_last :
    (bound acc d : ℕ)
    → d < 10
    → acc * 10 + d < bound
    → scan bound acc ((b'0' + d) ∷ []) ≡ some (acc * 10 + d)
unfolding scan
scan_last bound acc d h k = ground arith

pub scan-digits_of :
    (bound fuel n : ℕ) → n < pow10 fuel → n < bound → scan bound 0 (digits_of fuel n) ≡ some n
unfolding digits_of
scan-digits_of bound zero n h k = let e : n ≡ 0 = omega arith in unfold scan in rw e refl
scan-digits_of bound (suc fuel) n h k = elim (Bool-cases (ltb n 10)) [
  | inl small ↦
      rw small (scan_last bound 0 n (ltb→lt n 10 small) (omega arith) ∙ ap some (omega arith))
  | inr large ↦ rw large (
      rw
        (
          scan-append bound 0 (digits_of fuel (n / 10)) ((b'0' + n % 10) ∷ []),
          scan-digits_of bound fuel (n / 10) (omega arith) (omega arith),
        )
        (scan_last bound (n / 10) (n % 10) (omega arith) (omega arith) ∙ ap some (omega arith)))
]

-- A number printed in decimal reads back as itself.
pub digits_of-digit : (fuel n : ℕ) → all is_digit (digits_of fuel n) ≡ true
unfolding digits_of
digits_of-digit zero n = refl
digits_of-digit (suc fuel) n = elim (Bool-cases (ltb n 10)) [
  | inl small ↦ rw small (ground (arith, ltb→lt n 10 small))
  | inr large ↦ rw large (
      all-append is_digit (digits_of fuel (n / 10)) _ (digits_of-digit fuel (n / 10))
        (ground arith))
]

-- The first digit is no sign, so the text is read as it stands.
parse_uint-digit :
    (bound c : ℕ) (s : Text) → is_digit c ≡ true → parse_uint bound (c ∷ s) ≡ scan bound 0 (c ∷ s)
unfolding parse_uint
parse_uint-digit bound c [] h = ground arith
parse_uint-digit bound c (d ∷ s) h = ground arith

digits_of-head : (fuel n : ℕ) → (c : ℕ) × (s : Text) × (digits_of (suc fuel) n ≡ c ∷ s)
unfolding digits_of
digits_of-head zero n = elim (Bool-cases (ltb n 10)) [
  | inl small ↦ (b'0' + n, [], rw small)
  | inr large ↦ (b'0' + n % 10, [], rw large)
]
digits_of-head (suc fuel) n = elim (Bool-cases (ltb n 10)) [
  | inl small ↦ (b'0' + n, [], rw small)
  | inr large ↦
      let (c, s, e) = digits_of-head fuel (n / 10) in
      (c, s ++ (b'0' + n % 10) ∷ [], rw large (ap (λ t. t ++ (b'0' + n % 10) ∷ []) e))
]

pub parse_uint-digits_of :
    (bound fuel n : ℕ)
    → n < pow10 (suc fuel)
    → n < bound
    → parse_uint bound (digits_of (suc fuel) n) ≡ some n
parse_uint-digits_of bound fuel n h k =
    let (c, s, e) = digits_of-head fuel n in
    let d : is_digit c && all is_digit s ≡ true =
      subst (λ t. all is_digit t ≡ true) e (digits_of-digit (suc fuel) n) in
    rw e (
      parse_uint-digit bound c s (and-eq-true _ _ d).0
      ∙ subst (λ t. scan bound 0 t ≡ some n) e (scan-digits_of bound (suc fuel) n h k))

pub parse_u64-print : (n : ℕ) → n < u64_bound → parse_u64 (print n) ≡ some n
unfolding print
parse_u64-print n h = parse_uint-digits_of u64_bound 19 n (omega arith) h

max_u64 : parse_u64 (print (u64_bound - 1)) ≡ some (u64_bound - 1)
unfolding print parse_uint
max_u64 = refl
