-- ===== src/Base/Text.antt =====
-- Texts as lists of code points, with the string operations of Rust's `str` that the agent calls.
use Prim.Native.Nat.{ℕ, ◌+◌}
use Prim.Native.Char.{code}
use Prim.Native.String.{String}
use mathlib.Core.Path.{◌≡◌, refl, subst}
use mathlib.Core.Logic.{◌↔◌}
use mathlib.Core.Bool.{Bool, true, false, ◌&&◌, ◌||◌, not}
use mathlib.Core.Option.{Option, none, some}
use mathlib.Core.List.{
  List, [], ◌∷◌, ◌++◌, reverse, reverse-cons, reverse-reverse, append_assoc, append-nil,
}
use native.Mathlib.Omega.{arith}
use omnuv_provider.Base.Lists.{any, all}
use omnuv_provider.Base.Tests.{and-eq-true, ltb, leb, ◌==◌, if◌then◌else◌}

abbrev pub Text : Type 0
Text = List ℕ

-- A literal's code points.
abbrev pub codes : String → Text
codes String.[] = []
codes (String.◌∷◌ c s) = code c ∷ codes s

-- `==` on `str`.
unfoldable pub same : Text → Text → Bool
same [] [] = true
same [] (d ∷ t) = false
same (c ∷ s) [] = false
same (c ∷ s) (d ∷ t) = (c == d) && same s t

pub same_refl : (s : Text) → same s s ≡ true
unfolding same
same_refl [] = refl
same_refl (c ∷ s) = ground (arith, same_refl s)

pub same→eq : (s t : Text) → same s t ≡ true → s ≡ t
unfolding same
same→eq [] [] h = refl
same→eq [] (d ∷ t) h = cc
same→eq (c ∷ s) [] h = cc
same→eq (c ∷ s) (d ∷ t) h = ground (arith, same→eq s t)

pub same_iff : (s t : Text) → (same s t ≡ true) ↔ (s ≡ t)
same_iff s t = (same→eq s t, λ e. rw e (same_refl t))

-- The byte order of `Ord for str`, which for UTF-8 is the order of the code points.
unfoldable pub text_leb : Text → Text → Bool
text_leb [] t = true
text_leb (c ∷ s) [] = false
text_leb (c ∷ s) (d ∷ t) = ltb c d || ((c == d) && text_leb s t)

abbrev pub is_digit : ℕ → Bool
is_digit c = leb b'0' c && leb c b'9'

abbrev pub is_hex_digit : ℕ → Bool
is_hex_digit c = is_digit c || (leb b'a' c && leb c b'f') || (leb b'A' c && leb c b'F')

-- `char::is_ascii_alphanumeric`
abbrev pub is_alphanumeric : ℕ → Bool
is_alphanumeric c = is_digit c || (leb b'a' c && leb c b'z') || (leb b'A' c && leb c b'Z')

-- `char::to_ascii_lowercase`
abbrev pub lowercase : ℕ → ℕ
lowercase c = if leb b'A' c && leb c b'Z' then c + 32 else c

-- `char::is_whitespace`: Unicode's White_Space.
unfoldable pub is_space : ℕ → Bool
is_space c =
    (leb 9 c && leb c 13)
    || (c == 32)
    || (c == 0x85)
    || (c == 0xA0)
    || (c == 0x1680)
    || (leb 0x2000 c && leb c 0x200A)
    || (c == 0x2028)
    || (c == 0x2029)
    || (c == 0x202F)
    || (c == 0x205F)
    || (c == 0x3000)

unfoldable pub trim_start : Text → Text
trim_start [] = []
trim_start (c ∷ s) = if is_space c then trim_start s else c ∷ s

unfoldable pub trim : Text → Text
unfolding trim_start is_space
trim s = reverse (trim_start (reverse (trim_start s)))

-- `s.strip_prefix(p)`, the prefix first.
unfoldable pub strip_prefix : Text → Text → Option Text
strip_prefix [] s = some s
strip_prefix (p ∷ ps) [] = none
strip_prefix (p ∷ ps) (c ∷ s) = if p == c then strip_prefix ps s else none

unfoldable pub strip_suffix : Text → Text → Option Text
strip_suffix p s = elim (strip_prefix (reverse p) (reverse s)) [
  | none ↦ none
  | some r ↦ some (reverse r)
]

-- The longest prefix whose characters pass the test, and the rest.
unfoldable pub span : (ℕ → Bool) → Text → Text × Text
span p [] = ([], [])
span p (c ∷ s) = let (a, b) = span p s in if p c then (c ∷ a, b) else ([], c ∷ s)

-- `s.split(p)` for a test on characters: one piece more than separators.
unfoldable pub split : (ℕ → Bool) → Text → List Text
split p [] = [] ∷ []
split p (c ∷ s) = elim (split p s) [
  | [] ↦ [] ∷ []
  | piece ∷ rest ↦ if p c then [] ∷ piece ∷ rest else (c ∷ piece) ∷ rest
]

-- `s.split_once(c)`
unfoldable pub split_once : ℕ → Text → Option (Text × Text)
split_once d [] = none
split_once d (c ∷ s) =
    if c == d
    then some ([], s)
    else elim (split_once d s) [ none ↦ none | some (a, b) ↦ some (c ∷ a, b) ]

-- One carriage return before the line feed goes with it.
unfoldable pub drop_return : Text → Text
drop_return [] = []
drop_return (c ∷ []) = if c == 13 then [] else c ∷ []
drop_return (c ∷ d ∷ s) = c ∷ drop_return (d ∷ s)

-- `s.lines().next()`
unfoldable pub first_line : Text → Option Text
unfolding split_once drop_return
first_line [] = none
first_line (c ∷ s) = elim (split_once 10 (c ∷ s)) [
  | none ↦ some (c ∷ s)
  | some (line, rest) ↦ some (drop_return line)
]

-- `[a, b].join(sep)`
unfoldable pub join : Text → List Text → Text
join sep [] = []
join sep (a ∷ []) = a
join sep (a ∷ b ∷ rest) = a ++ (sep ++ join sep (b ∷ rest))

-- What the string operations recover, character by character.
pub split_once-append :
    (d : ℕ) (s t : Text) → any (λ c. c == d) s ≡ false → split_once d (s ++ (d ∷ t)) ≡ some (s, t)
unfolding split_once
split_once-append d [] t h = ground arith
split_once-append d (c ∷ s) t h = ground (arith, split_once-append d s t)

pub span-append :
    (p : ℕ → Bool) (s t : Text) → all p s ≡ true → (span p t).0 ≡ [] → span p (s ++ t) ≡ (s, t)
unfolding span
span-append p [] [] h e = refl
span-append p [] (c ∷ t) h e = ground arith
span-append p (c ∷ s) t h e = ground (arith, span-append p s t)

pub strip_prefix-append : (p s : Text) → strip_prefix p (p ++ s) ≡ some s
unfolding strip_prefix
strip_prefix-append [] s = refl
strip_prefix-append (c ∷ p) s = ground (arith, strip_prefix-append p s)

all-reverse_onto :
    (p : ℕ → Bool) (s t : Text) → all p s ≡ true → all p t ≡ true → all p (reverse s ++ t) ≡ true
all-reverse_onto p [] t h k = k
all-reverse_onto p (c ∷ s) t h k =
    rw (reverse-cons c s, append_assoc (reverse s) (c ∷ []) t)
      (all-reverse_onto p s (c ∷ t) (and-eq-true _ _ h).1 (ground arith))

trim_start-eq : (s : Text) → all (λ c. not (is_space c)) s ≡ true → trim_start s ≡ s
unfolding trim_start
trim_start-eq [] h = refl
trim_start-eq (c ∷ s) h = ground arith

-- A text without white space is its own trim.
pub trim-eq : (s : Text) → all (λ c. not (is_space c)) s ≡ true → trim s ≡ s
unfolding trim
trim-eq s h =
    rw
      (
        trim_start-eq s h,
        trim_start-eq (reverse s) (
            subst (λ t. all (λ c. not (is_space c)) t ≡ true) (append-nil (reverse s))
              (all-reverse_onto _ s [] h refl)),
      )
      (reverse-reverse s)

pub all_mono :
    (p q : ℕ → Bool)
    → ((c : ℕ) → p c ≡ true → q c ≡ true)
    → (s : Text) → all p s ≡ true
    → all q s ≡ true
all_mono p q f [] h = refl
all_mono p q f (c ∷ s) h = ground (arith, f c, all_mono p q f s)
