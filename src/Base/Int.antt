-- ===== src/Base/Int.antt =====
-- Go's signed integers: ℤ over the native numbers, and the wrap-around of int64.
use Prim.Native.Nat.{ℕ, zero, suc, ◌/◌, ◌+◌, ◌-◌, ◌*◌, ◌%◌, ◌^◌, ◌≤◌, ◌<◌}
use mathlib.Core.Path.{◌≡◌, refl}
use mathlib.Core.Bool.{Bool, true, false, ◌&&◌}
use mathlib.Core.Option.{Option, none, some}
use mathlib.Core.List.{List, [], ◌∷◌, ◌++◌}
use native.Mathlib.Omega.{arith}
use husk.Base.Tests.{ltb, leb, ◌==◌, if◌then◌else◌}

-- `negsuc n` is -(n + 1).
pub data ℤ : Type 0 where
  pos : ℕ → ℤ
  negsuc : ℕ → ℤ

-- x > 0, x < 0
abbrev pub is_positive : ℤ → Bool
is_positive (pos n) = ltb 0 n
is_positive (negsuc n) = false

abbrev pub is_negative : ℤ → Bool
is_negative (pos n) = false
is_negative (negsuc n) = true

-- strconv.FormatInt(v, 10): twenty digits are enough for 64 bits.
unfoldable pub decimal : ℕ → ℕ → List ℕ
decimal zero n = []
decimal (suc fuel) n = elim (ltb n 10) [
  | true ↦ (48 + n) ∷ []
  | false ↦ decimal fuel (n / 10) ++ (48 + n % 10) ∷ []
]

abbrev pub minus : ℕ
minus = b'-'

unfoldable pub format_int : ℤ → List ℕ
unfolding decimal
format_int (pos n) = decimal 20 n
format_int (negsuc n) = minus ∷ decimal 20 (suc n)

format_int_runs : format_int (negsuc 1204) ≡ b'-' ∷ b'1' ∷ b'2' ∷ b'0' ∷ b'5' ∷ []
unfolding format_int
format_int_runs = refl

-- strconv.ParseInt(s, 10, 64) and strconv.Atoi, whose error is `none`.
unfoldable pub digits_from : ℕ → List ℕ → Option ℕ
digits_from v [] = some v
digits_from v (c ∷ s) = elim (leb 48 c && leb c 57) [
  | true ↦ digits_from (v * 10 + (c - 48)) s
  | false ↦ none
]

abbrev pub magnitude : List ℕ → Option ℕ
magnitude [] = none
magnitude (c ∷ s) = digits_from 0 (c ∷ s)

abbrev pub positive_of : Option ℕ → Option ℤ
positive_of none = none
positive_of (some n) = if ltb n (2 ^ 63) then some (pos n) else none

abbrev pub negative_of : Option ℕ → Option ℤ
negative_of none = none
negative_of (some zero) = some (pos 0)
negative_of (some (suc n)) = if ltb n (2 ^ 63) then some (negsuc n) else none

unfoldable pub parse_int : List ℕ → Option ℤ
unfolding digits_from
parse_int [] = none
parse_int (c ∷ s) =
    if c == b'-'
    then negative_of (magnitude s)
    else (if c == b'+' then positive_of (magnitude s) else positive_of (magnitude (c ∷ s)))

parse_int_runs : parse_int (b'-' ∷ b'1' ∷ b'2' ∷ []) ≡ some (negsuc 11)
unfolding parse_int
parse_int_runs = refl

-- The value that an int64 with these 64 bits stands for.
abbrev pub of_bits : ℕ → ℤ
of_bits b = if ltb b (2 ^ 63) then pos b else negsuc (2 ^ 64 - 1 - b)

-- The 64 bits of a value, modulo 2^64.
abbrev pub bits : ℤ → ℕ
bits (pos n) = n % 2 ^ 64
bits (negsuc n) = 2 ^ 64 - 1 - n % 2 ^ 64

-- v * mult, in int64, for a factor that is not negative.
unfoldable pub mul64 : ℤ → ℕ → ℤ
mul64 v mult = of_bits (bits v * mult % 2 ^ 64)

-- The values that an int64 holds.
abbrev pub InInt64 : ℤ → Type 0
InInt64 (pos n) = n < 2 ^ 63
InInt64 (negsuc n) = n < 2 ^ 63

pub mul64_exact : (n mult : ℕ) → n * mult < 2 ^ 63 → 0 < mult → mul64 (pos n) mult ≡ pos (n * mult)
unfolding mul64
mul64_exact n mult h p =
    let small : n ≤ n * mult = grind arith in
    let same : n % 2 ^ 64 ≡ n = omega arith in rw same (ground arith)
