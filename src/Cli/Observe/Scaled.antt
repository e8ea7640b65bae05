-- ===== src/Cli/Observe/Scaled.antt =====
-- Every int64 is shown: the loop ends, and its unit exists.
use husk.Base.{
  ℕ, zero, suc, ◌+◌, ◌*◌, ◌/◌, ◌^◌, ◌≤◌, ◌<◌, ltb, ◌≡◌, refl, Option, some, [], ◌∷◌, ◌++◌, length,
  arith, Bool-cases, inl, inr, ltb→le, ltb→lt, le→ltb,
}
use husk.Base.Bytes.{Str, codes}
use husk.Base.Int.{pos, InInt64}
use husk.Cli.Observe.{scale, byte_at, human_bytes}
use native.Mathlib.Nat.{mul-le-mul_right, pow-suc}

-- What the loop holds of the number, the part it has left and the unit it has.
record Between (n b div : ℕ) : Type 0 where
  left_positive : 0 < n
  not_above : n * div ≤ b
  next_above : b < n * div + div

regroup : (q div : ℕ) → q * (div * 1024) ≡ (q * 1024) * div
regroup q div = grind arith

div-le : (n div b : ℕ) → 0 < n → n * div ≤ b → div ≤ b
div-le n div b p q = let more : 1 * div ≤ n * div = mul-le-mul_right div p in omega arith

under_unit : (n div b : ℕ) → n < 1024 → b < n * div + div → b < 1024 * div
under_unit n div b p q = let more : suc n * div ≤ 1024 * div = mul-le-mul_right div p in grind arith

next-not_above : (n b div : ℕ) → n * div ≤ b → (n / 1024) * (div * 1024) ≤ b
next-not_above n b div h =
    let part : (n / 1024) * 1024 ≤ n = omega arith in
    let more : ((n / 1024) * 1024) * div ≤ n * div = mul-le-mul_right div part in
    let same = regroup (n / 1024) div in grind arith

next-next_above : (n b div : ℕ) → b < n * div + div → b < (n / 1024) * (div * 1024) + div * 1024
next-next_above n b div h =
    let part : suc n ≤ (n / 1024) * 1024 + 1024 = omega arith in
    let more : suc n * div ≤ ((n / 1024) * 1024 + 1024) * div = mul-le-mul_right div part in
    grind arith

-- What the loop finds: the largest power of 1024 that is not above the number.
abbrev Found : (rounds b exp : ℕ) (r : Option (ℕ × ℕ)) → Type 0
Found rounds b exp r =
    (d : ℕ) × (e : ℕ) × (r ≡ some (d, e))
    × (d ≤ b)
    × (b < 1024 * d)
    × (e < exp + rounds)
    × (d ≡ 1024 ^ suc e)

next_rounds :
    (rounds b exp : ℕ) (r : Option (ℕ × ℕ))
    → Found rounds b (exp + 1) r
    → Found (suc rounds) b exp r
next_rounds rounds b exp r (d, e, found, below, above, bound, power) =
    (d, e, found, below, above, omega arith, power)

nothing_left : (n : ℕ) → n < 1 → 0 < n → ⊥
nothing_left n p q = omega arith

nothing_below : (i : ℕ) → i < 0 → ⊥
nothing_below i h = omega arith

smaller : (n rounds : ℕ) → n < 1024 ^ suc rounds → n / 1024 < 1024 ^ rounds
smaller n rounds h = let more = rw (pow-suc 1024 rounds) at h in omega arith

power_up : (exp div : ℕ) → div ≡ 1024 ^ suc exp → div * 1024 ≡ 1024 ^ suc (exp + 1)
power_up exp div h = rw h (grind arith)

next-Between : (n b div : ℕ) → 1024 ≤ n → Between n b div → Between (n / 1024) b (div * 1024)
next-Between n b div large h = record {
  left_positive = omega arith;
  not_above = next-not_above n b div h.not_above;
  next_above = next-next_above n b div h.next_above;
}

scale-Found :
    (rounds n b div exp : ℕ)
    → Between n b div
    → n < 1024 ^ rounds
    → div ≡ 1024 ^ suc exp
    → Found rounds b exp (scale rounds n div exp)
unfolding scale
scale-Found zero n b div exp h few power = absurd (nothing_left n few h.left_positive)
scale-Found (suc rounds) n b div exp h few power =
    let rest = scale-Found rounds (n / 1024) b (div * 1024) (exp + 1) in
    elim (Bool-cases (ltb n 1024)) [
      | inl last ↦ rw last (
        div,
        exp,
        refl,
        div-le n div b h.left_positive h.not_above,
        under_unit n div b (ltb→lt n 1024 last) h.next_above,
        omega arith,
        power,
      )
      | inr large ↦ rw large (
          next_rounds rounds b exp (scale rounds (n / 1024) (div * 1024) (exp + 1)) (
            rest (next-Between n b div (ltb→le n 1024 large) h) (smaller n rounds few)
              (power_up exp div power)))
    ]

one_unit : (b : ℕ) → 1024 ≤ b → Between (b / 1024) b 1024
one_unit b large = record {
  left_positive = omega arith;
  not_above = omega arith;
  next_above = omega arith;
}

byte_at-inside : (s : Str) (i : ℕ) → i < length s → (c : ℕ) × (byte_at s i ≡ some c)
byte_at-inside [] i h = absurd (nothing_below i h)
byte_at-inside (c ∷ s) zero h = (c, refl)
byte_at-inside (c ∷ s) (suc i) h = byte_at-inside s i (omega (arith, h))

few_parts : (b : ℕ) → b < 2 ^ 63 → b / 1024 < 1024 ^ 6
few_parts b h = omega arith

-- An int64 of 1024 or more is written as its ratio to the largest power of 1024 that is not above it,
-- with the letter of that power: the loop ends within six tests and the letter exists.
pub human_bytes-scales :
    (ratio : ℕ → ℕ → Str) (b : ℕ)
    → 1024 ≤ b
    → InInt64 (pos b)
    → (div : ℕ) × (exp : ℕ) × (letter : ℕ) × (human_bytes ratio (pos b)
        ≡ some (ratio b div ++ letter ∷ []))
      × (byte_at (codes "KMGTPE") exp ≡ some letter)
      × (div ≡ 1024 ^ suc exp)
      × (div ≤ b)
      × (b < 1024 * div)
unfolding human_bytes
human_bytes-scales ratio b large small =
    let (div, exp, found, below, above, six, power) =
      scale-Found 6 (b / 1024) b 1024 0 (one_unit b large) (few_parts b small) refl in
    let (letter, has) = byte_at-inside (codes "KMGTPE") exp six in
    (div, exp, letter, rw (le→ltb b 1024 large, found, has) refl, has, power, below, above)
