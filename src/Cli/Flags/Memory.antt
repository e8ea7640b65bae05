-- ===== src/Cli/Flags/Memory.antt =====
-- What parseMemory makes of a number of bytes and a suffix.
use husk.Base.{ℕ, ◌*◌, ◌%◌, ◌^◌, ◌<◌, ◌≤◌, false, ◌≡◌, ◌∙◌, ap, refl, some, [], ◌∷◌, ◌++◌, arith}
use husk.Base.Bytes.{Str, str_eq, is_space}
use husk.Base.Int.{ℤ, pos, mul64, mul64_exact, parse_int, format_int}
use husk.Base.Outcome.{ok}
use husk.Cli.Flags.{suffix, parse_trimmed, parse_memory}
use husk.Base.Numbers.{
  IsSolid, parse_int-format, format_int-digits, digits-IsSolid, IsSolid-append, rev_onto-involutive,
  rev_onto-snoc, trim_space-solid,
}

suffix-solid : (c mult : ℕ) → suffix c ≡ some mult → is_space c ≡ false
unfolding suffix
suffix-solid c mult h = ground arith

suffix-positive : (c mult : ℕ) → suffix c ≡ some mult → 0 < mult
unfolding suffix
suffix-positive c mult h = ground arith

snoc-nonempty : (s : Str) (c : ℕ) → str_eq (s ++ c ∷ []) [] ≡ false
unfolding str_eq
snoc-nonempty [] c = refl
snoc-nonempty (x ∷ s) c = refl

parse_trimmed-suffix :
    (s : Str) (c mult : ℕ) (v : ℤ)
    → parse_int s ≡ some v
    → suffix c ≡ some mult
    → parse_trimmed (s ++ c ∷ []) ≡ ok (mul64 v mult)
unfolding parse_trimmed
parse_trimmed-suffix s c mult v p h = rw (rev_onto-snoc s [] c, h, rev_onto-involutive s, p) refl

-- A number of 63 bits in front of K, M or G means its product with 2^10, 2^20 or 2^30, in the
-- arithmetic of int64.
pub parse_memory-suffix :
    (n c mult : ℕ)
    → n < 2 ^ 63
    → suffix c ≡ some mult
    → parse_memory (format_int (pos n) ++ c ∷ []) ≡ ok (mul64 (pos n) mult)
unfolding parse_memory
parse_memory-suffix n c mult lt h =
    let s = format_int (pos n) in
    let solid : IsSolid (s ++ c ∷ []) =
      IsSolid-append s (c ∷ []) (digits-IsSolid s (format_int-digits n))
        (suffix-solid c mult h, tt) in
    rw (snoc-nonempty s c, trim_space-solid (s ++ c ∷ []) solid)
      (parse_trimmed-suffix s c mult (pos n) (parse_int-format n lt) h)

-- The suffixes, and what they multiply by.
pub data IsUnit : ℕ → ℕ → Type 0 where
  kilo : IsUnit b'K' 1024
  kilo_small : IsUnit b'k' 1024
  mega : IsUnit b'M' 1048576
  mega_small : IsUnit b'm' 1048576
  giga : IsUnit b'G' 1073741824
  giga_small : IsUnit b'g' 1073741824

IsUnit-suffix : (c mult : ℕ) → IsUnit c mult → suffix c ≡ some mult
unfolding suffix
IsUnit-suffix c mult kilo = refl
IsUnit-suffix c mult kilo_small = refl
IsUnit-suffix c mult mega = refl
IsUnit-suffix c mult mega_small = refl
IsUnit-suffix c mult giga = refl
IsUnit-suffix c mult giga_small = refl

-- A decimal number with a suffix, K or k for 1024, M or m for 1024 * 1024, G or g for 1024 * 1024 * 1024,
-- is read as the product, if an int64 holds the product.
pub parse_memory-exact :
    (n c mult : ℕ)
    → n * mult < 2 ^ 63
    → IsUnit c mult
    → parse_memory (format_int (pos n) ++ c ∷ []) ≡ ok (pos (n * mult))
parse_memory-exact n c mult lt unit =
    let h = IsUnit-suffix c mult unit in
    let positive = suffix-positive c mult h in
    let bound : n ≤ n * mult = grind arith in
    let small : n < 2 ^ 63 = omega arith in
    parse_memory-suffix n c mult small h ∙ ap (λ (v : ℤ). ok v) (mul64_exact n mult lt positive)

-- A size of a multiple of 2^64 bytes, which an int64 does not hold, is no error: parseMemory takes
-- it for 0, which stands for no limit.
pub parse_memory-wraps :
    (n c mult : ℕ)
    → n < 2 ^ 63
    → suffix c ≡ some mult
    → n * mult % 2 ^ 64 ≡ 0
    → parse_memory (format_int (pos n) ++ c ∷ []) ≡ ok (pos 0)
unfolding mul64
parse_memory-wraps n c mult lt h w =
    let same : n % 2 ^ 64 ≡ n = omega arith in parse_memory-suffix n c mult lt h ∙ rw (same, w) refl
