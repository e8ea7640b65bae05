-- ===== src/Cli/Observe.antt =====
-- internal/cli/observe.go: how a number of bytes is shown. Sprintf with %.1f is a parameter.
pub mod Scaled
use husk.Base.{
  ℕ, zero, suc, ◌+◌, ◌*◌, ◌/◌, ltb, Bool, true, false, Option, none, some, List, [], ◌∷◌, ◌++◌,
  length, take, if◌then◌else◌,
}
use husk.Base.Bytes.{Str, codes}
use husk.Base.Int.{ℤ, pos, negsuc, format_int}

-- The loop of humanBytes on `n`, `div` and `exp`, with so many rounds to go.
unfoldable pub scale : ℕ → ℕ → ℕ → ℕ → Option (ℕ × ℕ)
scale zero n div exp = none
scale (suc rounds) n div exp =
    let rest = scale rounds (n / 1024) (div * 1024) (exp + 1) in
    if ltb n 1024 then some (div, exp) else rest

-- s[i], which panics behind the end.
abbrev pub byte_at : Str → ℕ → Option ℕ
byte_at [] i = none
byte_at (c ∷ s) zero = some c
byte_at (c ∷ s) (suc i) = byte_at s i

abbrev pub with_unit : Str → Option ℕ → Option Str
with_unit text none = none
with_unit text (some c) = some (text ++ c ∷ [])

abbrev pub scaled_text : (ℕ → ℕ → Str) → ℕ → Option (ℕ × ℕ) → Option Str
scaled_text ratio b none = none
scaled_text ratio b (some (div, exp)) = with_unit (ratio b div) (byte_at (codes "KMGTPE") exp)

-- humanBytes; `ratio` writes float64(b) / float64(div) with one digit, and `none` is a panic or a loop
-- with more than six tests.
unfoldable pub human_bytes : (ℕ → ℕ → Str) → ℤ → Option Str
unfolding scale
human_bytes ratio (negsuc n) = some (format_int (negsuc n) ++ codes "B")
human_bytes ratio (pos b) =
    if ltb b 1024
    then some (format_int (pos b) ++ codes "B")
    else scaled_text ratio b (scale 6 (b / 1024) 1024 0)

-- humanLimit
unfoldable pub human_limit : (ℕ → ℕ → Str) → ℤ → Option Str
unfolding human_bytes
human_limit ratio (negsuc n) = some (codes "unlimited")
human_limit ratio (pos b) = human_bytes ratio (pos b)

-- short
unfoldable pub short : Str → Str
short id = if ltb 12 (length id) then take 12 id else id
