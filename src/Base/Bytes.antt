-- ===== src/Base/Bytes.antt =====
-- Go strings as lists of bytes, with the functions of `strings` and `strconv` that husk calls.
use Prim.Native.Nat.{ℕ, ◌-◌}
use Prim.Native.Char.{code}
use Prim.Native.String.{String}
use mathlib.Core.Path.{◌≡◌, refl}
use mathlib.Core.Logic.{◌↔◌}
use mathlib.Core.Bool.{Bool, true, false, ◌||◌, ◌&&◌}
use mathlib.Core.Option.{Option, none, some}
use mathlib.Core.List.{List, [], ◌∷◌, map}
use native.Mathlib.Omega.{arith}
use husk.Base.Tests.{◌==◌, leb, if◌then◌else◌}

abbrev pub Str : Type 0
Str = List ℕ

-- The bytes of an ASCII literal.
abbrev pub codes : String → Str
codes String.[] = []
codes (String.◌∷◌ c s) = code c ∷ codes s

-- s == t
unfoldable pub str_eq : Str → Str → Bool
str_eq [] [] = true
str_eq [] (_ ∷ _) = false
str_eq (_ ∷ _) [] = false
str_eq (a ∷ s) (b ∷ t) = a == b && str_eq s t

pub str_eq_sound : (s t : Str) → str_eq s t ≡ true → s ≡ t
unfolding str_eq
str_eq_sound [] [] h = refl
str_eq_sound [] (b ∷ t) h = cc
str_eq_sound (a ∷ s) [] h = cc
str_eq_sound (a ∷ s) (b ∷ t) h = ground (arith, str_eq_sound s t)

-- A text that equals one word str_eq-differs from another.
pub str_eq-differs : (s a b : Str) → str_eq a b ≡ false → str_eq s a ≡ true → str_eq s b ≡ false
str_eq-differs s a b d e = rw (str_eq_sound s a e) d

pub str_eq_refl : (s : Str) → str_eq s s ≡ true
unfolding str_eq
str_eq_refl [] = refl
str_eq_refl (a ∷ s) = ground (arith, str_eq_refl s)

pub str_eq_iff : (s t : Str) → (str_eq s t ≡ true) ↔ (s ≡ t)
str_eq_iff s t = (str_eq_sound s t, λ e. rw e (str_eq_refl t))

-- strings.ToUpper on ASCII text.
abbrev pub upper : ℕ → ℕ
upper c = if leb b'a' c && leb c b'z' then c - 32 else c

unfoldable pub to_upper : Str → Str
to_upper = map upper

-- strings.EqualFold on ASCII text.
unfoldable pub equal_fold : Str → Str → Bool
unfolding to_upper str_eq
equal_fold s t = str_eq (to_upper s) (to_upper t)

-- strings.HasPrefix
unfoldable pub has_prefix : Str → Str → Bool
has_prefix s [] = true
has_prefix [] (_ ∷ _) = false
has_prefix (a ∷ s) (b ∷ p) = a == b && has_prefix s p

-- The white space that strings.TrimSpace and strings.Fields see in ASCII text.
abbrev pub is_space : ℕ → Bool
is_space c = c == 32 || leb 9 c && leb c 13

unfoldable pub trim_left : Str → Str
trim_left [] = []
trim_left (c ∷ s) = elim (is_space c) [ true ↦ trim_left s | false ↦ c ∷ s ]

unfoldable pub rev_onto : Str → Str → Str
rev_onto [] out = out
rev_onto (c ∷ s) out = rev_onto s (c ∷ out)

unfoldable pub trim_space : Str → Str
unfolding trim_left rev_onto
trim_space s = rev_onto (trim_left (rev_onto (trim_left s) [])) []

-- strings.Fields on ASCII text; `word` is the field read so far, in reverse.
abbrev pub end_field : Str → List Str → List Str
end_field [] out = out
end_field (c ∷ word) out = rev_onto (c ∷ word) [] ∷ out

unfoldable pub fields_from : Str → Str → List Str
fields_from word [] = end_field word []
fields_from word (c ∷ s) = elim (is_space c) [
  | true ↦ end_field word (fields_from [] s)
  | false ↦ fields_from (c ∷ word) s
]

unfoldable pub fields : Str → List Str
unfolding fields_from rev_onto
fields s = fields_from [] s

fields_runs : fields (codes " cpu  io\nmemory") ≡ codes "cpu" ∷ codes "io" ∷ codes "memory" ∷ []
unfolding fields
fields_runs = refl

-- strings.Cut around one byte: what stands before and after it, if it occurs.
abbrev pub before_with : ℕ → Option (Str × Str) → Option (Str × Str)
before_with c none = none
before_with c (some (s, t)) = some (c ∷ s, t)

unfoldable pub cut : ℕ → Str → Option (Str × Str)
cut sep [] = none
cut sep (c ∷ s) = if c == sep then some ([], s) else before_with c (cut sep s)

-- slices.Contains on strings, or a set of strings.
abbrev pub has_str : List Str → Str → Bool
has_str [] s = false
has_str (x ∷ xs) s = str_eq x s || has_str xs s

trim_space_runs : trim_space (codes " 12 M\n") ≡ codes "12 M"
unfolding trim_space
trim_space_runs = refl
