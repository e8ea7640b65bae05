-- ===== src/Base/Numbers.antt =====
-- Numbers that are written out with strconv.FormatInt, and read by strconv.ParseInt.
use husk.Base.{
  ℕ, zero, suc, ◌+◌, ◌-◌, ◌*◌, ◌/◌, ◌%◌, ◌^◌, ◌<◌, ◌≤◌, Bool, true, false, ◌&&◌, ◌≡◌, ◌∙◌, ap, refl,
  none, some, [], ◌∷◌, ◌++◌, append-nil, arith, All, All-append, leb, ltb,
}
use husk.Base.Bytes.{Str, str_eq, is_space, trim_left, trim_space, rev_onto}
use husk.Base.Int.{pos, decimal, digits_from, parse_int, format_int}

abbrev pub IsDigit : ℕ → Type 0
IsDigit c = (48 ≤ c) × (c ≤ 57)

decimal-IsDigit : (fuel n : ℕ) → All IsDigit (decimal fuel n)
unfolding decimal
decimal-IsDigit zero n = tt
decimal-IsDigit (suc fuel) n = go (ltb n 10) refl (decimal-IsDigit fuel (n / 10))
  where
    go :
        (b : Bool)
        → ltb n 10 ≡ b
        → All IsDigit (decimal fuel (n / 10))
        → All IsDigit
            (elim b [ true ↦ (48 + n) ∷ [] | false ↦ decimal fuel (n / 10) ++ (48 + n % 10) ∷ [] ])
    go true e ih = ((omega arith, ground arith), tt)
    go false e ih =
        All-append IsDigit (decimal fuel (n / 10)) ((48 + n % 10) ∷ []) ih
          ((omega arith, omega arith), tt)

digits_from-snoc :
    (xs : Str) (v c w : ℕ)
    → digits_from v xs ≡ some w
    → IsDigit c
    → digits_from v (xs ++ c ∷ []) ≡ some (w * 10 + (c - 48))
unfolding digits_from
digits_from-snoc [] v c w h (lo, hi) = ground arith
digits_from-snoc (x ∷ xs) v c w h d =
    go (leb 48 x && leb x 57) h (λ q. digits_from-snoc xs (v * 10 + (x - 48)) c w q d)
  where
    go :
        (b : Bool)
        → (elim b [ true ↦ digits_from (v * 10 + (x - 48)) xs | false ↦ none ]) ≡ some w
        → (digits_from (v * 10 + (x - 48)) xs ≡ some w
            → digits_from (v * 10 + (x - 48)) (xs ++ c ∷ []) ≡ some (w * 10 + (c - 48)))
        → (elim b [ true ↦ digits_from (v * 10 + (x - 48)) (xs ++ c ∷ []) | false ↦ none ])
          ≡ some (w * 10 + (c - 48))
    go true e ih = ih e
    go false e ih = cc

-- What `decimal` writes is read back, if there are digits enough.
digits_from-decimal :
    (fuel n : ℕ) → n < 10 ^ suc fuel → digits_from 0 (decimal (suc fuel) n) ≡ some n
unfolding decimal digits_from
digits_from-decimal zero n h = ground arith
digits_from-decimal (suc fuel) n h =
    go (ltb n 10) refl (digits_from-decimal fuel (n / 10) (omega arith))
  where
    again : (n / 10) * 10 + ((48 + n % 10) - 48) ≡ n
    again = omega arith

    go :
        (b : Bool)
        → ltb n 10 ≡ b
        → digits_from 0 (decimal (suc fuel) (n / 10)) ≡ some (n / 10)
        → digits_from 0 (elim b [
          | true ↦ (48 + n) ∷ []
          | false ↦ decimal (suc fuel) (n / 10) ++ (48 + n % 10) ∷ []
        ])
          ≡ some n
    go true e ih = ground arith
    go false e ih =
        digits_from-snoc (decimal (suc fuel) (n / 10)) 0 (48 + n % 10) (n / 10) ih
          (omega arith, omega arith)
        ∙ ap (λ (m : ℕ). some m) again

decimal-nonempty : (fuel n : ℕ) → str_eq (decimal (suc fuel) n) [] ≡ false
unfolding decimal str_eq
decimal-nonempty fuel n = go (ltb n 10) (decimal fuel (n / 10))
  where
    go :
        (b : Bool) (xs : Str)
        → str_eq (elim b [ true ↦ (48 + n) ∷ [] | false ↦ xs ++ (48 + n % 10) ∷ [] ]) [] ≡ false
    go true xs = refl
    go false [] = refl
    go false (x ∷ xs) = refl

parse_int-digits :
    (xs : Str) (n : ℕ)
    → All IsDigit xs
    → str_eq xs [] ≡ false
    → digits_from 0 xs ≡ some n
    → n < 2 ^ 63
    → parse_int xs ≡ some (pos n)
unfolding parse_int str_eq
parse_int-digits [] n d e h lt = cc
parse_int-digits (x ∷ xs) n ((lo, hi), d) e h lt = ground arith

-- A number of 63 bits is read back.
pub parse_int-format : (n : ℕ) → n < 2 ^ 63 → parse_int (format_int (pos n)) ≡ some (pos n)
unfolding format_int
parse_int-format n lt =
    parse_int-digits (decimal 20 n) n (decimal-IsDigit 20 n) (decimal-nonempty 19 n)
      (digits_from-decimal 19 n (omega arith)) lt

pub format_int-digits : (n : ℕ) → All IsDigit (format_int (pos n))
unfolding format_int
format_int-digits n = decimal-IsDigit 20 n

pub format_int-nonempty : (n : ℕ) → str_eq (format_int (pos n)) [] ≡ false
unfolding format_int
format_int-nonempty n = decimal-nonempty 19 n

-- Text without white space.
abbrev pub IsSolid : Str → Type 0
IsSolid = All (λ c. is_space c ≡ false)

pub digits-IsSolid : (s : Str) → All IsDigit s → IsSolid s
digits-IsSolid [] d = tt
digits-IsSolid (x ∷ s) ((lo, hi), d) = (ground arith, digits-IsSolid s d)

pub IsSolid-append : (s t : Str) → IsSolid s → IsSolid t → IsSolid (s ++ t)
IsSolid-append [] t p q = q
IsSolid-append (x ∷ s) t (e, p) q = (e, IsSolid-append s t p q)

rev_onto-IsSolid : (s out : Str) → IsSolid s → IsSolid out → IsSolid (rev_onto s out)
unfolding rev_onto
rev_onto-IsSolid [] out p q = q
rev_onto-IsSolid (x ∷ s) out (e, p) q = rev_onto-IsSolid s (x ∷ out) p (e, q)

rev_onto-twice : (s a b : Str) → rev_onto (rev_onto s a) b ≡ rev_onto a (s ++ b)
unfolding rev_onto
rev_onto-twice [] a b = refl
rev_onto-twice (x ∷ s) a b = rev_onto-twice s (x ∷ a) b

pub rev_onto-involutive : (s : Str) → rev_onto (rev_onto s []) [] ≡ s
unfolding rev_onto
rev_onto-involutive s = rev_onto-twice s [] [] ∙ append-nil s

pub rev_onto-snoc : (s out : Str) (c : ℕ) → rev_onto (s ++ c ∷ []) out ≡ c ∷ rev_onto s out
unfolding rev_onto
rev_onto-snoc [] out c = refl
rev_onto-snoc (x ∷ s) out c = rev_onto-snoc s (x ∷ out) c

trim_left-solid : (s : Str) → IsSolid s → trim_left s ≡ s
unfolding trim_left
trim_left-solid [] p = refl
trim_left-solid (x ∷ s) (e, p) = ground arith

pub trim_space-solid : (s : Str) → IsSolid s → trim_space s ≡ s
unfolding trim_space
trim_space-solid s p =
    rw (trim_left-solid s p, trim_left-solid (rev_onto s []) (rev_onto-IsSolid s [] p tt))
      (rev_onto-involutive s)

trim_left-first : (x : ℕ) (s : Str) → is_space x ≡ false → trim_left (x ∷ s) ≡ x ∷ s
unfolding trim_left
trim_left-first x s e = ground arith

trim_left-space : (x : ℕ) (s : Str) → is_space x ≡ true → trim_left (x ∷ s) ≡ trim_left s
unfolding trim_left
trim_left-space x s e = ground arith

ended_empty : (c : ℕ) → is_space c ≡ true → trim_space (c ∷ []) ≡ []
unfolding trim_space trim_left rev_onto
ended_empty c e = ground arith

-- One white space at the end is trimmed.
pub trim_space-ended :
    (s : Str) (c : ℕ) → IsSolid s → is_space c ≡ true → trim_space (s ++ c ∷ []) ≡ s
unfolding trim_space
trim_space-ended [] c p e = ended_empty c e
trim_space-ended (x ∷ s) c (q, p) e =
    let back = rev_onto (x ∷ s) [] in
    let solid : IsSolid back = rev_onto-IsSolid (x ∷ s) [] (q, p) tt in
    rw (trim_left-first x (s ++ c ∷ []) q, rev_onto-snoc (x ∷ s) [] c, trim_left-space c back e)
      (rw (trim_left-solid back solid) (rev_onto-involutive (x ∷ s)))
