-- ===== src/Cgroups/Accounting/Bounded.antt =====
-- The limits that a sample shows are those that Apply wrote.
use husk.Base.{ℕ, ◌^◌, ◌<◌, false, ◌≡◌, refl, [], ◌∷◌, ◌++◌, arith, if◌then◌else◌, All}
use husk.Base.Bytes.{Str, codes, str_eq}
use husk.Base.Int.{ℤ, pos, negsuc, is_negative, format_int, InInt64}
use husk.Base.Outcome.{Outcome, ok}
use husk.Base.Action.{Errno}
use husk.Base.Split.{join_with}
use husk.Base.Numbers.{
  IsDigit, IsSolid, digits-IsSolid, format_int-digits, format_int-nonempty, parse_int-format,
  trim_space-ended,
}
use husk.Base.Words.{IsWord, fields-join_with}
use husk.Cgroups.{Manager, limit_text}
use husk.Cgroups.Accounting.{unlimited, limit_of, read_limit}

limit_text-IsSolid : (v : ℤ) → IsSolid (limit_text v)
unfolding limit_text
limit_text-IsSolid (pos n) = digits-IsSolid (format_int (pos n)) (format_int-digits n)
limit_text-IsSolid (negsuc n) = (refl, (refl, (refl, tt)))

-- Digits are not the word "max".
digits-differ : (s : Str) → All IsDigit s → str_eq s (codes "max") ≡ false
unfolding str_eq
digits-differ [] d = refl
digits-differ (x ∷ s) ((lo, hi), d) = ground arith

limit_of-digits : (n : ℕ) → n < 2 ^ 63 → limit_of (format_int (pos n)) ≡ pos n
unfolding limit_of join_with
limit_of-digits n lt =
    let text = format_int (pos n) in
    let word : IsWord text = (format_int-nonempty n, digits-IsSolid text (format_int-digits n)) in
    rw
      (
        digits-differ text (format_int-digits n),
        fields-join_with text [] (word, tt),
        parse_int-format n lt,
      )
      refl

limit_of-max : limit_of (codes "max") ≡ unlimited
unfolding limit_of str_eq
limit_of-max = refl

limit_of-text :
    (v : ℤ) → InInt64 v → limit_of (limit_text v) ≡ (if is_negative v then unlimited else v)
unfolding limit_text
limit_of-text (pos n) lt = limit_of-digits n lt
limit_of-text (negsuc n) lt = limit_of-max

-- If a limit file holds the text that Apply writes for a value of 64 bits, followed by a line feed, then
-- readLimit gives the value back, and -1 for every negative one.
pub read_limit-written :
    (m : Manager) (read : Str → Outcome Errno Str) (name : Str) (v : ℤ)
    → InInt64 v
    → read (m.join m.path name) ≡ ok (limit_text v ++ b'\n' ∷ [])
    → read_limit m read name ≡ (if is_negative v then unlimited else v)
unfolding read_limit
read_limit-written m read name v lt h =
    rw (h, trim_space-ended (limit_text v) b'\n' (limit_text-IsSolid v) refl) (limit_of-text v lt)
