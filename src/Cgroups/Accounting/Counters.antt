-- ===== src/Cgroups/Accounting/Counters.antt =====
-- The counters of one device in io.stat, and their sums in int64.
use husk.Base.{
  ℕ, ◌+◌, ◌%◌, ◌^◌, ◌<◌, false, ◌≡◌, ◌∙◌, refl, ap, List, [], ◌∷◌, ◌++◌, String, map, All, arith,
  Bool-cases, inl, inr, if◌then◌else◌,
}
use husk.Base.Bytes.{Str, codes, str_eq, str_eq-differs, cut}
use husk.Base.Int.{pos, format_int, of_bits, bits}
use husk.Base.Split.{join_with, Lacks, cut-append}
use husk.Base.Numbers.{IsSolid, parse_int-format}
use husk.Base.Words.{IsWord}
use husk.Cgroups.Accounting.{IoSums, add64, count_io, count_value, count_pair, io_fields}

bits-of_bits : (x : ℕ) → x < 2 ^ 64 → bits (of_bits x) ≡ x
bits-of_bits x lt = ground arith

add64-mod : (a v : ℕ) → add64 (of_bits (a % 2 ^ 64)) (pos v) ≡ of_bits ((a + v) % 2 ^ 64)
unfolding add64
add64-mod a v = rw (bits-of_bits (a % 2 ^ 64) (omega arith)) (ap of_bits (omega arith))

-- The sums whose exact values are these.
abbrev pub sums_of : ℕ → ℕ → ℕ → ℕ → IoSums
sums_of a b c d = record {
  read_bytes = of_bits (a % 2 ^ 64);
  write_bytes = of_bits (b % 2 ^ 64);
  read_ios = of_bits (c % 2 ^ 64);
  write_ios = of_bits (d % 2 ^ 64);
}

abbrev pub counted : String → Str → ℕ → ℕ
counted word key v = if str_eq key (codes word) then v else 0

-- One device: its number, and its counters.
pub record Device : Type 0 where
  pub name : Str
  pub counters : List (Str × ℕ)

abbrev pub count_all : String → List (Str × ℕ) → ℕ
count_all word [] = 0
count_all word ((key, v) ∷ rest) = counted word key v + count_all word rest

-- The exact sum of a counter over all devices.
abbrev pub total : String → List Device → ℕ
total word [] = 0
total word (d ∷ rest) = count_all word d.counters + total word rest

abbrev pub pair_text : Str × ℕ → Str
pair_text (key, v) = key ++ b'=' ∷ format_int (pos v)

abbrev pub words_of : Device → List Str
words_of d = d.name ∷ map pair_text d.counters

abbrev pub line_of : Device → Str
line_of d = join_with 32 (words_of d)

abbrev pub IsCounter : Str × ℕ → Type 0
IsCounter (key, v) = IsSolid key × Lacks b'=' key × (v < 2 ^ 63)

abbrev pub IsDevice : Device → Type 0
IsDevice d = IsWord d.name × All IsCounter d.counters

pub sums_cong :
    (a b c d : ℕ) {p q r t : ℕ} → a ≡ p → b ≡ q → c ≡ r → d ≡ t → sums_of a b c d ≡ sums_of p q r t
sums_cong a b c d e f g h = rw (e, f, g, h) refl

read_not_write : str_eq (codes "rbytes") (codes "wbytes") ≡ false
unfolding str_eq
read_not_write = refl

read_not_rios : str_eq (codes "rbytes") (codes "rios") ≡ false
unfolding str_eq
read_not_rios = refl

read_not_wios : str_eq (codes "rbytes") (codes "wios") ≡ false
unfolding str_eq
read_not_wios = refl

write_not_rios : str_eq (codes "wbytes") (codes "rios") ≡ false
unfolding str_eq
write_not_rios = refl

write_not_wios : str_eq (codes "wbytes") (codes "wios") ≡ false
unfolding str_eq
write_not_wios = refl

rios_not_wios : str_eq (codes "rios") (codes "wios") ≡ false
unfolding str_eq
rios_not_wios = refl

-- A counter is added to the sum that its key names, and to no other.
count_io-sums :
    (key : Str) (v a b c d : ℕ)
    → count_io key (pos v) (sums_of a b c d)
      ≡ sums_of
          (a + counted "rbytes" key v)
          (b + counted "wbytes" key v)
          (c + counted "rios" key v)
          (d + counted "wios" key v)
unfolding count_io
count_io-sums key v a b c d = elim (Bool-cases (str_eq key (codes "rbytes"))) [
  | inl e ↦
      rw
        (
          e,
          str_eq-differs key _ _ read_not_write e,
          str_eq-differs key _ _ read_not_rios e,
          str_eq-differs key _ _ read_not_wios e,
          add64-mod a v,
        )
        (sums_cong (a + v) b c d (omega arith) (omega arith) (omega arith) (omega arith))
  | inr n₁ ↦ elim (Bool-cases (str_eq key (codes "wbytes"))) [
    | inl e ↦
        rw
          (
            n₁,
            e,
            str_eq-differs key _ _ write_not_rios e,
            str_eq-differs key _ _ write_not_wios e,
            add64-mod b v,
          )
          (sums_cong a (b + v) c d (omega arith) (omega arith) (omega arith) (omega arith))
    | inr n₂ ↦ elim (Bool-cases (str_eq key (codes "rios"))) [
      | inl e ↦
          rw (n₁, n₂, e, str_eq-differs key _ _ rios_not_wios e, add64-mod c v)
            (sums_cong a b (c + v) d (omega arith) (omega arith) (omega arith) (omega arith))
      | inr n₃ ↦ elim (Bool-cases (str_eq key (codes "wios"))) [
        | inl e ↦
            rw (n₁, n₂, n₃, e, add64-mod d v)
              (sums_cong a b c (d + v) (omega arith) (omega arith) (omega arith) (omega arith))
        | inr n₄ ↦
            rw (n₁, n₂, n₃, n₄)
              (sums_cong a b c d (omega arith) (omega arith) (omega arith) (omega arith))
      ]
    ]
  ]
]

count_pair-text :
    (key : Str) (v : ℕ) (s : IoSums)
    → Lacks b'=' key
    → v < 2 ^ 63
    → count_pair (cut b'=' (key ++ b'=' ∷ format_int (pos v))) s ≡ count_io key (pos v) s
count_pair-text key v s lacks lt =
    ap (λ p. count_pair p s) (cut-append b'=' key (format_int (pos v)) lacks)
    ∙ ap (λ n. count_value n key s) (parse_int-format v lt)

pub io_fields-sums :
    (cs : List (Str × ℕ)) (a b c d : ℕ)
    → All IsCounter cs
    → io_fields (map pair_text cs) (sums_of a b c d)
      ≡ sums_of
          (a + count_all "rbytes" cs)
          (b + count_all "wbytes" cs)
          (c + count_all "rios" cs)
          (d + count_all "wios" cs)
unfolding io_fields
io_fields-sums [] a b c d h =
    (sums_cong a b c d (omega arith) (omega arith) (omega arith) (omega arith))
io_fields-sums ((key, v) ∷ cs) a b c d ((solid, lacks, lt), h) =
    let x = counted "rbytes" key v in
    let y = counted "wbytes" key v in
    let z = counted "rios" key v in
    let t = counted "wios" key v in
    ap (io_fields (map pair_text cs))
      (count_pair-text key v (sums_of a b c d) lacks lt ∙ count_io-sums key v a b c d)
    ∙ io_fields-sums cs (a + x) (b + y) (c + z) (d + t) h
    ∙ sums_cong _ _ _ _ (omega arith) (omega arith) (omega arith) (omega arith)
