-- ===== src/Cgroups/Accounting/Summed.antt =====
-- The sums over the devices of io.stat.
use husk.Base.{
  ℕ, ◌+◌, true, false, ◌≡◌, ◌∙◌, refl, ap, some, List, [], ◌∷◌, ◌++◌, map, contains-append, All,
  arith, ◌==◌,
}
use husk.Base.Bytes.{Str, codes, str_eq, is_space, fields}
use husk.Base.Outcome.{Outcome, ok}
use husk.Base.Action.{Errno}
use husk.Base.Split.{join_with, lines_of, Lacks, split-ended, lines_of-ended}
use husk.Base.Numbers.{IsSolid-append, digits-IsSolid, format_int-digits}
use husk.Base.Words.{IsWord, solid-Lacks, fields-join_with}
use husk.Cgroups.{Manager}
use husk.Cgroups.Accounting.{IoSums, io_fields, io_lines, no_io, io_in, no_error, read_io_stat}
use husk.Cgroups.Accounting.Counters.{
  sums_of, sums_cong, Device, total, pair_text, line_of, IsCounter, IsDevice, io_fields-sums,
}

extended : (s : Str) (c : ℕ) (t : Str) → str_eq (s ++ c ∷ t) [] ≡ false
unfolding str_eq
extended [] c t = refl
extended (x ∷ s) c t = refl

pair-IsWord : (p : Str × ℕ) → IsCounter p → IsWord (pair_text p)
pair-IsWord (key, v) (solid, _, _) =
    (extended key b'=' _, IsSolid-append key _ solid (refl, digits-IsSolid _ (format_int-digits v)))

pairs-IsWord : (cs : List (Str × ℕ)) → All IsCounter cs → All IsWord (map pair_text cs)
pairs-IsWord [] h = tt
pairs-IsWord (p ∷ cs) (h, hs) = (pair-IsWord p h, pairs-IsWord cs hs)

words-Lacks :
    (c : ℕ) (w : Str) (ws : List Str)
    → is_space c ≡ true
    → (c == 32) ≡ false
    → All IsWord (w ∷ ws)
    → Lacks c (join_with 32 (w ∷ ws))
unfolding join_with
words-Lacks c w [] e n ((_, p), _) = solid-Lacks c e w p
words-Lacks c w (v ∷ ws) e n ((_, p), ps) =
    contains-append w (32 ∷ join_with 32 (v ∷ ws)) c
    ∙ ground (arith, solid-Lacks c e w p, words-Lacks c v ws e n ps)

line-Lacks :
    (c : ℕ) (ds : List Device)
    → is_space c ≡ true
    → (c == 32) ≡ false
    → All IsDevice ds
    → All (Lacks c) (map line_of ds)
line-Lacks c [] e n h = tt
line-Lacks c (d ∷ ds) e n ((w, cs), hs) = (
  words-Lacks c d.name (map pair_text d.counters) e n (w, pairs-IsWord d.counters cs),
  line-Lacks c ds e n hs,
)

io_lines-step :
    (line device : Str) (rest lines : List Str) (s : IoSums)
    → fields line ≡ device ∷ rest
    → io_lines (line ∷ lines) s ≡ io_lines lines (io_fields rest s)
unfolding io_lines
io_lines-step line device rest lines s e = rw (e, io_lines) refl

io_lines-sums :
    (ds : List Device) (a b c d : ℕ)
    → All IsDevice ds
    → io_lines (map line_of ds) (sums_of a b c d)
      ≡ some (
          sums_of
            (a + total "rbytes" ds)
            (b + total "wbytes" ds)
            (c + total "rios" ds)
            (d + total "wios" ds))
unfolding io_lines
io_lines-sums [] a b c d h =
    ap some (sums_cong a b c d (omega arith) (omega arith) (omega arith) (omega arith))
io_lines-sums (x ∷ ds) a b c d ((w, cs), hs) =
    let fs = map pair_text x.counters in
    io_lines-step (line_of x) x.name fs (map line_of ds) (sums_of a b c d)
      (fields-join_with x.name fs (w, pairs-IsWord x.counters cs))
    ∙ ap (io_lines (map line_of ds)) (io_fields-sums x.counters a b c d cs)
    ∙ io_lines-sums ds _ _ _ _ hs
    ∙ ap some (sums_cong _ _ _ _ (omega arith) (omega arith) (omega arith) (omega arith))

-- For an io.stat with one line per device, each a device number and counters KEY=VALUE with values of 63
-- bits, readIOStat does not panic, and gives for each of its four counters the sum over all devices, with
-- the wrap-around of int64; counters with other keys count for nothing.
pub read_io_stat-sums :
    (m : Manager) (read : Str → Outcome Errno Str) (x : Device) (ds : List Device)
    → All IsDevice (x ∷ ds)
    → read (m.join m.path (codes "io.stat"))
      ≡ ok (join_with b'\n' (map line_of (x ∷ ds)) ++ b'\n' ∷ [])
    → read_io_stat m read
      ≡ some (
          sums_of
            (total "rbytes" (x ∷ ds))
            (total "wbytes" (x ∷ ds))
            (total "rios" (x ∷ ds))
            (total "wios" (x ∷ ds)))
unfolding read_io_stat
read_io_stat-sums m read x ds h e =
    ap (λ o. io_in (no_error o)) e
    ∙ ap (λ ls. io_lines (lines_of ls) no_io)
        (split-ended b'\n' (line_of x) (map line_of ds) (line-Lacks b'\n' (x ∷ ds) refl refl h))
    ∙ ap (λ ls. io_lines ls no_io)
        (lines_of-ended (map line_of (x ∷ ds)) (line-Lacks 13 (x ∷ ds) refl refl h))
    ∙ io_lines-sums (x ∷ ds) 0 0 0 0 h
    ∙ ap some (sums_cong _ _ _ _ (omega arith) (omega arith) (omega arith) (omega arith))
