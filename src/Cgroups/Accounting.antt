-- ===== src/Cgroups/Accounting.antt =====
-- internal/cgroups/stats.go: one sample of a container's use of resources. `read` is os.ReadFile, and
-- what a bufio.Scanner finds in a file, whose lines are shorter than its buffer. The panic of
-- strings.Fields(line)[1:] on a line without a field is `none`.
pub mod Counters
pub mod Summed
pub mod Bounded
use husk.Base.{
  ℕ, ◌+◌, ◌%◌, ◌^◌, Bool, true, false, Option, none, some, List, [], ◌∷◌, if◌then◌else◌,
}
use husk.Base.Bytes.{Str, codes, str_eq, trim_space, fields, cut}
use husk.Base.Int.{ℤ, pos, negsuc, parse_int, of_bits, bits}
use husk.Base.Outcome.{Outcome, ok, err}
use husk.Base.Action.{Errno, Error, errno, wrapped}
use husk.Base.Split.{split, lines_of}
use husk.Cgroups.{Manager}

-- The four sums of io.stat.
pub record IoSums : Type 0 where
  pub read_bytes : ℤ
  pub write_bytes : ℤ
  pub read_ios : ℤ
  pub write_ios : ℤ

-- type Stats
pub record Stats : Type 0 where
  pub memory_current : ℤ
  pub memory_peak : ℤ
  pub memory_max : ℤ
  pub memory_high : ℤ
  pub swap_current : ℤ
  pub swap_max : ℤ
  pub oom : ℤ
  pub oom_kills : ℤ
  pub high_events : ℤ
  pub max_events : ℤ
  pub cpu_usage_usec : ℤ
  pub cpu_user_usec : ℤ
  pub cpu_system_usec : ℤ
  pub nr_periods : ℤ
  pub nr_throttled : ℤ
  pub throttled_usec : ℤ
  pub pids_current : ℤ
  pub pids_max : ℤ
  pub io : IoSums

-- v + w, in int64
unfoldable pub add64 : ℤ → ℤ → ℤ
add64 v w = of_bits ((bits v + bits w) % 2 ^ 64)

abbrev pub unlimited : ℤ
unlimited = negsuc 0

abbrev pub or_value : ℤ → Option ℤ → ℤ
or_value default none = default
or_value default (some v) = v

abbrev pub no_error : Outcome Errno Str → Option Str
no_error (ok text) = some text
no_error (err e) = none

-- The number in a text.
abbrev pub int_in : Option Str → ℤ
int_in none = pos 0
int_in (some text) = or_value (pos 0) (parse_int (trim_space text))

-- The first of several fields.
abbrev pub first_of : Str → List Str → Str
first_of text [] = text
first_of text (f ∷ []) = text
first_of text (f ∷ g ∷ rest) = f

-- The limit in a text behind TrimSpace.
unfoldable pub limit_of : Str → ℤ
limit_of text =
    if str_eq text (codes "max")
    then unlimited
    else or_value unlimited (parse_int (first_of text (fields text)))

abbrev pub limit_in : Option Str → ℤ
limit_in none = unlimited
limit_in (some text) = limit_of (trim_space text)

-- The keys and values read so far, the last one first, as a Go map.
abbrev pub Keyed : Type 0
Keyed = List (Str × ℤ)

-- m[key]
unfoldable pub value_at : Keyed → Str → ℤ
value_at [] key = pos 0
value_at ((k, v) ∷ rest) key = if str_eq k key then v else value_at rest key

abbrev pub put : Option ℤ → Str → Keyed → Keyed
put none key out = out
put (some v) key out = (key, v) ∷ out

-- One line of readKeyed.
abbrev pub keyed_line : List Str → Keyed → Keyed
keyed_line (key ∷ value ∷ []) out = put (parse_int value) key out
keyed_line _ out = out

unfoldable pub keyed_lines : List Str → Keyed → Keyed
keyed_lines [] out = out
keyed_lines (line ∷ lines) out = keyed_lines lines (keyed_line (fields line) out)

abbrev pub keyed_in : Option Str → Keyed
keyed_in none = []
keyed_in (some text) = keyed_lines (lines_of (split b'\n' text)) []

-- The switch on a key of io.stat.
unfoldable pub count_io : Str → ℤ → IoSums → IoSums
unfolding add64
count_io key v s =
    if str_eq key (codes "rbytes")
    then record s { read_bytes = add64 s.read_bytes v }
    else if str_eq key (codes "wbytes")
    then record s { write_bytes = add64 s.write_bytes v }
    else if str_eq key (codes "rios")
    then record s { read_ios = add64 s.read_ios v }
    else if str_eq key (codes "wios")
    then record s { write_ios = add64 s.write_ios v }
    else s

abbrev pub count_value : Option ℤ → Str → IoSums → IoSums
count_value none key s = s
count_value (some v) key s = count_io key v s

abbrev pub count_pair : Option (Str × Str) → IoSums → IoSums
count_pair none s = s
count_pair (some (key, value)) s = count_value (parse_int value) key s

-- The fields of a line behind the device.
unfoldable pub io_fields : List Str → IoSums → IoSums
io_fields [] s = s
io_fields (field ∷ rest) s = io_fields rest (count_pair (cut b'=' field) s)

-- One line of readIOStat.
abbrev pub io_line : List Str → IoSums → Option IoSums
io_line [] s = none
io_line (device ∷ rest) s = some (io_fields rest s)

-- The lines of readIOStat; `none` is a panic.
unfoldable pub io_lines : List Str → IoSums → Option IoSums
io_lines [] s = some s
io_lines (line ∷ lines) s = elim (io_line (fields line) s) [
  | none ↦ none
  | some t ↦ io_lines lines t
]

abbrev pub no_io : IoSums
no_io = record { read_bytes = pos 0; write_bytes = pos 0; read_ios = pos 0; write_ios = pos 0 }

abbrev pub io_in : Option Str → Option IoSums
io_in none = some no_io
io_in (some text) = io_lines (lines_of (split b'\n' text)) no_io

module _ (m : Manager) (read : Str → Outcome Errno Str) where
  -- readInt
  unfoldable pub read_int : Str → ℤ
  read_int name = int_in (no_error (read (m.join m.path name)))

  -- readLimit
  unfoldable pub read_limit : Str → ℤ
  read_limit name = limit_in (no_error (read (m.join m.path name)))

  -- readKeyed
  unfoldable pub read_keyed : Str → Keyed
  read_keyed name = keyed_in (no_error (read (m.join m.path name)))

  -- readIOStat
  unfoldable pub read_io_stat : Option IoSums
  read_io_stat = io_in (no_error (read (m.join m.path (codes "io.stat"))))

  -- The sample, with the sums of readIOStat.
  unfoldable pub sample : IoSums → Stats
  unfolding read_int read_limit read_keyed value_at
  sample io =
      let events = read_keyed (codes "memory.events") in
      let cpu = read_keyed (codes "cpu.stat") in
      record {
        memory_current = read_int (codes "memory.current");
        memory_peak = read_int (codes "memory.peak");
        memory_max = read_limit (codes "memory.max");
        memory_high = read_limit (codes "memory.high");
        swap_current = read_int (codes "memory.swap.current");
        swap_max = read_limit (codes "memory.swap.max");
        oom = value_at events (codes "oom");
        oom_kills = value_at events (codes "oom_kill");
        high_events = value_at events (codes "high");
        max_events = value_at events (codes "max");
        cpu_usage_usec = value_at cpu (codes "usage_usec");
        cpu_user_usec = value_at cpu (codes "user_usec");
        cpu_system_usec = value_at cpu (codes "system_usec");
        nr_periods = value_at cpu (codes "nr_periods");
        nr_throttled = value_at cpu (codes "nr_throttled");
        throttled_usec = value_at cpu (codes "throttled_usec");
        pids_current = read_int (codes "pids.current");
        pids_max = read_limit (codes "pids.max");
        io = io;
      }

  abbrev pub with_io : Option IoSums → Option (Outcome Error Stats)
  with_io none = none
  with_io (some io) = some (ok (sample io))

  -- Stats, where os.Stat of the directory gives an error or none.
  unfoldable pub stats : Option Errno → Option (Outcome Error Stats)
  unfolding read_io_stat
  stats (some e) = some (err (wrapped "cgroup" (errno e)))
  stats none = with_io read_io_stat
