-- ===== src/Scenarios/Limits.antt =====
-- Runs of internal/cgroups.
use husk.Base.{
  ℕ, ◌<◌, ◌^◌, arith, ◌≡◌, ◌⊎◌, refl, true, false, Option, none, some, List, [], ◌∷◌, ◌++◌, map,
  if◌then◌else◌,
}
use husk.Base.Bytes.{Str, codes, fields, str_eq}
use husk.Base.Int.{pos, is_negative, format_int}
use husk.Base.Outcome.{Outcome, ok}
use husk.Base.Action.{Errno, enoent}
use husk.Container.{Resources}
use husk.Kernel.{Kernel, Call, open_write, write_string}
use husk.Cgroups.{
  Manager, CpuQuota, required_controllers, apply, enable_controllers, limit_text, write,
  write_limit, write_file, read_list, enable_each,
}
use husk.Base.Split.{join_with}
use husk.Base.Words.{IsWord}
use husk.Base.Numbers.{IsSolid}
use husk.Cgroups.Accounting.{unlimited, read_limit, read_io_stat}
use husk.Cgroups.Accounting.Counters.{Device, IsDevice, sums_of, total, line_of}
use husk.Cgroups.Accounting.Summed.{read_io_stat-sums}
use husk.Cgroups.Accounting.Bounded.{read_limit-written}
use husk.Cgroups.Limits.{apply-swap_bounded, hard_limit}
use husk.Cgroups.Delegation.{lacking, grants, enable_controllers-delegated}

-- A kernel that accepts every call but the opening of cgroup.kill.
abbrev no_kill : Call → Option Errno
no_kill (open_write path) = if str_eq path (codes "cgroup.kill") then some enoent else none
no_kill c = none

abbrev kernel : Kernel
kernel = record {
  act = λ log c. no_kill c;
  read = λ log path. ok (codes "cpu io memory pids 12");
  stat = λ log path. ok true;
  is_cgroup2 = λ log path. true;
  native_arch = 62;
  sys_nr = λ name. 0;
  cap_nr = λ name. 0;
  range = λ keys. keys;
}

abbrev manager : Manager
manager = record { parent_path = codes "husk"; path = codes "c1"; join = λ dir name. name }

abbrev quota : CpuQuota ℕ
quota = record { is_set = λ f. false; micros = λ f. pos f }

abbrev resources : Resources ℕ
resources = record {
  memory_max = pos 4096;
  memory_high = pos 0;
  cpu_max = 0;
  pids_max = pos 10;
  io_max = [];
  cpu_set = [];
  memory_swap_max = none;
}

abbrev limited : List Call
limited = (apply quota manager resources kernel []).1

apply-swap_bounded_example :
    (kernel.act
        ([] ++ open_write (codes "memory.max") ∷ [])
        (write_string (codes "memory.max") (format_int (pos 4096)))
      ≡ none)
    × ((kernel.act
            ([] ++ hard_limit kernel manager quota resources)
            (open_write (codes "memory.swap.max"))
          ≡ some enoent)
        ⊎ ((kernel.act
                ([] ++ hard_limit kernel manager quota resources)
                (open_write (codes "memory.swap.max"))
              ≡ none)
            × (kernel.act
                  (([] ++ hard_limit kernel manager quota resources)
                    ++ open_write (codes "memory.swap.max") ∷ [])
                  (write_string (codes "memory.swap.max") (codes "0"))
                ≡ none)))
unfolding apply write write_limit write_file str_eq
apply-swap_bounded_example =
    apply-swap_bounded kernel manager quota resources [] {after = limited} refl refl

abbrev delegated : List Call
delegated = (enable_controllers manager [] kernel []).1

enable_controllers-delegated_example :
    (have : Str) × (on : Str) × (kernel.read [] (codes "cgroup.controllers") ≡ ok have)
    × (kernel.read [] (codes "cgroup.subtree_control") ≡ ok on)
    × (lacking (fields have) required_controllers ≡ [])
    × (delegated
        ≡ []
          ++ grants (codes "cgroup.subtree_control") (fields have) (fields on) required_controllers)
unfolding enable_controllers read_list enable_each fields str_eq
enable_controllers-delegated_example =
    enable_controllers-delegated kernel manager [] [] {after = delegated} refl

-- A device that has read `n` bytes and written 3.
abbrev disk : Str → ℕ → Device
disk name n = record {
  name = name;
  counters = (codes "rbytes", n) ∷ (codes "wbytes", 3) ∷ (codes "dios", 1) ∷ [];
}

abbrev disks : List Device
disks = disk (codes "8:0") 5 ∷ disk (codes "8:16") 7 ∷ []

is_disk : (name : Str) (n : ℕ) → IsWord name → n < 2 ^ 63 → IsDevice (disk name n)
is_disk name n w lt =
    let wide : IsSolid (codes "rbytes") = (refl, (refl, (refl, (refl, (refl, (refl, tt)))))) in
    let narrow : IsSolid (codes "dios") = (refl, (refl, (refl, (refl, tt)))) in
    (w, ((wide, refl, lt), ((wide, refl, omega arith), ((narrow, refl, omega arith), tt))))

abbrev answers : Str → Outcome Errno Str
answers name =
    if str_eq name (codes "io.stat")
    then ok (join_with b'\n' (map line_of disks) ++ b'\n' ∷ [])
    else ok (limit_text (pos 4096) ++ b'\n' ∷ [])

read_limit-written_example :
    read_limit manager answers (codes "memory.max")
    ≡ (if is_negative (pos 4096) then unlimited else pos 4096)
unfolding str_eq
read_limit-written_example =
    read_limit-written manager answers (codes "memory.max") (pos 4096) (omega arith) refl

read_io_stat-sums_example :
    read_io_stat manager answers
    ≡ some (
        sums_of
          (total "rbytes" disks)
          (total "wbytes" disks)
          (total "rios" disks)
          (total "wios" disks))
unfolding str_eq
read_io_stat-sums_example =
    read_io_stat-sums manager answers (disk (codes "8:0") 5) (disk (codes "8:16") 7 ∷ [])
      (
        is_disk (codes "8:0") 5 (refl, (refl, (refl, (refl, tt)))) (omega arith),
        (is_disk (codes "8:16") 7 (refl, (refl, (refl, (refl, (refl, tt))))) (omega arith), tt),
      )
      refl
