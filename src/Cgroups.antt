-- ===== src/Cgroups.antt =====
-- internal/cgroups/v2.go: one container's cgroup. Its directory, that of its parent and
-- filepath.Join are in a `Manager`, since the theorems hold whatever paths these give.
pub mod Limits
pub mod Delegation
pub mod Accounting
use husk.Base.{
  ℕ, suc, ◌%◌, Bool, true, false, not, ◌||◌, Option, none, some, List, [], ◌∷◌, ◌++◌, ◌==◌,
  if◌then◌else◌,
}
use husk.Base.Bytes.{Str, codes, str_eq, trim_space, fields, has_str, rev_onto}
use husk.Base.Int.{ℤ, pos, negsuc, is_positive, is_negative, format_int, parse_int}
use husk.Base.Outcome.{Outcome, ok, err}
use husk.Base.Action.{
  Errno, eexist, enoent, Error, errno, message, pure, fail, lift, try, ◌>>=◌, ◌>>◌, context,
  continue, when,
}
use husk.Container.{Resources}
use husk.Kernel.{
  Kernel, Call, Sys, mkdir_all, mkdir, remove, open_write, write_string, kill, is_not_exist, invoke,
  tolerate, read_file,
}

-- requiredControllers
abbrev pub required_controllers : List Str
required_controllers = codes "cpu" ∷ codes "memory" ∷ codes "pids" ∷ codes "io" ∷ []

-- Manager with Path, parentPath and filepath.Join.
pub record Manager : Type 0 where
  pub parent_path : Str
  pub path : Str
  pub join : Str → Str → Str

abbrev pub root : Str
root = codes "/sys/fs/cgroup"

-- writeFile
unfoldable pub write_file : Str → Str → Sys (Unit {0})
write_file path value =
    invoke (open_write path) >> context "write cgroup file" (invoke (write_string path value))

abbrev pub in_fields : Outcome Errno Str → Sys (List Str)
in_fields (ok text) = pure (fields text)
in_fields (err e) = fail (errno e)

-- readList
unfoldable pub read_list : Str → Sys (List Str)
read_list path = read_file path >>= in_fields

-- One round of the loop of enableControllers: have[c], already[c], and the rest of the loop.
abbrev pub enable_one :
    Bool → Bool → Str → Str → (List Str → Sys (List Str)) → List Str → Sys (List Str)
enable_one false on control c next missing = next (missing ++ c ∷ [])
enable_one true true control c next missing = next missing
enable_one true false control c next missing =
    context "enable controller" (write_file control (b'+' ∷ c)) >> next missing

-- The loop of enableControllers; the value is `missing`.
unfoldable pub enable_each : Str → List Str → List Str → List Str → List Str → Sys (List Str)
enable_each control available enabled [] missing = pure missing
enable_each control available enabled (c ∷ cs) missing =
    enable_one (has_str available c) (has_str enabled c) control c
      (enable_each control available enabled cs) missing

abbrev pub all_delegated : List Str → Sys (Unit {0})
all_delegated [] = pure tt
all_delegated (c ∷ cs) = fail (message "controllers are not delegated")

-- enableControllers
unfoldable pub enable_controllers : Manager → Str → Sys (Unit {0})
enable_controllers m dir = do
  available ←
      context "read cgroup.controllers" (read_list (m.join dir (codes "cgroup.controllers")))
  enabled ←
      context "read cgroup.subtree_control"
        (read_list (m.join dir (codes "cgroup.subtree_control")))
  missing ←
      enable_each (m.join dir (codes "cgroup.subtree_control")) available enabled
        required_controllers []
  all_delegated missing

-- os.IsExist
abbrev pub exists : Errno → Bool
exists eexist = true
exists _ = false

abbrev pub absent : Errno → Bool
absent enoent = true
absent _ = false

-- Available
abbrev pub available : Sys Bool
available k log = (ok (k.is_cgroup2 log root), log)

-- Create
unfoldable pub create : Manager → Sys (Unit {0})
create m = available >>= elim [
  | false ↦ fail (message "cgroup v2 unified hierarchy not mounted")
  | true ↦ do
    context "create parent cgroup" (invoke (mkdir_all m.parent_path))
    enable_controllers m root
    enable_controllers m m.parent_path
    context "create container cgroup" (tolerate exists (mkdir m.path))
]

-- Manager.write
unfoldable pub write : Manager → Str → Str → Sys (Unit {0})
write m name value = write_file (m.join m.path name) value

-- The text that writeLimit writes.
unfoldable pub limit_text : ℤ → Str
unfolding format_int
limit_text v = if is_negative v then codes "max" else format_int v

-- A failure for which os.IsNotExist holds is a success.
abbrev pub unless_missing : Outcome Error (Unit {0}) → Sys (Unit {0})
unless_missing (ok _) = pure tt
unless_missing (err e) = if is_not_exist e then pure tt else fail e

-- Manager.writeLimit
unfoldable pub write_limit : Manager → Str → ℤ → Sys (Unit {0})
write_limit m name v = try (write m name (limit_text v)) >>= unless_missing

-- The branch for memory.swap.max in Apply.
abbrev pub apply_swap : Manager → Option ℤ → Bool → Sys (Unit {0})
apply_swap m (some v) limited = write_limit m (codes "memory.swap.max") v
apply_swap m none limited = when limited (write_limit m (codes "memory.swap.max") (pos 0))

-- What Apply does with a float64: the test r.CPUMax > 0, and int64(r.CPUMax * 100000).
pub record CpuQuota (F : Type 0) : Type 0 where
  pub is_set : F → Bool
  pub micros : F → ℤ

-- Apply
unfoldable pub apply : {F : Type 0} → CpuQuota F → Manager → Resources F → Sys (Unit {0})
apply cpu m r = do
  when (is_positive r.memory_max) (write m (codes "memory.max") (format_int r.memory_max))
  apply_swap m r.memory_swap_max (is_positive r.memory_max)
  when (is_positive r.memory_high) (write m (codes "memory.high") (format_int r.memory_high))
  when (cpu.is_set r.cpu_max)
      (write m (codes "cpu.max") (format_int (cpu.micros r.cpu_max) ++ codes " 100000"))
  when (is_positive r.pids_max) (write m (codes "pids.max") (format_int r.pids_max))
  when (not (str_eq r.io_max [])) (write m (codes "io.max") r.io_max)
  when (not (str_eq r.cpu_set [])) (write m (codes "cpuset.cpus") r.cpu_set)

-- AddProcess
unfoldable pub add_process : Manager → ℤ → Sys (Unit {0})
add_process m pid = write m (codes "cgroup.procs") (format_int pid)

-- Destroy
unfoldable pub destroy : Manager → Sys (Unit {0})
destroy m = context "remove cgroup" (tolerate absent (remove m.path))

abbrev pub and_pid : Option ℤ → List ℤ → List ℤ
and_pid none pids = pids
and_pid (some pid) pids = pid ∷ pids

-- The loop of Processes.
unfoldable pub pids_of : List Str → List ℤ
pids_of [] = []
pids_of (line ∷ lines) = and_pid (parse_int line) (pids_of lines)

-- Processes
unfoldable pub processes : Manager → Sys (List ℤ)
unfolding pids_of fields
processes m =
    read_file (m.join m.path (codes "cgroup.procs"))
    >>= elim [ ok text ↦ pure (pids_of (fields text)) | err e ↦ fail (errno e) ]

-- The loop of killIteratively; SIGKILL is 9.
unfoldable pub kill_each : List ℤ → Sys (Unit {0})
kill_each [] = pure tt
kill_each (pid ∷ pids) = tolerate (λ _. true) (kill pid 9) >> kill_each pids

-- killIteratively
unfoldable pub kill_iteratively : Manager → Sys (Unit {0})
kill_iteratively m = processes m >>= kill_each

abbrev pub or_iterate : Manager → Outcome Error (Unit {0}) → Sys (Unit {0})
or_iterate m (ok _) = pure tt
or_iterate m (err e) = if is_not_exist e then kill_iteratively m else fail e

-- KillAll
unfoldable pub kill_all : Manager → Sys (Unit {0})
kill_all m = try (write_file (m.join m.path (codes "cgroup.kill")) (codes "1")) >>= or_iterate m
