-- ===== src/Cli/Bundle/Parts.antt =====
-- The translation of the parts of an OCI bundle: namespaces, id maps, resources and seccomp.
use husk.Base.{
  ℕ, ltb, true, false, not, Option, none, some, List, [], ◌∷◌, ◌++◌, map, if◌then◌else◌,
}
use husk.Base.Bytes.{Str, codes, str_eq, equal_fold}
use husk.Base.Int.{ℤ, pos}
use husk.Container.{Namespaces, IdMap, IdMaps, Resources, SeccompConfig, default_namespaces}
use husk.Namespaces.{CloneFlag, new_mount, new_pid, new_uts, new_ipc, new_net, new_user, new_cgroup}
use husk.Security.Policy.{lookup_syscall}
use husk.Cli.Bundle.Types.{
  SpecNamespace, SpecMapping, SpecMemory, SpecCpu, SpecResources, SpecSyscall, SpecSeccomp,
  SpecLinux, SpecWords,
}

abbrev pub no_namespaces : Namespaces
no_namespaces = record {
  mount = false;
  pid = false;
  uts = false;
  ipc = false;
  net = false;
  user = false;
  cgroup = false;
}

-- ns.Mount = true, and so on
abbrev pub set_namespace : CloneFlag → Namespaces → Namespaces
set_namespace new_mount ns = record ns { mount = true }
set_namespace new_pid ns = record ns { pid = true }
set_namespace new_uts ns = record ns { uts = true }
set_namespace new_ipc ns = record ns { ipc = true }
set_namespace new_net ns = record ns { net = true }
set_namespace new_user ns = record ns { user = true }
set_namespace new_cgroup ns = record ns { cgroup = true }

abbrev pub set_kind : Option CloneFlag → Namespaces → Namespaces
set_kind none ns = ns
set_kind (some f) ns = set_namespace f ns

module _ (w : SpecWords) where
  -- The switch on n.Type.
  unfoldable pub kind_of : Str → Option CloneFlag
  kind_of kind =
      if str_eq kind w.mount_namespace
      then some new_mount
      else if str_eq kind w.pid_namespace
      then some new_pid
      else if str_eq kind w.uts_namespace
      then some new_uts
      else if str_eq kind w.ipc_namespace
      then some new_ipc
      else if str_eq kind w.network_namespace
      then some new_net
      else if str_eq kind w.user_namespace
      then some new_user
      else if str_eq kind w.cgroup_namespace
      then some new_cgroup
      else none

  -- One round of the loop of namespacesFromSpec.
  unfoldable pub add_namespace : SpecNamespace → Namespaces → Namespaces
  add_namespace n ns = if not (str_eq n.path []) then ns else set_kind (kind_of n.kind) ns

  unfoldable pub add_namespaces : List SpecNamespace → Namespaces → Namespaces
  unfolding add_namespace
  add_namespaces [] ns = ns
  add_namespaces (n ∷ rest) ns = add_namespaces rest (add_namespace n ns)

  -- namespacesFromSpec
  unfoldable pub namespaces_from_spec : Option SpecLinux → Namespaces
  unfolding add_namespaces
  namespaces_from_spec none = default_namespaces
  namespaces_from_spec (some l) = add_namespaces l.namespaces no_namespaces

-- int(m.ContainerID), and so on
abbrev pub mapped : SpecMapping → IdMap
mapped m = record { container_id = pos m.container_id; host_id = pos m.host_id; size = pos m.size }

-- idMapsFromSpec
unfoldable pub id_maps_from_spec : SpecLinux → IdMaps
id_maps_from_spec l = record { uid = map mapped l.uid_mappings; gid = map mapped l.gid_mappings }

abbrev pub or_zero : Option ℤ → ℤ
or_zero none = pos 0
or_zero (some v) = v

abbrev pub memory_limit : Option SpecMemory → ℤ
memory_limit none = pos 0
memory_limit (some m) = or_zero m.limit

abbrev pub memory_reservation : Option SpecMemory → ℤ
memory_reservation none = pos 0
memory_reservation (some m) = or_zero m.reservation

abbrev pub cpus_of : Option SpecCpu → Str
cpus_of none = []
cpus_of (some cpu) = cpu.cpus

-- Float64: its zero, and float64(quota) / float64(period)
pub record Floats (F : Type 0) : Type 0 where
  pub zero : F
  pub quotient : ℤ → ℕ → F

module _ {F : Type 0} (floats : Floats F) where
  abbrev pub share : Option ℤ → Option ℕ → F
  share (some quota) (some period) =
      if ltb 0 period then floats.quotient quota period else floats.zero
  share _ _ = floats.zero

  abbrev pub cpu_share : Option SpecCpu → F
  cpu_share none = floats.zero
  cpu_share (some cpu) = share cpu.quota cpu.period

  abbrev pub resources_with : Option SpecMemory → Option SpecCpu → Option ℤ → Resources F
  resources_with memory cpu pids = record {
    memory_max = memory_limit memory;
    memory_high = memory_reservation memory;
    cpu_max = cpu_share cpu;
    pids_max = or_zero pids;
    io_max = [];
    cpu_set = cpus_of cpu;
    memory_swap_max = none;
  }

  -- resourcesFromSpec
  unfoldable pub resources_from_spec : Option SpecResources → Resources F
  resources_from_spec none = resources_with none none none
  resources_from_spec (some r) = resources_with r.memory r.cpu r.pids

-- The names of one entry that husk's policy knows.
abbrev pub known_name : Option ℕ → Str → List Str
known_name none name = []
known_name (some n) name = name ∷ []

unfoldable pub known_names : (Str → ℕ) → List Str → List Str
known_names nr [] = []
known_names nr (name ∷ rest) = known_name (lookup_syscall nr name) name ++ known_names nr rest

-- The loop of seccompFromSpec.
unfoldable pub extra_denied_of : (Str → ℕ) → SpecWords → List SpecSyscall → List Str
unfolding known_names
extra_denied_of nr w [] = []
extra_denied_of nr w (sc ∷ rest) =
    if str_eq sc.action w.act_allow
    then extra_denied_of nr w rest
    else known_names nr sc.names ++ extra_denied_of nr w rest

-- seccompFromSpec
unfoldable pub seccomp_from_spec : (Str → ℕ) → SpecWords → SpecSeccomp → SeccompConfig
unfolding extra_denied_of
seccomp_from_spec nr w s = record {
  enabled = true;
  action = if equal_fold s.default_action w.act_kill_process then codes "kill" else codes "errno";
  extra_denied = extra_denied_of nr w s.syscalls;
}
