-- ===== src/Cli/Bundle/Types.antt =====
-- The parts of a runtime-spec that husk reads: the fields of the types of the runtime-spec package, and
-- its constants as texts.
use husk.Base.{ℕ, Bool, Option, List}
use husk.Base.Bytes.{Str}
use husk.Base.Int.{ℤ}

-- rspec.LinuxNamespace
pub record SpecNamespace : Type 0 where
  pub kind : Str
  pub path : Str

-- rspec.LinuxIDMapping, whose numbers are uint32
pub record SpecMapping : Type 0 where
  pub container_id : ℕ
  pub host_id : ℕ
  pub size : ℕ

-- rspec.LinuxMemory
pub record SpecMemory : Type 0 where
  pub limit : Option ℤ
  pub reservation : Option ℤ

-- rspec.LinuxCPU
pub record SpecCpu : Type 0 where
  pub quota : Option ℤ
  pub period : Option ℕ
  pub cpus : Str

-- rspec.LinuxResources, with the Limit of its Pids
pub record SpecResources : Type 0 where
  pub memory : Option SpecMemory
  pub cpu : Option SpecCpu
  pub pids : Option ℤ

-- rspec.LinuxSyscall
pub record SpecSyscall : Type 0 where
  pub names : List Str
  pub action : Str

-- rspec.LinuxSeccomp
pub record SpecSeccomp : Type 0 where
  pub default_action : Str
  pub syscalls : List SpecSyscall

-- rspec.Linux; of Sysctl only its names count
pub record SpecLinux : Type 0 where
  pub uid_mappings : List SpecMapping
  pub gid_mappings : List SpecMapping
  pub namespaces : List SpecNamespace
  pub resources : Option SpecResources
  pub seccomp : Option SpecSeccomp
  pub masked_paths : Option (List Str)
  pub readonly_paths : Option (List Str)
  pub sysctl : List Str

-- rspec.Process; of Capabilities only Bounding, which may be nil
pub record SpecProcess : Type 0 where
  pub args : List Str
  pub env : List Str
  pub cwd : Str
  pub no_new_privileges : Bool
  pub capabilities : Option (Option (List Str))
  pub apparmor_profile : Str
  pub selinux_label : Str

-- rspec.Root
pub record SpecRoot : Type 0 where
  pub path : Str
  pub readonly : Bool

-- rspec.Spec
pub record Spec : Type 0 where
  pub process : Option SpecProcess
  pub root : Option SpecRoot
  pub hostname : Str
  pub linux : Option SpecLinux

-- The constants rspec.*Namespace, rspec.ActAllow and rspec.ActKillProcess.
pub record SpecWords : Type 0 where
  pub mount_namespace : Str
  pub pid_namespace : Str
  pub uts_namespace : Str
  pub ipc_namespace : Str
  pub network_namespace : Str
  pub user_namespace : Str
  pub cgroup_namespace : Str
  pub act_allow : Str
  pub act_kill_process : Str
