-- ===== src/Container.antt =====
-- internal/container/config.go: the description of a container that the runtime hands to its init
-- process. The type of a float64 is a parameter `F`, since antt has no floats. A slice that the
-- code compares with nil is an Option.
use husk.Base.{Bool, true, false, Option, List}
use husk.Base.Bytes.{Str, codes}
use husk.Base.Int.{ℤ}

-- type RootMode, whose two constants are "pivot" and "chroot"
abbrev pub root_mode_pivot : Str
root_mode_pivot = codes "pivot"

abbrev pub root_mode_chroot : Str
root_mode_chroot = codes "chroot"

-- type Namespaces
pub record Namespaces : Type 0 where
  pub mount : Bool
  pub pid : Bool
  pub uts : Bool
  pub ipc : Bool
  pub net : Bool
  pub user : Bool
  pub cgroup : Bool

-- DefaultNamespaces
unfoldable pub default_namespaces : Namespaces
default_namespaces = record {
  mount = true;
  pid = true;
  uts = true;
  ipc = true;
  net = true;
  user = false;
  cgroup = true;
}

-- type IDMap
pub record IdMap : Type 0 where
  pub container_id : ℤ
  pub host_id : ℤ
  pub size : ℤ

-- type IDMaps
pub record IdMaps : Type 0 where
  pub uid : List IdMap
  pub gid : List IdMap

-- type Resources
pub record Resources (F : Type 0) : Type 0 where
  pub memory_max : ℤ
  pub memory_high : ℤ
  pub cpu_max : F
  pub pids_max : ℤ
  pub io_max : Str
  pub cpu_set : Str
  pub memory_swap_max : Option ℤ

-- type PortMapping
pub record PortMapping : Type 0 where
  pub host_port : ℤ
  pub container_port : ℤ
  pub protocol : Str
  pub host_ip : Str

-- type Network
pub record Network : Type 0 where
  pub mode : Str
  pub peer_name : Str
  pub iface_name : Str
  pub ip : Str
  pub gateway : Str
  pub mtu : ℤ
  pub dns : List Str
  pub ports : List PortMapping

-- type SeccompConfig
pub record SeccompConfig : Type 0 where
  pub enabled : Bool
  pub action : Str
  pub extra_denied : List Str

-- type Security
pub record Security : Type 0 where
  pub capabilities : Option (List Str)
  pub no_new_privs : Bool
  pub seccomp : SeccompConfig
  pub masked_paths : Option (List Str)
  pub readonly_paths : Option (List Str)

-- type Config
pub record Config (F : Type 0) : Type 0 where
  pub id : Str
  pub hostname : Str
  pub args : List Str
  pub env : List Str
  pub cwd : Str
  pub rootfs : Str
  pub root_mode : Str
  pub readonly_rootfs : Bool
  pub namespaces : Namespaces
  pub id_maps : IdMaps
  pub resources : Resources F
  pub network : Network
  pub security : Security
  pub init_process : Bool
  pub await_start : Bool
  pub no_pivot : Bool
