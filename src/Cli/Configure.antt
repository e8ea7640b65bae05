-- ===== src/Cli/Configure.antt =====
-- internal/cli/run.go: the description of a container that the flags of `run` and `create` give.
pub mod Isolated
pub mod Confined
use husk.Base.{Bool, true, false, not, ◌||◌, Option, none, some, List, [], ◌∷◌, take, if◌then◌else◌}
use husk.Base.Bytes.{Str, codes, str_eq}
use husk.Base.Int.{ℤ, pos}
use husk.Base.Outcome.{Outcome, ok, err, ◌>>=◌}
use husk.Base.Action.{Error, message}
use husk.Container.{
  Config, Namespaces, IdMaps, Resources, Network, PortMapping, Security, default_namespaces,
  root_mode_pivot, root_mode_chroot,
}
use husk.Namespaces.{rootless_maps}
use husk.Security.Capabilities.{default_capabilities}
use husk.Cli.Flags.{parse_memory, parse_swap, parse_ports, resolve_capabilities}

-- commonFlags
pub record CommonFlags (F : Type 0) : Type 0 where
  pub id : Str
  pub hostname : Str
  pub memory : Str
  pub mem_high : Str
  pub mem_swap : Str
  pub cpus : F
  pub pids : ℤ
  pub io_max : Str
  pub cpu_set : Str
  pub ports : List Str
  pub env : List Str
  pub rootfs : Str
  pub image : Str
  pub cwd : Str
  pub readonly : Bool
  pub network : Str
  pub rootless : Bool
  pub no_seccomp : Bool
  pub caps_add : List Str
  pub caps_drop : List Str
  pub root_mode : Str
  pub state_root : Str
  pub data_root : Str
  pub cg_parent : Str
  pub init_shim : Bool
  pub detach : Bool

-- What the process answers: newID, os.Getuid and os.Getgid, and the order of `range` over a map.
pub record Caller : Type 0 where
  pub new_id : Str
  pub uid : ℤ
  pub gid : ℤ
  pub range : List Str → List Str

abbrev pub or_else : Str → Str → Str
or_else [] other = other
or_else (c ∷ s) other = c ∷ s

-- The id, and the host name that is made of it.
abbrev pub id_of : Str → Str → Str
id_of given fresh = or_else given fresh

abbrev pub hostname_of : Str → Str → Str
hostname_of given id = or_else given (take 12 id)

-- The test of the root mode.
unfoldable pub known_mode : Str → Outcome Error (Unit {0})
known_mode mode =
    if str_eq mode root_mode_pivot || str_eq mode root_mode_chroot
    then ok tt
    else err (message "root-mode must be pivot or chroot")

-- The switch on the network mode; the value is ns.Net.
unfoldable pub own_network : Str → Outcome Error Bool
own_network mode =
    if str_eq mode (codes "bridge") || str_eq mode (codes "none")
    then ok true
    else if str_eq mode (codes "host")
    then ok false
    else err (message "unknown network mode")

abbrev pub namespaces_with : Namespaces → Bool → Bool → Namespaces
namespaces_with ns net user = record {
  mount = ns.mount;
  pid = ns.pid;
  uts = ns.uts;
  ipc = ns.ipc;
  net = net;
  user = user;
  cgroup = ns.cgroup;
}

abbrev pub no_maps : IdMaps
no_maps = record { uid = []; gid = [] }

abbrev pub network_with : Str → List PortMapping → Network
network_with mode ports = record {
  mode = mode;
  peer_name = [];
  iface_name = [];
  ip = [];
  gateway = [];
  mtu = pos 0;
  dns = [];
  ports = ports;
}

module _ {F : Type 0} (caller : Caller) (c : CommonFlags F) (args : List Str) where
  -- The Resources of the literal in buildConfig.
  abbrev pub resources_with : ℤ → ℤ → Option ℤ → Resources F
  resources_with mem_max mem_high mem_swap = record {
    memory_max = mem_max;
    memory_high = mem_high;
    cpu_max = c.cpus;
    pids_max = c.pids;
    io_max = c.io_max;
    cpu_set = c.cpu_set;
    memory_swap_max = mem_swap;
  }

  -- The Security of the literal in buildConfig.
  abbrev pub security_with : Security
  security_with = record {
    capabilities =
        some (resolve_capabilities caller.range default_capabilities c.caps_add c.caps_drop);
    no_new_privs = true;
    seccomp = record { enabled = not c.no_seccomp; action = codes "errno"; extra_denied = [] };
    masked_paths = none;
    readonly_paths = none;
  }

  -- The literal in buildConfig, over what was parsed, with the maps.
  unfoldable pub assembled : ℤ → ℤ → Option ℤ → List PortMapping → Bool → Config F
  assembled mem_max mem_high mem_swap ports net = record {
    id = id_of c.id caller.new_id;
    hostname = hostname_of c.hostname (id_of c.id caller.new_id);
    args = args;
    env = c.env;
    cwd = c.cwd;
    rootfs = [];
    root_mode = c.root_mode;
    readonly_rootfs = c.readonly;
    namespaces = namespaces_with default_namespaces net c.rootless;
    id_maps = if c.rootless then rootless_maps caller.uid caller.gid else no_maps;
    resources = resources_with mem_max mem_high mem_swap;
    network = network_with c.network ports;
    security = security_with;
    init_process = c.init_shim;
    await_start = false;
    no_pivot = false;
  }

  -- buildConfig
  unfoldable pub build_config : Outcome Error (Config F)
  build_config = do
    mem_max ← parse_memory c.memory
    mem_high ← parse_memory c.mem_high
    mem_swap ← parse_swap c.mem_swap
    ports ← parse_ports c.ports
    _ ← known_mode c.root_mode
    net ← own_network c.network
    ok (assembled mem_max mem_high mem_swap ports net)
