-- ===== src/Scenarios/Launching.antt =====
-- Runs of launchConfig: one that fails at the clone, and one whose second Save fails.
use husk.Base.{ℕ, ◌≡◌, refl, true, false, Option, none, some, [], ◌∷◌}
use husk.Base.Bytes.{codes, str_eq}
use husk.Base.Int.{pos}
use husk.Base.Outcome.{ok}
use husk.Base.Action.{Errno, eperm}
use husk.Container.{Config, Network, default_namespaces}
use husk.Runtime.{Host, Step, clone_init, save_state, running, byte}
use husk.Runtime.Held.{
  Resource, state_dir, overlay, cgroup, network, child, held, retained, Releases, gives_back,
  succeeded,
}
use husk.Runtime.Spawn.{start}
use husk.Runtime.Launch.{
  LaunchFlags, construct, build, prepare_rootfs, furnish, populate, confine, container_io, live,
  record_live,
}
use husk.Runtime.Launch.Success.{construct-holds}
use husk.Runtime.Launch.Unwind.{construct-unwinds}

abbrev pub network_of : Network
network_of = record {
  mode = codes "bridge";
  peer_name = [];
  iface_name = [];
  ip = [];
  gateway = [];
  mtu = pos 1500;
  dns = [];
  ports = [];
}

abbrev pub config : Config ℕ
config = record {
  id = codes "c1";
  hostname = [];
  args = codes "sh" ∷ [];
  env = [];
  cwd = codes "/";
  rootfs = [];
  root_mode = codes "pivot";
  readonly_rootfs = false;
  namespaces = default_namespaces;
  id_maps = record { uid = []; gid = [] };
  resources = record {
    memory_max = pos 0;
    memory_high = pos 0;
    cpu_max = 0;
    pids_max = pos 0;
    io_max = [];
    cpu_set = [];
    memory_swap_max = none;
  };
  network = network_of;
  security = record {
    capabilities = none;
    no_new_privs = true;
    seccomp = record { enabled = true; action = []; extra_denied = [] };
    masked_paths = none;
    readonly_paths = none;
  };
  init_process = true;
  await_start = false;
  no_pivot = false;
}

abbrev flags : LaunchFlags
flags = record { rootfs = []; image = codes "base"; data_root = codes "/var/lib/husk" }

-- A host on which the steps that `refuses` names fail.
abbrev pub host : (Step → Option Errno) → Host
host refuses = record {
  act = λ log s. refuses s;
  is_dir = λ log path. ok true;
  image_layers = λ log name. ok (codes "layer" ∷ []);
  attached = λ log. network_of;
  wait = λ log. ok 0;
  probe = λ log n pid. none;
  fifo = λ log n. byte;
  processes = λ log n. ok [];
}

abbrev no_clone : Step → Option Errno
no_clone clone_init = some eperm
no_clone s = none

abbrev no_record : Step → Option Errno
no_record (save_state running) = some eperm
no_record s = none

no_clone-Releases : Releases (host no_clone)
no_clone-Releases r s log h = go s r h
  where
    go : (s : Step) (r : Resource) → gives_back r s ≡ true → succeeded (no_clone s) ≡ true
    go clone_init state_dir e = cc
    go clone_init overlay e = cc
    go clone_init cgroup e = cc
    go clone_init network e = cc
    go clone_init child e = cc
    go _ r e = refl

construct-unwinds_example :
    retained (host no_clone) cgroup (construct flags config false (host no_clone) []).1 ≡ false
unfolding construct build prepare_rootfs str_eq furnish populate confine live start
construct-unwinds_example =
    construct-unwinds flags config false (host no_clone) [] cgroup no_clone-Releases (λ e. cc e)
      (λ q. refl) refl

abbrev all_well : Step → Option Errno
all_well s = none

construct-holds_example :
    held (host all_well) child (construct flags config true (host all_well) []).1 ≡ true
unfolding construct build prepare_rootfs str_eq furnish populate confine live record_live start
    container_io default_namespaces
construct-holds_example = construct-holds flags config true (host all_well) [] child refl refl refl
