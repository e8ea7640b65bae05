-- ===== src/Scenarios/Descriptions.antt =====
-- The description of a container that flags give, up to its confinement.
use husk.Base.{
  ◌≡◌, refl, ◌⊎◌, true, false, not, none, some, List, [], ◌∷◌, ◌++◌, length, if◌then◌else◌,
}
use husk.Base.Bytes.{
  Str, codes, str_eq, rev_onto, trim_space, equal_fold, cut, to_upper, has_prefix,
}
use husk.Base.Paths.{abs, clean, walk, enter}
use husk.Base.Int.{pos, negsuc, parse_int, mul64}
use husk.Base.Outcome.{Outcome, ok}
use husk.Base.Action.{Error}
use husk.Container.{Config, PortMapping, root_mode_pivot, root_mode_chroot}
use husk.Kernel.{Call, no_new_privs, seccomp_tsync}
use husk.Kernel.Runs.{Returns}
use husk.Mounts.Root.{setup_root}
use husk.Namespaces.{CloneFlag, only_root}
use husk.Namespaces.Cloned.{has_flag}
use husk.Network.Inside.{Addresses}
use husk.Runtime.Spawn.Clone.{build_cmd}
use husk.Security.Filter.{Program, action_errno}
use husk.Security.Filter.Machine.{Bpf, SeccompData}
use husk.Security.Filter.Decision.{verdict}
use husk.Security.Policy.{default_denied}
use husk.Security.Capabilities.{default_capabilities, drop_capabilities}
use husk.Security.Apply.{extend_denied}
use husk.Initproc.{setup}
use husk.Cli.Flags.{
  suffix, parse_memory, parse_swap, parse_ports, parse_port, resolve_capabilities, add_keys,
  delete_keys, delete_key, normalise_cap,
}
use husk.Cli.Configure.{CommonFlags, Caller, known_mode, own_network, assembled, build_config}
use husk.Cli.Configure.Isolated.{isolated, build_config-isolates}
use husk.Cli.Configure.Confined.{wanted_capabilities, build_config-confines}
use husk.Container.{default_namespaces}
use husk.Mounts.Api.{
  mount_cgroup_namespace, mount_api, setup_device_nodes, setup_device, setup_dev_symlinks,
  setup_link, mount_api_filesystems,
}
use husk.Mounts.Masks.{mask_path, readonly_path, apply_masks}
use husk.Mounts.Root.{setup_root, swap_root, setup_root_pivot}
use husk.Network.Inside.{configure_inside, bring_up}
use husk.Security.Filter.{build_filter, prologue}
use husk.Security.Policy.{lookup_syscall}
use husk.Security.Capabilities.{
  drop_capabilities, wanted_from, drop_to, shrink_bounding, raise_ambient, mask_word,
  lookup_capability, add_key, last_cap,
}
use husk.Security.Apply.{apply, apply_seccomp, restrict, install, extend_denied}
use husk.Initproc.{setup, name_host, show_cgroup, settle_in}
use husk.Scenarios.Restrictions.{accepting}

abbrev flags : CommonFlags (Unit {0})
flags = record {
  id = [];
  hostname = codes "web";
  memory = codes "64M";
  mem_high = [];
  mem_swap = codes "max";
  cpus = tt;
  pids = pos 32;
  io_max = [];
  cpu_set = [];
  ports = codes "8080:80" ∷ [];
  env = [];
  rootfs = codes "/srv/web";
  image = [];
  cwd = codes "/";
  readonly = true;
  network = codes "host";
  rootless = true;
  no_seccomp = false;
  caps_add = [];
  caps_drop = codes "mknod" ∷ [];
  root_mode = codes "pivot";
  state_root = [];
  data_root = [];
  cg_parent = [];
  init_shim = false;
  detach = true;
}

abbrev caller : Caller
caller = record {
  new_id = codes "0123456789abcdef";
  uid = pos 1000;
  gid = pos 1000;
  range = λ keys. keys;
}

abbrev command : List Str
command = codes "httpd" ∷ []

abbrev web : PortMapping
web = record { host_port = pos 8080; container_port = pos 80; protocol = codes "tcp"; host_ip = [] }

abbrev described : Config (Unit {0})
described = assembled caller flags command (pos 67108864) (pos 0) (some (negsuc 0)) (web ∷ []) false

described-built : build_config caller flags command ≡ ok described
unfolding build_config parse_memory str_eq parse_int rev_onto trim_space suffix parse_swap
    equal_fold parse_ports parse_port cut known_mode own_network mul64
described-built = refl

build_config-isolates_example :
    ((f : CloneFlag)
      → has_flag (build_cmd [] true true described).cloned f ≡ isolated caller flags command f)
    × ((build_cmd [] true true described).uid_mappings
        ≡ (if flags.rootless then only_root caller.uid ∷ [] else []))
    × ((build_cmd [] true true described).gid_mappings
        ≡ (if flags.rootless then only_root caller.gid ∷ [] else []))
    × ((build_cmd [] true true described).pdeathsig ≡ (if true then none else some 9))
    × (described.no_pivot ≡ false)
    × ((described.root_mode ≡ root_mode_pivot) ⊎ (described.root_mode ≡ root_mode_chroot))
    × (described.security.no_new_privs ≡ true)
    × (described.security.capabilities
        ≡ some
            (resolve_capabilities caller.range default_capabilities flags.caps_add flags.caps_drop))
    × (described.security.seccomp.enabled ≡ not flags.no_seccomp)
build_config-isolates_example =
    build_config-isolates caller flags command [] true true described described-built

abbrev addresses : Addresses
addresses = record { parse_addr = λ text. ok text; is_ip = λ text. true }

abbrev here : Outcome Error Str
here = ok (codes "/")

abbrev final_log : List Call
final_log = (setup addresses here described accepting []).1

build_config-confines_example :
    (named rooted settled dropped : List Call) × (p : Program) × Returns
      (setup_root here described)
      accepting
      named
      tt
      rooted
    × Returns
        (drop_capabilities (wanted_capabilities caller flags command))
        accepting
        settled
        tt
        dropped
    × (final_log
        ≡ dropped ++ no_new_privs ∷ seccomp_tsync (length p.instructions) p.instructions ∷ [])
    × (accepting.act dropped no_new_privs ≡ none)
    × (accepting.act
          (dropped ++ no_new_privs ∷ [])
          (seccomp_tsync (length p.instructions) p.instructions)
        ≡ none)
    × ((m : Bpf) (d : SeccompData)
        → m.run p.instructions 0 d
          ≡ some
              (verdict accepting.native_arch (default_denied accepting.sys_nr) (action_errno 1) d))
unfolding setup settle_in name_host show_cgroup default_namespaces configure_inside bring_up
    assembled setup_root setup_root_pivot abs swap_root mount_api_filesystems mount_api
    setup_device_nodes setup_device setup_dev_symlinks setup_link apply_masks mask_path
    readonly_path clean walk enter mount_cgroup_namespace apply restrict apply_seccomp install
    extend_denied drop_capabilities drop_to shrink_bounding raise_ambient last_cap wanted_from
    lookup_capability add_key mask_word str_eq lookup_syscall equal_fold build_filter prologue
    resolve_capabilities add_keys delete_keys delete_key normalise_cap to_upper trim_space
    has_prefix
build_config-confines_example =
    build_config-confines caller flags command addresses here described accepting [] final_log refl
      described-built refl
