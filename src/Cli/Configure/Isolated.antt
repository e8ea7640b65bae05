-- ===== src/Cli/Configure/Isolated.antt =====
-- What holds of every container that buildConfig describes, up to the clone of its init process and
-- the last calls of its setup.
use husk.Base.{
  Bool, true, false, not, ◌≡◌, refl, ◌∙◌, ◌⊎◌, Option, none, some, List, [], ◌∷◌, arith,
  if◌then◌else◌,
}
use husk.Base.Bytes.{Str, codes, str_eq, str_eq_sound, str_eq-differs}
use husk.Base.Int.{ℤ}
use husk.Base.Outcome.{ok, bind-ok}
use husk.Container.{Config, PortMapping, root_mode_pivot, root_mode_chroot, default_namespaces}
use husk.Namespaces.{
  CloneFlag, new_mount, new_pid, new_uts, new_ipc, new_net, new_user, new_cgroup, only_root,
  sys_proc_id_maps, rootless_maps, copied,
}
use husk.Namespaces.Cloned.{has_flag, wants, clone_flags-wants}
use husk.Runtime.Spawn.Clone.{death_signal, build_cmd}
use husk.Security.Capabilities.{default_capabilities}
use husk.Cli.Flags.{resolve_capabilities, parse_memory, parse_swap, parse_ports}
use husk.Cli.Configure.{
  CommonFlags, Caller, namespaces_with, no_maps, known_mode, own_network, assembled, build_config,
}

known_mode-cases :
    (mode : Str) → known_mode mode ≡ ok tt → (mode ≡ root_mode_pivot) ⊎ (mode ≡ root_mode_chroot)
unfolding known_mode
known_mode-cases mode h =
    ground (arith, str_eq_sound mode root_mode_pivot, str_eq_sound mode root_mode_chroot)

bridge_not_host : str_eq (codes "bridge") (codes "host") ≡ false
unfolding str_eq
bridge_not_host = refl

none_not_host : str_eq (codes "none") (codes "host") ≡ false
unfolding str_eq
none_not_host = refl

own_network-host :
    (mode : Str) (net : Bool) → own_network mode ≡ ok net → net ≡ not (str_eq mode (codes "host"))
unfolding own_network
own_network-host mode net h = ground (
  arith,
  str_eq-differs mode (codes "bridge") (codes "host") bridge_not_host,
  str_eq-differs mode (codes "none") (codes "host") none_not_host,
)

mapped_uid :
    (b : Bool) (u g : ℤ)
    → (if b then (sys_proc_id_maps (if b then rootless_maps u g else no_maps)).0 else [])
      ≡ (if b then only_root u ∷ [] else [])
unfolding sys_proc_id_maps copied rootless_maps
mapped_uid true u g = refl
mapped_uid false u g = refl

mapped_gid :
    (b : Bool) (u g : ℤ)
    → (if b then (sys_proc_id_maps (if b then rootless_maps u g else no_maps)).1 else [])
      ≡ (if b then only_root g ∷ [] else [])
unfolding sys_proc_id_maps copied rootless_maps
mapped_gid true u g = refl
mapped_gid false u g = refl

signal_of : (detached : Bool) → death_signal detached ≡ (if detached then none else some 9)
signal_of true = refl
signal_of false = refl

module _ {F : Type 0} (caller : Caller) (c : CommonFlags F) (args : List Str) where
  -- The steps of buildConfig, read off a success.
  pub build_config-parsed :
      (cfg : Config F)
      → build_config caller c args ≡ ok cfg
      → (max high : ℤ) × (swap : Option ℤ) × (ports : List PortMapping) × (net : Bool)
        × (parse_memory c.memory ≡ ok max)
        × (parse_memory c.mem_high ≡ ok high)
        × (parse_swap c.mem_swap ≡ ok swap)
        × (parse_ports c.ports ≡ ok ports)
        × (known_mode c.root_mode ≡ ok tt)
        × (own_network c.network ≡ ok net)
        × (cfg ≡ assembled caller c args max high swap ports net)
  unfolding build_config
  build_config-parsed cfg h =
      let (max, e1, h1) = bind-ok (parse_memory c.memory) _ cfg h in
      let (high, e2, h2) = bind-ok (parse_memory c.mem_high) _ cfg h1 in
      let (swap, e3, h3) = bind-ok (parse_swap c.mem_swap) _ cfg h2 in
      let (ports, e4, h4) = bind-ok (parse_ports c.ports) _ cfg h3 in
      let (_, e5, h5) = bind-ok (known_mode c.root_mode) _ cfg h4 in
      let (net, e6, h6) = bind-ok (own_network c.network) _ cfg h5 in
      (max, high, swap, ports, net, e1, e2, e3, e4, e5, e6, cc)

  -- The flags of clone(2) for a command with these flags.
  abbrev pub isolated : CloneFlag → Bool
  isolated new_net = not (str_eq c.network (codes "host"))
  isolated new_user = c.rootless
  isolated _ = true

  wants-isolated :
      (net : Bool) (f : CloneFlag)
      → net ≡ not (str_eq c.network (codes "host"))
      → wants (namespaces_with default_namespaces net c.rootless) f ≡ isolated f
  unfolding default_namespaces
  wants-isolated net new_mount e = refl
  wants-isolated net new_pid e = refl
  wants-isolated net new_uts e = refl
  wants-isolated net new_ipc e = refl
  wants-isolated net new_net e = e
  wants-isolated net new_user e = refl
  wants-isolated net new_cgroup e = refl

  -- Whatever the flags are, if buildConfig accepts them, the init process is cloned into new mount,
  -- PID, UTS, IPC and cgroup namespaces, into a new network namespace exactly without -network host,
  -- and into a user namespace exactly with -rootless, which then maps its root, and nobody else, to the
  -- caller; it dies with a runtime that waits for it; and its description asks for the change of the
  -- root, for no_new_privs, for exactly the capabilities of resolveCapabilities, and for seccomp exactly
  -- without -no-seccomp.
  pub build_config-isolates :
      (environ : List Str) (sealed detached : Bool) (cfg : Config F)
      → build_config caller c args ≡ ok cfg
      → ((f : CloneFlag) → has_flag (build_cmd environ sealed detached cfg).cloned f ≡ isolated f)
        × ((build_cmd environ sealed detached cfg).uid_mappings
            ≡ (if c.rootless then only_root caller.uid ∷ [] else []))
        × ((build_cmd environ sealed detached cfg).gid_mappings
            ≡ (if c.rootless then only_root caller.gid ∷ [] else []))
        × ((build_cmd environ sealed detached cfg).pdeathsig ≡ (if detached then none else some 9))
        × (cfg.no_pivot ≡ false)
        × ((cfg.root_mode ≡ root_mode_pivot) ⊎ (cfg.root_mode ≡ root_mode_chroot))
        × (cfg.security.no_new_privs ≡ true)
        × (cfg.security.capabilities
            ≡ some (resolve_capabilities caller.range default_capabilities c.caps_add c.caps_drop))
        × (cfg.security.seccomp.enabled ≡ not c.no_seccomp)
  unfolding build_cmd assembled
  build_config-isolates environ sealed detached cfg h =
      let (max, high, swap, ports, net, _, _, _, _, mode, linked, e) = build_config-parsed cfg h in
      rw e (
        λ f.
            clone_flags-wants (namespaces_with default_namespaces net c.rootless) f
            ∙ wants-isolated net f (own_network-host c.network net linked),
        mapped_uid c.rootless caller.uid caller.gid,
        mapped_gid c.rootless caller.uid caller.gid,
        signal_of detached,
        refl,
        known_mode-cases c.root_mode mode,
        refl,
        refl,
        refl,
      )
