-- ===== src/Initproc/Order.antt =====
-- The init process confines itself in the order that it must: the old root goes first, and the
-- privileges and the system calls go last.
use husk.Base.{
  ◌≡◌, refl, ap, Bool, String, ◌&&◌, true, false, not, ◌||◌, Bool-cases, inl, inr, none, List, [],
  ◌∷◌, ◌++◌, length,
}
use husk.Base.Bytes.{Str, codes, str_eq}
use husk.Base.Paths.{abs, join}
use husk.Base.Outcome.{Outcome, ok}
use husk.Base.Action.{Error, context, when, ◌>>◌}
use husk.Container.{Config, Network, root_mode_chroot, root_mode_pivot}
use husk.Kernel.{
  Kernel, Call, invoke, mkdir_all, mount, ms_rec, ms_private, ms_bind, pivot_root, unmount_detach,
  remove, ms_nosuid, ms_nodev, ms_noexec, ms_rdonly, set_hostname, chdir, no_new_privs,
  seccomp_tsync,
}
use husk.Kernel.Runs.{Returns, when-true, >>-Returns, context-Returns, invoke-Returns, invoked}
use husk.Kernel.Chain.{Chain, Accepted, done, next}
use husk.Mounts.Root.{setup_root, setup_root_pivot}
use husk.Mounts.Root.Detached.{Finished, setup_root_pivot-detaches}
use husk.Mounts.Masks.{apply_masks}
use husk.Mounts.Api.{mount_api_filesystems, mount_cgroup_namespace, cgroup_target, cgroup_call}
use husk.Network.Inside.{Addresses, configure_inside}
use husk.Security.Filter.{Program}
use husk.Security.Capabilities.{drop_capabilities}
use husk.Security.Apply.{apply}
use husk.Security.Apply.Order.{kept, apply-enabled}
use husk.Initproc.{setup, name_host, show_cgroup, enter_root, configure_network, settle_in}

-- The call was accepted and nothing else was done, if `b`; without it nothing was.
abbrev pub IfDone : Kernel → Bool → Call → List Call → List Call → Type 0
IfDone k true c log after = Accepted k c log after
IfDone k false c log after = after ≡ log

when-IfDone :
    (k : Kernel) (b : Bool) (label : String) (c : Call) (log after : List Call)
    → Returns (when b (context label (invoke c))) k log tt after
    → IfDone k b c log after
when-IfDone k true label c log after h =
    invoke-Returns c k log (context-Returns label (invoke c) k log h)
when-IfDone k false label c log after h = cc

-- All mounts are made private, and `root` takes the place of the old root, which is detached.
abbrev pub pivoting : Str → List Call
pivoting root =
    mount [] (codes "/") [] (ms_rec ∷ ms_private ∷ []) []
    ∷ mount root root [] (ms_bind ∷ ms_rec ∷ []) []
    ∷ mkdir_all (join root (codes ".put_old"))
    ∷ pivot_root root (join root (codes ".put_old"))
    ∷ chdir (codes "/")
    ∷ unmount_detach (codes "/.put_old")
    ∷ []

-- The cgroup file system was mounted, for a container with a cgroup namespace.
abbrev pub Shown : Kernel → Bool → List Call → List Call → Type 0
Shown k true log after =
    Chain (Accepted k)
      (mkdir_all (codes "/sys/fs/cgroup")
        ∷ mount (codes "cgroup2") (codes "/sys/fs/cgroup") (codes "cgroup2")
            (ms_nosuid ∷ ms_nodev ∷ ms_noexec ∷ ms_rdonly ∷ []) []
        ∷ [])
      log after
Shown k false log after = after ≡ log

show-Shown :
    (k : Kernel) (b : Bool) (log after : List Call)
    → Returns (when b (context "cgroup mount" mount_cgroup_namespace)) k log tt after
    → Shown k b log after
unfolding mount_cgroup_namespace
show-Shown k true log after h =
    let (a, h₁) =
      invoked k "mkdir" (mkdir_all cgroup_target) (context "mount cgroup2" (invoke cgroup_call)) log
        (context-Returns "cgroup mount" mount_cgroup_namespace k log h) in
    next (refl, a)
      (next
        (invoke-Returns cgroup_call k (log ++ mkdir_all cgroup_target ∷ []) (
          context-Returns "mount cgroup2" (invoke cgroup_call) k
            (log ++ mkdir_all cgroup_target ∷ []) h₁))
        done)
show-Shown k false log after h = cc

-- The network was configured inside, for a container with a network namespace.
abbrev pub Connected : Kernel → Bool → Addresses → Network → List Call → List Call → Type 0
Connected k true a net log after = Returns (configure_inside a net) k log tt after
Connected k false a net log after = after ≡ log

when-Connected :
    (k : Kernel) (b : Bool) (a : Addresses) (net : Network) (log after : List Call)
    → Returns (context "network" (when b (configure_inside a net))) k log tt after
    → Connected k b a net log after
when-Connected k true a net log after h = context-Returns "network" (configure_inside a net) k log h
when-Connected k false a net log after h = cc

module _ {F : Type 0} (wd : Outcome Error Str) (cfg : Config F) (k : Kernel) where
  settle_in-Connected :
      (a : Addresses) (log : List Call) {after : List Call}
      → Returns (settle_in a cfg) k log tt after
      → (linked : List Call) × Connected k cfg.namespaces.net a cfg.network log linked
        × IfDone k (not (str_eq cfg.cwd [])) (chdir cfg.cwd) linked after
  unfolding settle_in configure_network
  settle_in-Connected a log {after} h =
      let enter = when (not (str_eq cfg.cwd [])) (context "chdir" (invoke (chdir cfg.cwd))) in
      let (linked, p, q) = >>-Returns k (context "network" (configure_network a cfg)) enter log h in
      (
        linked,
        when-Connected k cfg.namespaces.net a cfg.network log linked p,
        when-IfDone k (not (str_eq cfg.cwd [])) "chdir" (chdir cfg.cwd) linked after q,
      )

  -- A root mode other than "chroot" with which SetupRoot succeeds is that of SetupRootPivot.
  setup_root-pivots :
      (log : List Call) {after : List Call}
      → str_eq cfg.root_mode root_mode_chroot ≡ false
      → Returns (setup_root wd cfg) k log tt after
      → Returns (setup_root_pivot wd cfg) k log tt after
  unfolding setup_root
  setup_root-pivots log not_chroot h =
      elim (Bool-cases (str_eq cfg.root_mode root_mode_pivot || str_eq cfg.root_mode [])) [
        | inl pivot ↦ rw (not_chroot, pivot) at h
        | inr unknown ↦ absurd (cc (rw (not_chroot, unknown) at h))
      ]

  -- If setup succeeds for a container whose root is changed, in another mode than "chroot", and for
  -- which seccomp is enabled, then these things happened in this order and with success: the host is
  -- named, if it has a UTS namespace and a name; all mounts are made private, the root is pivoted to the
  -- absolute path of the rootfs and the old root detached; mountAPIFilesystems and applyMasks return; a
  -- root that is to be read-only is remounted, the cgroup file system mounted, if there is a cgroup
  -- namespace, the network configured, if there is a network namespace, and the working directory
  -- entered, if there is one; and last come DropCapabilities, the no_new_privs latch and the installation
  -- of a seccomp filter.
  pub setup-confines :
      (a : Addresses) (log after : List Call)
      → cfg.no_pivot ≡ false
      → str_eq cfg.root_mode root_mode_chroot ≡ false
      → cfg.security.seccomp.enabled ≡ true
      → Returns (setup a wd cfg) k log tt after
      → (named detached mounted masked entered rooted linked settled dropped : List Call)
        × (root : Str) × (p : Program) × (abs wd cfg.rootfs ≡ ok root)
        × IfDone k
            (cfg.namespaces.uts && not (str_eq cfg.hostname []))
            (set_hostname cfg.hostname)
            log
            named
        × Chain (Accepted k) (pivoting root) named detached
        × Returns mount_api_filesystems k (detached ++ remove (codes "/.put_old") ∷ []) tt mounted
        × Returns (apply_masks cfg.security) k mounted tt masked
        × Finished k cfg.readonly_rootfs masked entered
        × Shown k cfg.namespaces.cgroup entered rooted
        × Connected k cfg.namespaces.net a cfg.network rooted linked
        × IfDone k (not (str_eq cfg.cwd [])) (chdir cfg.cwd) linked settled
        × Returns (drop_capabilities (kept cfg.security)) k settled tt dropped
        × (after
            ≡ dropped ++ no_new_privs ∷ seccomp_tsync (length p.instructions) p.instructions ∷ [])
        × (k.act dropped no_new_privs ≡ none)
        × (k.act
              (dropped ++ no_new_privs ∷ [])
              (seccomp_tsync (length p.instructions) p.instructions)
            ≡ none)
  unfolding setup name_host show_cgroup
  setup-confines a log after pivots not_chroot on h =
      let rest = settle_in a cfg >> apply cfg.security in
      let (named, n, h₁) =
        >>-Returns k (name_host cfg) (when (not cfg.no_pivot) (enter_root wd cfg) >> rest) log h in
      let (rooted, w, h₂) =
        >>-Returns k (when (not cfg.no_pivot) (enter_root wd cfg)) rest named h₁ in
      let (entered, q, c) =
        >>-Returns k (context "root filesystem" (setup_root wd cfg)) (show_cgroup cfg) named
          (when-true (not cfg.no_pivot) (enter_root wd cfg) k named (ap not pivots) w) in
      let (root, detached, mounted, masked, resolved, swapped, api, masks, finished) =
        setup_root_pivot-detaches wd cfg k named entered (
          setup_root-pivots named not_chroot
            (context-Returns "root filesystem" (setup_root wd cfg) k named q)) in
      let (settled, s, h₃) = >>-Returns k (settle_in a cfg) (apply cfg.security) rooted h₂ in
      let (linked, link, moved) = settle_in-Connected a rooted s in
      let (dropped, p, d, e, latch, filter, _) = apply-enabled cfg.security k settled on h₃ in
      (
        named,
        detached,
        mounted,
        masked,
        entered,
        rooted,
        linked,
        settled,
        dropped,
        root,
        p,
        resolved,
        when-IfDone k (cfg.namespaces.uts && not (str_eq cfg.hostname [])) "sethostname"
            (set_hostname cfg.hostname) log named n,
        swapped,
        api,
        masks,
        finished,
        show-Shown k cfg.namespaces.cgroup entered rooted c,
        link,
        moved,
        d,
        e,
        latch,
        filter,
      )
