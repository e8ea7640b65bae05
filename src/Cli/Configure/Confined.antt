-- ===== src/Cli/Configure/Confined.antt =====
-- From the flags to the last system calls of the init process: buildConfig, setup and Apply.
use husk.Base.{false, not, ◌≡◌, refl, ap, ◌∙◌, none, some, List, [], ◌∷◌, ◌++◌, length}
use husk.Base.Bytes.{Str, codes, equal_fold}
use husk.Base.Outcome.{Outcome, ok}
use husk.Base.Action.{Error, context, when, ◌>>◌}
use husk.Container.{Config}
use husk.Kernel.{Kernel, Call, no_new_privs, seccomp_tsync}
use husk.Kernel.Runs.{Returns, when-true, >>-Returns, context-Returns}
use husk.Mounts.Root.{setup_root}
use husk.Network.Inside.{Addresses}
use husk.Security.Filter.{Program, action_errno}
use husk.Security.Filter.Machine.{Bpf, SeccompData}
use husk.Security.Filter.Decision.{verdict}
use husk.Security.Policy.{default_denied}
use husk.Security.Capabilities.{default_capabilities, drop_capabilities}
use husk.Security.Apply.{apply, action_of}
use husk.Security.Apply.Order.{kept, apply-enabled}
use husk.Initproc.{setup, name_host, show_cgroup, enter_root, settle_in}
use husk.Cli.Flags.{resolve_capabilities}
use husk.Cli.Configure.{CommonFlags, Caller, assembled, build_config}
use husk.Cli.Configure.Isolated.{build_config-parsed}

action_of-errno : action_of (codes "errno") ≡ action_errno 1
unfolding action_of equal_fold
action_of-errno = refl

module _ {F : Type 0} (caller : Caller) (c : CommonFlags F) (args : List Str) where
  -- The capabilities that the flags ask for.
  abbrev pub wanted_capabilities : List Str
  wanted_capabilities =
      resolve_capabilities caller.range default_capabilities c.caps_add c.caps_drop

  config_security :
      (cfg : Config F)
      → build_config caller c args ≡ ok cfg
      → (cfg.no_pivot ≡ false)
        × (cfg.security.seccomp.enabled ≡ not c.no_seccomp)
        × (kept cfg.security ≡ wanted_capabilities)
        × (action_of cfg.security.seccomp.action ≡ action_errno 1)
  unfolding assembled
  config_security cfg h =
      let (_, _, _, _, _, _, _, _, _, _, _, e) = build_config-parsed caller c args cfg h in
      rw e (refl, refl, refl, action_of-errno)

  -- If buildConfig accepts flags without -no-seccomp, and the init process then sets itself up with
  -- success, it has changed its root, and last, in this order, DropCapabilities has returned without an
  -- error for the capabilities that the flags ask for, and two calls were accepted, the one that latches
  -- no_new_privs and the one that installs a filter, which on
  -- every machine with the laws of classic BPF decides as the default policy with EPERM does.
  pub build_config-confines :
      (a : Addresses) (wd : Outcome Error Str) (cfg : Config F) (k : Kernel) (log after : List Call)
      → c.no_seccomp ≡ false
      → build_config caller c args ≡ ok cfg
      → Returns (setup a wd cfg) k log tt after
      → (named rooted settled dropped : List Call) × (p : Program) × Returns
          (setup_root wd cfg)
          k
          named
          tt
          rooted
        × Returns (drop_capabilities wanted_capabilities) k settled tt dropped
        × (after
            ≡ dropped ++ no_new_privs ∷ seccomp_tsync (length p.instructions) p.instructions ∷ [])
        × (k.act dropped no_new_privs ≡ none)
        × (k.act
              (dropped ++ no_new_privs ∷ [])
              (seccomp_tsync (length p.instructions) p.instructions)
            ≡ none)
        × ((m : Bpf) (d : SeccompData)
            → m.run p.instructions 0 d
              ≡ some (verdict k.native_arch (default_denied k.sys_nr) (action_errno 1) d))
  unfolding setup enter_root
  build_config-confines a wd cfg k log after off built h =
      let (pivots, enabled, names, action) = config_security cfg built in
      let rest = settle_in a cfg >> apply cfg.security in
      let (named, _, h₁) =
        >>-Returns k (name_host cfg) (when (not cfg.no_pivot) (enter_root wd cfg) >> rest) log h in
      let (entered, w, h₂) =
        >>-Returns k (when (not cfg.no_pivot) (enter_root wd cfg)) rest named h₁ in
      let (rooted, q, _) =
        >>-Returns k (context "root filesystem" (setup_root wd cfg)) (show_cgroup cfg) named
          (when-true (not cfg.no_pivot) (enter_root wd cfg) k named (ap not pivots) w) in
      let (settled, _, h₃) = >>-Returns k (settle_in a cfg) (apply cfg.security) entered h₂ in
      let (dropped, p, d, e, latch, filter, decides) =
        apply-enabled cfg.security k settled (enabled ∙ ap not off) h₃ in
      (
        named,
        rooted,
        settled,
        dropped,
        p,
        context-Returns "root filesystem" (setup_root wd cfg) k named q,
        rw names at d,
        e,
        latch,
        filter,
        rw action at decides,
      )
