-- ===== src/Scenarios/Jailing.antt =====
-- Runs of the init process on a kernel that accepts every call, and of its handshake.
use husk.Base.{
  not, ◌&&◌, ℕ, zero, suc, Option, ◌<◌, ◌≡◌, ◌≢◌, ◌⊎◌, refl, true, false, ◌&&◌, none, some, List,
  [], ◌∷◌, ◌++◌, length, arith,
}
use husk.Base.Bytes.{Str, codes, str_eq, equal_fold}
use husk.Base.Outcome.{Outcome, ok}
use husk.Base.Action.{Error}
use husk.Base.Paths.{abs}
use husk.Container.{Config, Security, default_namespaces}
use husk.Kernel.{remove, set_hostname, chdir, Call, no_new_privs, seccomp_tsync}
use husk.Kernel.Runs.{Returns}
use husk.Kernel.Chain.{Chain, Accepted}
use husk.Mounts.Api.{
  mount_cgroup_namespace, mount_api, setup_device_nodes, setup_device, setup_dev_symlinks,
  setup_link, api_mounts, default_devices, dev_symlinks, mount_api_filesystems,
}
use husk.Mounts.Api.Mounted.{Mounted, Provided, Linked, mount_api_filesystems_complete}
use husk.Mounts.Masks.{mask_path, readonly_path, apply_masks}
use husk.Mounts.Root.{setup_root, swap_root, setup_root_pivot}
use husk.Mounts.Root.Detached.{Finished}
use husk.Network.Inside.{Addresses, configure_inside, bring_up}
use husk.Security.Filter.{Program, build_filter, prologue}
use husk.Security.Policy.{lookup_syscall}
use husk.Security.Capabilities.{
  drop_capabilities, wanted_from, drop_to, shrink_bounding, raise_ambient, mask_word,
  lookup_capability, add_key, last_cap,
}
use husk.Security.Apply.{apply, apply_seccomp, restrict, install, extend_denied}
use husk.Security.Apply.Order.{kept}
use husk.Initproc.{setup, name_host, show_cgroup, settle_in}
use husk.Initproc.Order.{IfDone, pivoting, Shown, Connected, setup-confines}
use husk.Initproc.Pid1.{
  Fate, exited, signaled, Wait, interrupted, ended, drained, reap, child_changed, signal, supervise,
}
use husk.Initproc.Pid1.Drained.{Told, Ends, Drains, reap-Drains, supervise-exits}
use husk.Ipc.{await_json}
use husk.Ipc.Handshake.{
  Move, parent_runs, child_runs, child_killed, begin, run, step, started, running,
}
use husk.Ipc.Handshake.Queue.{implies}
use husk.Ipc.Handshake.Guarded.{is_released, is_confined, is_started, run-guarded}
use husk.Ipc.Handshake.Measure.{Lowers}
use husk.Ipc.Handshake.Progress.{is_ended, Moves, run-progresses}
use husk.Scenarios.Restrictions.{accepting, security}
use husk.Scenarios.Launching.{config}

-- A container that hides one path and seals another.
abbrev jail : Security
jail = record (security true) {
  masked_paths = some (codes "/proc/kcore" ∷ []);
  readonly_paths = some (codes "/proc/sys" ∷ []);
}

abbrev jailed_config : Config ℕ
jailed_config = record config {
  hostname = codes "c1";
  rootfs = codes "/var/rootfs";
  readonly_rootfs = true;
  security = jail;
}

abbrev here : Outcome Error Str
here = ok (codes "/")

abbrev masked_log : List Call
masked_log = (apply_masks jail accepting []).1

abbrev api_log : List Call
api_log = (mount_api_filesystems accepting []).1

mount_api_filesystems_complete_example :
    (mounted provided : List Call) × Chain (Mounted accepting) api_mounts [] mounted
    × Chain (Provided accepting) default_devices mounted provided
    × Chain (Linked accepting) dev_symlinks provided api_log
unfolding mount_api_filesystems mount_api setup_device_nodes setup_device setup_dev_symlinks
    setup_link
mount_api_filesystems_complete_example = mount_api_filesystems_complete accepting [] api_log refl

abbrev pivot_log : List Call
pivot_log = (setup_root_pivot here jailed_config accepting []).1

abbrev addresses : Addresses
addresses = record { parse_addr = λ text. ok text; is_ip = λ text. true }

abbrev setup_log : List Call
setup_log = (setup addresses here jailed_config accepting []).1

setup-confines_example :
    (named detached mounted masked entered rooted linked settled dropped : List Call) × (root : Str)
    × (p : Program) × (abs here jailed_config.rootfs ≡ ok root)
    × IfDone accepting
        (jailed_config.namespaces.uts && not (str_eq jailed_config.hostname []))
        (set_hostname jailed_config.hostname)
        []
        named
    × Chain (Accepted accepting) (pivoting root) named detached
    × Returns mount_api_filesystems accepting
        (detached ++ remove (codes "/.put_old") ∷ [])
        tt
        mounted
    × Returns (apply_masks jailed_config.security) accepting mounted tt masked
    × Finished accepting jailed_config.readonly_rootfs masked entered
    × Shown accepting jailed_config.namespaces.cgroup entered rooted
    × Connected accepting jailed_config.namespaces.net addresses jailed_config.network rooted linked
    × IfDone accepting (not (str_eq jailed_config.cwd [])) (chdir jailed_config.cwd) linked settled
    × Returns (drop_capabilities (kept jailed_config.security)) accepting settled tt dropped
    × (setup_log
        ≡ dropped ++ no_new_privs ∷ seccomp_tsync (length p.instructions) p.instructions ∷ [])
    × (accepting.act dropped no_new_privs ≡ none)
    × (accepting.act
          (dropped ++ no_new_privs ∷ [])
          (seccomp_tsync (length p.instructions) p.instructions)
        ≡ none)
unfolding setup settle_in name_host show_cgroup default_namespaces configure_inside bring_up
    setup_root setup_root_pivot abs swap_root mount_api_filesystems mount_api setup_device_nodes
    setup_device setup_dev_symlinks setup_link apply_masks mask_path readonly_path
    mount_cgroup_namespace apply restrict apply_seccomp install extend_denied drop_capabilities
    drop_to shrink_bounding raise_ambient last_cap wanted_from lookup_capability add_key mask_word
    str_eq lookup_syscall equal_fold build_filter prologue
setup-confines_example =
    setup-confines here jailed_config accepting addresses [] setup_log refl refl refl refl

-- wait4 is interrupted, then tells of a grandchild and of the child, and then of nobody.
abbrev answers : ℕ → Wait
answers zero = interrupted
answers (suc zero) = ended 9 (exited 1)
answers (suc (suc zero)) = ended 7 (signaled 15)
answers (suc (suc (suc _))) = drained

answers-Drains : Drains answers 3
answers-Drains = (refl, quiet)
  where
    quiet : (j : ℕ) → j < 3 → answers j ≢ drained
    quiet zero lt e = cc
    quiet (suc zero) lt e = cc
    quiet (suc (suc zero)) lt e = cc
    quiet (suc (suc (suc j))) lt e = absurd (omega (arith, lt))

reap-Drains_example :
    (out : Option Fate) × (reap 10 answers 0 7 none ≡ some (out, 4)) × Told answers 0 3 7 none out
reap-Drains_example = reap-Drains answers 3 7 10 answers-Drains (omega arith)

answers-Ends : Ends 10 7 answers (signaled 15)
answers-Ends = (3, answers-Drains, omega arith, (2, omega arith, refl), only)
  where
    only : (j : ℕ) (f : Fate) → j < 3 → answers j ≡ ended 7 f → f ≡ signaled 15
    only zero f lt e = cc
    only (suc zero) f lt e = ground arith
    only (suc (suc zero)) f lt e = cc
    only (suc (suc (suc j))) f lt e = absurd (omega (arith, lt))

supervise-exits_example :
    supervise 10 7 (signal 1 ∷ signal 12 ∷ child_changed answers ∷ signal 2 ∷ [])
    ≡ some (record { relayed = 1 ∷ 12 ∷ []; exit = some 143 })
supervise-exits_example =
    supervise-exits 10 7 (signal 1 ∷ signal 12 ∷ []) (signal 2 ∷ []) answers (signaled 15)
      (tt, (tt, tt)) answers-Ends

-- The two processes take turns until the workload runs.
abbrev turns : List Move
turns =
    parent_runs true
    ∷ child_runs true
    ∷ child_runs true
    ∷ parent_runs true
    ∷ parent_runs true
    ∷ parent_runs true
    ∷ child_runs true
    ∷ child_runs true
    ∷ child_runs true
    ∷ parent_runs true
    ∷ child_runs true
    ∷ []

turns_start : (run false turns begin).parent ≡ started
unfolding run await_json str_eq
turns_start = refl

turns_run : (run false turns begin).child ≡ running
unfolding run await_json str_eq
turns_run = refl

run-guarded_example :
    let s = run false turns begin in
    (implies (is_released s.child) s.furnished ≡ true)
    × (implies (is_confined s.child) (s.furnished && s.jailed) ≡ true)
    × (implies (is_started s.parent) (s.furnished && s.jailed) ≡ true)
run-guarded_example = run-guarded false turns

run-progresses_example :
    let s = run false turns begin in
    Lowers s (step false child_killed s) × ((is_ended s.parent ≡ true) ⊎ Moves false s)
run-progresses_example = run-progresses false turns child_killed
