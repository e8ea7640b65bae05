-- ===== src/Initproc.antt =====
-- internal/initproc: the init process of a container, up to the workload and as its PID 1.
pub mod Order
pub mod Pid1
use husk.Base.{ℕ, Bool, true, false, not, ◌&&◌, List, [], ◌∷◌}
use husk.Base.Bytes.{Str, codes, str_eq}
use husk.Base.Outcome.{Outcome, ok, err}
use husk.Base.Action.{Error, message, pure, fail, lift, when, context, ◌>>=◌, ◌>>◌}
use husk.Container.{Config}
use husk.Kernel.{Sys, set_hostname, chdir, exec, open_write, write_string, invoke}
use husk.Mounts.Root.{setup_root}
use husk.Mounts.Api.{mount_cgroup_namespace}
use husk.Network.Inside.{Addresses, configure_inside}
use husk.Security.Apply.{apply}

module _ {F : Type 0} where
  -- configureNetwork
  unfoldable pub configure_network : Addresses → Config F → Sys (Unit {0})
  configure_network a cfg = when cfg.namespaces.net (configure_inside a cfg.network)

  -- The host name, in setup.
  unfoldable pub name_host : Config F → Sys (Unit {0})
  name_host cfg =
      when (cfg.namespaces.uts && not (str_eq cfg.hostname []))
        (context "sethostname" (invoke (set_hostname cfg.hostname)))

  -- The cgroup mount, in setup.
  unfoldable pub show_cgroup : Config F → Sys (Unit {0})
  show_cgroup cfg = when cfg.namespaces.cgroup (context "cgroup mount" mount_cgroup_namespace)

  -- The change of the file system, in setup.
  unfoldable pub enter_root : Outcome Error Str → Config F → Sys (Unit {0})
  unfolding show_cgroup
  enter_root wd cfg = context "root filesystem" (setup_root wd cfg) >> show_cgroup cfg

  -- The network and the working directory, in setup.
  unfoldable pub settle_in : Addresses → Config F → Sys (Unit {0})
  unfolding configure_network
  settle_in a cfg = do
    context "network" (configure_network a cfg)
    when (not (str_eq cfg.cwd [])) (context "chdir" (invoke (chdir cfg.cwd)))

  -- setup; `wd` is the answer of os.Getwd.
  unfoldable pub setup : Addresses → Outcome Error Str → Config F → Sys (Unit {0})
  unfolding name_host enter_root settle_in
  setup a wd cfg = do
    name_host cfg
    when (not cfg.no_pivot) (enter_root wd cfg)
    settle_in a cfg
    apply cfg.security

-- /proc/self/fd/5/exec.fifo
abbrev pub fifo_path : Str
fifo_path = codes "/proc/self/fd/5/exec.fifo"

-- awaitStartSignal
unfoldable pub await_start_signal : Sys (Unit {0})
await_start_signal = do
  context "open exec.fifo" (invoke (open_write fifo_path))
  context "signal start" (invoke (write_string fifo_path (0 ∷ [])))

abbrev pub or_env : List Str → List Str
or_env [] = codes "PATH=/usr/local/sbin:/usr/local/bin:/usr/sbin:/usr/bin:/sbin:/bin" ∷ []
or_env (v ∷ env) = v ∷ env

-- What launch does with a command that it found: it replaces itself, or supervises.
abbrev pub hand_over :
    Bool → (Str → List Str → List Str → Sys (Unit {0})) → Str → List Str → List Str → Sys (Unit {0})
hand_over true supervise bin args env = supervise bin args env
hand_over false supervise bin args env = invoke (exec bin args env)

module _ {F : Type 0} (look_path : Str → Outcome Error Str)
    (supervise : Str → List Str → List Str → Sys (Unit {0})) where
  -- launch on the arguments; `look_path` is exec.LookPath.
  unfoldable pub launch_args : Config F → List Str → Sys (Unit {0})
  launch_args cfg [] = fail (message "no command specified")
  launch_args cfg (a ∷ args) = do
    bin ← context "exec" (lift (look_path a))
    hand_over cfg.init_process supervise bin (a ∷ args) (or_env cfg.env)

  -- launch
  unfoldable pub launch : Config F → Sys (Unit {0})
  launch cfg = launch_args cfg cfg.args
