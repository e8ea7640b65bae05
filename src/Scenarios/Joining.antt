-- ===== src/Scenarios/Joining.antt =====
-- Joining a container that has its own PID and mount namespace.
use husk.Base.{◌≡◌, refl, ◌||◌, Bool, false, List, [], ◌∷◌, ◌++◌, if◌then◌else◌}
use husk.Base.Bytes.{Str, codes, str_eq}
use husk.Base.Int.{pos, format_int}
use husk.Base.Outcome.{ok}
use husk.Kernel.{Call, write_string}
use husk.Kernel.Chain.{Chain, Accepted}
use husk.Runtime.{running}
use husk.Cli.Exec.{
  order, returned, World, Request, exec_command, open_each, opened, same_namespace, enter_cgroup,
  enter, join_one, place, namespace_path,
}
use husk.Cli.Exec.Looked.{Looked}
use husk.Cli.Exec.Joined.{entering, closing, closes, exec_command-joins}
use husk.Scenarios.Restrictions.{accepting}

-- The container's namespaces have other inodes than husk's.
abbrev own : Str → Bool
own path =
    str_eq path (namespace_path (pos 7) (codes "pid"))
    || str_eq path (namespace_path (pos 7) (codes "mnt"))

abbrev world : World
world = record {
  inode = λ log path. if own path then ok (4, 2) else ok (4, 1);
  child = λ log. pos 99;
  wait = λ log. ok (pos 0);
  range = λ keys. keys;
  procs = codes "/sys/fs/cgroup/husk/web/cgroup.procs";
}

abbrev request : Request
request = record { args = codes "sh" ∷ []; workdir = []; envs = []; tty = false; term = [] }

abbrev joined_log : List Call
joined_log = (exec_command world (pos 7) running request accepting []).1

exec_command-joins_example :
    (running ≡ running)
    × (held : List Str) × (looked started : List Call) × Looked world
        (pos 7)
        accepting
        order
        held
        []
        looked
    × Chain (Accepted accepting) (entering world (pos 7) accepting request held) looked started
    × (joined_log
        ≡ (started ++ write_string world.procs (format_int (world.child started)) ∷ [])
          ++ closing world (pos 7) accepting returned (closes world (pos 7) accepting held))
unfolding exec_command open_each opened same_namespace enter_cgroup enter join_one place str_eq
    format_int
exec_command-joins_example =
    exec_command-joins world (pos 7) accepting running request [] {end = returned}
      {after = joined_log} refl
