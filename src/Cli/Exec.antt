-- ===== src/Cli/Exec.antt =====
-- internal/cli/exec.go: joining the namespaces of a running container, behind the parsing of flags. The
-- thread that LockOSThread pins is the one that makes these calls.
pub mod Looked
pub mod Joined
use husk.Base.{
  ℕ, zero, suc, Bool, true, false, ◌&&◌, Option, none, some, List, [], ◌∷◌, ◌++◌, ◌==◌,
  if◌then◌else◌,
}
use husk.Base.Bytes.{Str, codes, str_eq, has_str}
use husk.Base.Int.{ℤ, pos, negsuc, format_int}
use husk.Base.Outcome.{Outcome, ok, err}
use husk.Base.Action.{
  Errno, enoent, Error, errno, message, wrapped, pure, fail, try, each, context, ◌>>=◌, ◌>>◌,
}
use husk.Kernel.{
  Kernel, Call, Sys, open_read, close, open_write, write_string, unshare_fs, setns, start_process,
  attempt, invoke, tolerate,
}
use husk.Runtime.{Status, running}
use husk.Initproc.{or_env}

-- The namespaces, in the order in which they are joined.
abbrev pub order : List Str
order =
    codes "user"
    ∷ codes "ipc"
    ∷ codes "uts"
    ∷ codes "net"
    ∷ codes "pid"
    ∷ codes "cgroup"
    ∷ codes "mnt"
    ∷ []

-- How execCommand ends without an error: it returns, or os.Exit ends the process.
pub data Ending : Type 0 where
  returned : Ending
  exits : ℤ → Ending

-- What execCommand asks its surroundings: unix.Stat, the process that Start made and its Wait, the order
-- of `range` over a map, and cgroups.New(id, parent).Path() joined with "cgroup.procs".
pub record World : Type 0 where
  pub inode : List Call → Str → Outcome Errno (ℕ × ℕ)
  pub child : List Call → ℤ
  pub wait : List Call → Outcome Errno ℤ
  pub range : List Str → List Str
  pub procs : Str

-- The arguments and flags.
pub record Request : Type 0 where
  pub args : List Str
  pub workdir : Str
  pub envs : List Str
  pub tty : Bool
  pub term : Str

abbrev pub namespace_path : ℤ → Str → Str
namespace_path pid ns = codes "/proc/" ++ (format_int pid ++ (codes "/ns/" ++ ns))

abbrev pub same_inode : ℕ × ℕ → ℕ × ℕ → Bool
same_inode (d, i) (e, j) = d == e && i == j

abbrev pub compared : Outcome Errno (ℕ × ℕ) → Outcome Errno (ℕ × ℕ) → Outcome Error Bool
compared (ok t) (ok s) = ok (same_inode t s)
compared (err e) s = err (wrapped "stat" (errno e))
compared (ok t) (err e) = err (wrapped "stat" (errno e))

-- _ = unix.Close(fd)
abbrev pub ignore_close : Str → Sys (Unit {0})
ignore_close path = tolerate (λ _. true) (close path)

-- The descriptors that the map `fds` holds, and whether the loop returned an error.
abbrev pub Opened : Type 0
Opened = List Str × Outcome Error (Unit {0})

-- The directory and the environment of the new process.
abbrev pub directory_of : Str → Str
directory_of [] = codes "/"
directory_of (c ∷ s) = c ∷ s

abbrev pub environment : Request → List Str
environment r = if r.tty then or_env r.envs ++ (codes "TERM=" ++ r.term) ∷ [] else or_env r.envs

-- The exit code, which is -1 for a process that a signal ended.
abbrev pub ending_of : Outcome Errno ℤ → Outcome Error Ending
ending_of (ok (pos zero)) = ok returned
ending_of (ok (pos (suc n))) = ok (exits (pos (suc n)))
ending_of (ok (negsuc n)) = ok (exits (negsuc n))
ending_of (err e) = err (errno e)

-- defer: what runs when a function returns, but not when os.Exit ends the process.
abbrev pub unless_exited : Sys (Unit {0}) → Outcome Error Ending → Sys Ending
unless_exited cleanup (ok (exits n)) = pure (exits n)
unless_exited cleanup (ok returned) = cleanup >> pure returned
unless_exited cleanup (err e) = cleanup >> fail e

abbrev pub deferred : Sys (Unit {0}) → Sys Ending → Sys Ending
deferred cleanup m = try m >>= unless_exited cleanup

module _ (w : World) (pid : ℤ) where
  -- sameNamespace
  unfoldable pub same_namespace : List Call → Str → Outcome Error Bool
  same_namespace log ns =
      compared (w.inode log (namespace_path pid ns)) (w.inode log (codes "/proc/self/ns/" ++ ns))

  -- The rest of a round behind the comparison; `later` is the rest of the loop.
  abbrev pub sorted_out :
      Outcome Error Bool → Bool → Str → List Str → (List Str → Sys Opened) → Sys Opened
  sorted_out (err e) user ns fds later = ignore_close (namespace_path pid ns) >> pure (fds, err e)
  sorted_out (ok true) user ns fds later = ignore_close (namespace_path pid ns) >> later fds
  sorted_out (ok false) true ns fds later =
      ignore_close (namespace_path pid ns)
      >> pure (fds, err (message "cannot exec into a container with its own user namespace"))
  sorted_out (ok false) false ns fds later = later (fds ++ ns ∷ [])

  abbrev pub is_enoent : Errno → Bool
  is_enoent enoent = true
  is_enoent _ = false

  -- One round of the loop, on the answer of Open.
  unfoldable pub opened : Option Errno → Str → List Str → (List Str → Sys Opened) → Sys Opened
  unfolding same_namespace
  opened (some e) ns fds later k log =
      if is_enoent e then later fds k log else (ok (fds, err (wrapped "open" (errno e))), log)
  opened none ns fds later k log =
      sorted_out (same_namespace log ns) (str_eq ns (codes "user")) ns fds later k log

  -- The loop that opens the namespace files.
  unfoldable pub open_each : List Str → List Str → Sys Opened
  unfolding opened
  open_each [] fds = pure (fds, ok tt)
  open_each (ns ∷ rest) fds = attempt (open_read (namespace_path pid ns)) >>= λ answer.
      opened answer ns fds (open_each rest)

  -- One round of the loop that joins, for the namespaces in `fds`.
  unfoldable pub join_one : List Str → Str → Sys (Unit {0})
  join_one fds ns =
      if has_str fds ns then context "setns" (invoke (setns (namespace_path pid ns))) else pure tt

  -- The message about a process that could not be placed goes to the standard error.
  unfoldable pub place : Sys (Unit {0})
  place k log = tolerate (λ _. true) (write_string w.procs (format_int (w.child log))) k log

  abbrev pub waited : Sys Ending
  waited k log = (ending_of (w.wait log), log)

  -- From Unshare on.
  unfoldable pub enter : Request → List Str → Sys Ending
  unfolding join_one place
  enter r fds = do
    context "unshare CLONE_FS" (invoke unshare_fs)
    each (join_one fds) order
    context "exec" (invoke (start_process r.args (environment r) (directory_of r.workdir)))
    place
    waited

  -- From the opening of cgroup.procs on.
  unfoldable pub enter_cgroup : Request → List Str → Sys Ending
  unfolding enter
  enter_cgroup r fds =
      context "open container cgroup" (invoke (open_write w.procs))
      >> deferred (ignore_close w.procs) (enter r fds)

  abbrev pub close_each : List Str → Sys (Unit {0})
  close_each = each (λ ns. ignore_close (namespace_path pid ns))

  abbrev pub go_on : Request → Opened → Sys Ending
  go_on r (fds, err e) = deferred (close_each (w.range fds)) (fail e)
  go_on r (fds, ok _) = deferred (close_each (w.range fds)) (enter_cgroup r fds)

  abbrev pub is_running : Status → Bool
  is_running running = true
  is_running _ = false

  -- execCommand behind Refresh, which gave the status.
  unfoldable pub exec_command : Status → Request → Sys Ending
  unfolding open_each enter_cgroup
  exec_command status r =
      if is_running status
      then open_each order [] >>= go_on r
      else fail (message "the container is not running")
