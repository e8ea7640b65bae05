-- ===== src/Runtime.antt =====
-- The runtime process: internal/spawn/spawn.go and launchConfig of internal/cli/run.go. Each
-- operation of another part of husk, or of the Go library, that they call is one `Step`, which is
-- recorded, newest first, and answered by an arbitrary `Host`.
pub mod Held
pub mod Spawn
pub mod Launch
use husk.Base.{ℕ, Bool, true, false, Option, none, some, List, [], ◌∷◌}
use husk.Base.Bytes.{Str}
use husk.Base.Int.{ℤ}
use husk.Base.Outcome.{Outcome, ok, err}
use husk.Base.Action.{Errno, Error, errno, Action, unless_errno, ◌>>=◌, ◌>>◌, pure, lift}
use husk.Container.{Network}

-- type Status of internal/state/state.go
pub data Status : Type 0 where
  creating created running stopped : Status

pub data Step : Type 0 where
  create_state remove_state make_fifo : Step
  save_state : Status → Step
  storage_init remove_storage : Step
  mount_overlay : List Str → Step
  create_cgroup apply_limits add_process kill_all destroy_cgroup : Step
  attach_network detach_network : Step
  open_log open_null close_io : Step
  open_pipes open_state_dir clone_init : Step
  send_config await_booted fail_child send_ready await_jailed : Step
  kill_init reap_init release_handle close_pipe : Step
  open_fifo : Step
  signal : ℤ → ℕ → Step

-- What a non-blocking read of one byte gives.
pub data FifoRead : Type 0 where
  byte empty eof : FifoRead
  failed : Errno → FifoRead

pub record Host : Type 0 where
  -- the error of a step after the steps before it; `none` is success
  pub act : List Step → Step → Option Errno
  pub is_dir : List Step → Str → Outcome Errno Bool
  pub image_layers : List Step → Str → Outcome Errno (List Str)
  -- what network.Manager.Attach returns
  pub attached : List Step → Network
  -- the exit code, or the error of Wait
  pub wait : List Step → Outcome Errno ℕ
  -- the answer to the n-th kill(pid, 0)
  pub probe : List Step → ℕ → ℤ → Option Errno
  -- what the n-th read of the FIFO, and the n-th reading of cgroup.procs, give
  pub fifo : List Step → ℕ → FifoRead
  pub processes : List Step → ℕ → Outcome Errno (List ℤ)

abbrev pub Act : Type 0 → Type 0
Act = Action Host Step

abbrev pub attempt : Step → Act (Option Errno)
attempt s h log = (ok (h.act log s), s ∷ log)

abbrev pub invoke : Step → Act (Unit {0})
invoke s = attempt s >>= unless_errno (λ _. false)

-- _ = step()
abbrev pub ignore : Step → Act (Unit {0})
ignore s = attempt s >>= λ _. pure tt

abbrev pub from_errno : {A : Type 0} → Outcome Errno A → Outcome Error A
from_errno (ok a) = ok a
from_errno (err e) = err (errno e)
