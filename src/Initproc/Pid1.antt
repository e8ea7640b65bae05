-- ===== src/Initproc/Pid1.antt =====
-- internal/initproc/pid1.go: reaping children and relaying signals. The answers of wait4 are given as
-- a function from how often it was called before, and the loop of `reap` runs on fuel.
pub mod Drained
use husk.Base.{
  ℕ, suc, zero, ◌+◌, Bool, true, false, Option, none, some, List, [], ◌∷◌, ◌==◌, if◌then◌else◌,
}

-- unix.WaitStatus of a process that ended.
pub data Fate : Type 0 where
  exited : ℕ → Fate
  signaled : ℕ → Fate

-- What wait4(-1, WNOHANG) answers: EINTR, a child that ended, or that there is none (0, ECHILD).
pub data Wait : Type 0 where
  interrupted : Wait
  ended : ℕ → Fate → Wait
  drained : Wait

-- reap: the fate of `direct`, if it ended, and the number of calls made.
unfoldable pub reap : ℕ → (ℕ → Wait) → ℕ → ℕ → Option Fate → Option (Option Fate × ℕ)
reap zero waits i direct found = none
reap (suc fuel) waits i direct found = elim (waits i) [
  | interrupted ↦ reap fuel waits (suc i) direct found
  | ended pid f ↦ reap fuel waits (suc i) direct (if pid == direct then some f else found)
  | drained ↦ some (found, suc i)
]

-- The argument of os.Exit in exitWith.
unfoldable pub exit_code : Fate → ℕ
exit_code (exited n) = n
exit_code (signaled n) = 128 + n

-- A signal that arrives at the supervisor: SIGCHLD, with the answers of wait4 then, or another one.
pub data Event : Type 0 where
  child_changed : (ℕ → Wait) → Event
  signal : ℕ → Event

-- What the supervisor did: the signals that it relayed to its child, and how it exited, if it did.
pub record Supervised : Type 0 where
  pub relayed : List ℕ
  pub exit : Option ℕ

abbrev pub relay : ℕ → Option Supervised → Option Supervised
relay s none = none
relay s (some r) = some (record { relayed = s ∷ r.relayed; exit = r.exit })

-- if status, done := reap(child); done { return exitWith(status) }
abbrev pub on_reaped : Option (Option Fate × ℕ) → Option Supervised → Option Supervised
on_reaped none rest = none
on_reaped (some (none, n)) rest = rest
on_reaped (some (some f, n)) rest = some (record { relayed = []; exit = some (exit_code f) })

-- The loop of superviseAsPID1 over the signals that arrive.
unfoldable pub supervise : ℕ → ℕ → List Event → Option Supervised
unfolding reap
supervise fuel child [] = some (record { relayed = []; exit = none })
supervise fuel child (signal s ∷ events) = relay s (supervise fuel child events)
supervise fuel child (child_changed waits ∷ events) =
    on_reaped (reap fuel waits 0 child none) (supervise fuel child events)
