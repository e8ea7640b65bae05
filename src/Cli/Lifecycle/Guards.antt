-- ===== src/Cli/Lifecycle/Guards.antt =====
-- What start, kill and delete do to a container, and what their guards keep them from.
use husk.Base.{
  ℕ, zero, ◌⊎◌, inl, inr, Option, none, some, not, suc, ◌+◌, ◌<◌, ◌≡◌, ◌∙◌, refl, sym, ap, Bool,
  true, false, ◌&&◌, List, [], ◌∷◌, ◌++◌, arith, if◌then◌else◌,
}
use husk.Base.Bytes.{Str}
use husk.Base.Int.{ℤ, is_positive}
use husk.Base.Outcome.{Outcome, ok}
use husk.Base.Action.{Errno, eagain}
use husk.Runtime.{
  Host, Status, creating, created, stopped, FifoRead, byte, empty, failed, Step, running, kill_all,
  remove_state, detach_network, destroy_cgroup, remove_storage,
}
use husk.Runtime.Launch.{teardown}
use husk.State.{State, refresh, refreshed, gone}
use husk.Cli.Lifecycle.{
  is_stopped, heard, await_fifo_byte, kill_command, has_layers, clean, delete_command,
}

-- A read of the FIFO, which is open for reading only and does not block, that finds nothing.
abbrev pub IsQuiet : FifoRead → Type 0
IsQuiet r = (r ≡ empty) ⊎ (r ≡ failed eagain)

heard-quiet : (r : FifoRead) → IsQuiet r → heard r ≡ ok false
heard-quiet r h = elim h [ inl e ↦ rw e refl | inr e ↦ rw e refl ]

-- Init was not found dead by the n-th kill(pid, 0).
abbrev pub IsAlive : Host → List Step → ℤ → ℕ → Type 0
IsAlive h log pid n = h.probe log n pid ≡ none

alive-found :
    (h : Host) (log : List Step) (pid : ℤ) (n : ℕ)
    → IsAlive h log pid n
    → is_positive pid && gone (h.probe log n pid) ≡ false
alive-found h log pid n a = rw a (ground arith)

-- awaitFifoByte returns without an error if one of its reads gives the byte before the rounds are over,
-- each read before it found nothing (no data, or EAGAIN), and behind each of these init answered
-- kill(pid, 0).
pub await_fifo_byte-arrives :
    (rounds before n : ℕ) (pid : ℤ) (h : Host) (log : List Step)
    → before < rounds
    → ((k : ℕ) → k < before → IsQuiet (h.fifo log (k + n)) × IsAlive h log pid (k + n))
    → h.fifo log (before + n) ≡ byte
    → await_fifo_byte rounds n pid h log ≡ ok tt
unfolding await_fifo_byte
await_fifo_byte-arrives zero before n pid h log lt quiet at = absurd (omega arith)
await_fifo_byte-arrives (suc rounds) zero n pid h log lt quiet at =
    let first : 0 + n ≡ n = omega arith in
    let now : h.fifo log n ≡ byte = rw first at at in rw now refl
await_fifo_byte-arrives (suc rounds) (suc before) n pid h log lt quiet at =
    let first : 0 + n ≡ n = omega arith in
    let shift : (k : ℕ) → suc k + n ≡ k + suc n = λ k. omega arith in
    let here : IsQuiet (h.fifo log n) × IsAlive h log pid n = rw first at (quiet 0 (omega arith)) in
    rw (heard-quiet (h.fifo log n) here.0, alive-found h log pid n here.1)
      (await_fifo_byte-arrives rounds before (suc n) pid h log (omega arith)
        (λ k below. rw (shift k) at (quiet (suc k) (omega arith))) (rw (shift before) at at))

-- teardown runs every step, whatever fails: the network goes first, then the processes, then their
-- cgroup, and the layers last.
pub teardown_complete :
    (layers : Bool) (h : Host) (log : List Step)
    → (teardown layers h log).1
      ≡ (if layers then remove_storage ∷ [] else [])
        ++ destroy_cgroup ∷ kill_all ∷ detach_network ∷ log
unfolding teardown
teardown_complete layers h log = ground arith

module _ {F : Type 0} (st : State F) (h : Host) (log : List Step) where
  -- Without -force, delete refuses a container whose process lives, and does nothing to it.
  pub delete_command-refuses :
      (rounds : ℕ)
      → is_stopped (refresh st (h.probe log 0 st.pid)).status ≡ false
      → (delete_command rounds false (ok st) h log).1 ≡ log
  unfolding delete_command
  delete_command-refuses rounds e = ground arith

  -- What Refresh finds of a container: it is stopped if it was recorded so, or, unless it is still being
  -- created, if it has no pid or kill(pid, 0) fails.
  abbrev pub has_died : Option Errno → Bool
  has_died (some e) = true
  has_died none = not (is_positive st.pid)

  abbrev pub has_stopped : Option Errno → Status → Bool
  has_stopped answer creating = false
  has_stopped answer created = has_died answer
  has_stopped answer running = has_died answer
  has_stopped answer stopped = true

  -- The step that removes the layers, if there are any.
  abbrev pub unlayered : List Str → List Step
  unlayered [] = []
  unlayered (l ∷ ls) = remove_storage ∷ []

  refresh-has_stopped :
      is_stopped (refresh st (h.probe log 0 st.pid)).status
      ≡ has_stopped (h.probe log 0 st.pid) st.status
  unfolding refresh refreshed
  refresh-has_stopped = go st.status (h.probe log 0 st.pid)
    where
      go : (s : Status) (o : Option Errno) → is_stopped (refreshed s st.pid o) ≡ has_stopped o s
      go s o = ground arith

  teardown-undone :
      (past : List Step)
      → (teardown (has_layers st.layers) h past).1
        ≡ unlayered st.layers ++ destroy_cgroup ∷ kill_all ∷ detach_network ∷ past
  teardown-undone past = teardown_complete (has_layers st.layers) h past ∙ go st.layers
    where
      go :
          (layers : List Str)
          → (if has_layers layers then remove_storage ∷ [] else [])
              ++ destroy_cgroup ∷ kill_all ∷ detach_network ∷ past
            ≡ unlayered layers ++ destroy_cgroup ∷ kill_all ∷ detach_network ∷ past
      go [] = refl
      go (l ∷ ls) = refl

  deleted :
      (rounds : ℕ) (force : Bool)
      → (delete_command rounds force (ok st) h log).0 ≡ ok tt
      → (delete_command rounds force (ok st) h log).1
        ≡ remove_state
          ∷ (teardown (has_layers st.layers) h (
              if is_stopped (refresh st (h.probe log 0 st.pid)).status
              then log
              else kill_all ∷ log)).1
  unfolding delete_command clean teardown refresh
  deleted rounds force e = ground arith

  -- A delete that succeeds has, in this order and whatever became of the steps but the last: killed the
  -- cgroup if the container was not stopped, detached the network, killed the cgroup again, called for its
  -- removal and for that of the layers, if the record has any, and last removed the record.
  pub delete_command_complete :
      (rounds : ℕ) (force : Bool)
      → (delete_command rounds force (ok st) h log).0 ≡ ok tt
      → (delete_command rounds force (ok st) h log).1
        ≡ remove_state ∷ unlayered st.layers
          ++ destroy_cgroup
            ∷ kill_all
            ∷ detach_network
            ∷ (if has_stopped (h.probe log 0 st.pid) st.status then log else kill_all ∷ log)
  delete_command_complete rounds force e =
      rw (sym refresh-has_stopped)
        (deleted rounds force e ∙ ap (λ (l : List Step). remove_state ∷ l) (teardown-undone _))

  -- kill sends nothing to a container that has stopped, not even with -all.
  pub kill_command-stopped :
      (all : Bool) (sig : ℕ)
      → is_stopped (refresh st (h.probe log 0 st.pid)).status ≡ true
      → (kill_command all sig (ok st) h log).1 ≡ log
  unfolding kill_command
  kill_command-stopped all sig e = ground arith
