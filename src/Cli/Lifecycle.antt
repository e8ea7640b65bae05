-- ===== src/Cli/Lifecycle.antt =====
-- internal/cli/lifecycle.go: start, kill and delete, from the record on that Store.Load gave. A
-- round of a polling loop is one unit of fuel: how many there are is up to the clock.
pub mod Guards
pub mod Signals
use husk.Base.{
  ℕ, zero, suc, Bool, true, false, not, ◌&&◌, Option, none, some, List, [], ◌∷◌, ◌==◌,
  if◌then◌else◌,
}
use husk.Base.Bytes.{Str}
use husk.Base.Int.{ℤ, is_positive}
use husk.Base.Outcome.{Outcome, ok, err}
use husk.Base.Action.{
  Errno, eagain, Error, errno, message, pure, fail, lift, asks, context, ◌>>=◌, ◌>>◌,
}
use husk.Container.{Config}
use husk.Runtime.{
  Act, Host, Step, Status, creating, created, running, stopped, save_state, kill_all, remove_state,
  open_fifo, signal, FifoRead, byte, empty, eof, failed, invoke, ignore, from_errno,
}
use husk.Runtime.Launch.{teardown}
use husk.State.{State, refresh, gone}

abbrev pub is_created : Status → Bool
is_created created = true
is_created _ = false

abbrev pub is_stopped : Status → Bool
is_stopped stopped = true
is_stopped _ = false

abbrev pub is_eagain : Errno → Bool
is_eagain eagain = true
is_eagain _ = false

-- What one read of the FIFO means: the byte, an error, or another round.
abbrev pub heard : FifoRead → Outcome Error Bool
heard byte = ok true
heard empty = ok false
heard eof = err (message "the init process closed the fifo without starting")
heard (failed e) = if is_eagain e then ok false else err (errno e)

-- The rest of a round of awaitFifoByte; `lost` is pid > 0 && unix.Kill(pid, 0) != nil.
abbrev pub next_round :
    Outcome Error Bool → Bool → Outcome Error (Unit {0}) → Outcome Error (Unit {0})
next_round (ok true) lost later = ok tt
next_round (ok false) true later = err (message "the init process is gone")
next_round (ok false) false later = later
next_round (err e) lost later = err e

-- awaitFifoByte, with `rounds` to go before the deadline; `n` reads and `n` probes of init
-- are done.
unfoldable pub await_fifo_byte : ℕ → ℕ → ℤ → Host → List Step → Outcome Error (Unit {0})
await_fifo_byte zero n pid h log = err (message "timed out")
await_fifo_byte (suc rounds) n pid h log =
    next_round (heard (h.fifo log n)) (is_positive pid && gone (h.probe log n pid))
      (await_fifo_byte rounds (suc n) pid h log)

-- startCommand behind the status check.
unfoldable pub rendezvous : ℕ → ℤ → Act (Unit {0})
rendezvous rounds pid =
    context "open exec fifo" (invoke open_fifo)
    >> (context "start container" (λ h log. (await_fifo_byte rounds 0 pid h log, log))
        >> invoke (save_state running))

-- startCommand
unfoldable pub start_command : {F : Type 0} → ℕ → Outcome Error (State F) → Act (Unit {0})
start_command rounds loaded = lift loaded >>= λ st.
    if is_created st.status
    then rendezvous rounds st.pid
    else fail (message "container is not created")

-- st.Refresh()
abbrev pub refreshing : {F : Type 0} → State F → Act (State F)
refreshing st h log = (ok (refresh st (h.probe log 0 st.pid)), log)

-- The loop over cg.Processes.
unfoldable pub signal_each : ℕ → List ℤ → Act (Unit {0})
signal_each sig [] = pure tt
signal_each sig (pid ∷ pids) = ignore (signal pid sig) >> signal_each sig pids

-- kill -all; SIGKILL is 9.
unfoldable pub kill_group : ℕ → Act (Unit {0})
unfolding signal_each
kill_group sig =
    if sig == 9
    then invoke kill_all
    else ((λ h log. (from_errno (h.processes log 0), log)) >>= signal_each sig)

-- killCommand, for the signal that was parsed.
unfoldable pub kill_command : {F : Type 0} → Bool → ℕ → Outcome Error (State F) → Act (Unit {0})
kill_command all sig loaded = lift loaded >>= λ recorded.
    (refreshing recorded >>= λ st.
    if is_stopped st.status
    then fail (message "container is not running")
    else (if all then kill_group sig else context "signal container" (invoke (signal st.pid sig))))

abbrev pub none_left : Outcome Errno (List ℤ) → Bool
none_left (ok []) = true
none_left (ok (pid ∷ pids)) = false
none_left (err e) = true

-- waitForEmpty: the number of readings of cgroup.procs.
unfoldable pub wait_for_empty : ℕ → ℕ → Host → List Step → ℕ
wait_for_empty zero n h log = n
wait_for_empty (suc rounds) n h log =
    let later = wait_for_empty rounds (suc n) h log in
    if none_left (h.processes log n) then suc n else later

abbrev pub has_layers : List Str → Bool
has_layers [] = false
has_layers (l ∷ ls) = true

-- deleteCommand behind the guards; the Boolean is usedStorage.
unfoldable pub clean : Bool → Act (Unit {0})
clean used_storage = teardown used_storage >>= λ problems. invoke remove_state

-- The guards of deleteCommand.
abbrev pub may_delete : ℕ → Bool → Bool → Act (Unit {0})
may_delete rounds true force = pure tt
may_delete rounds false false = fail (message "use -force to kill it first")
may_delete rounds false true =
    context "kill container" (invoke kill_all)
    >> (λ h log. let polls = wait_for_empty rounds 0 h log in (ok tt, log))

-- deleteCommand; st.Config is never nil in a record that husk saved.
unfoldable pub delete_command : {F : Type 0} → ℕ → Bool → Outcome Error (State F) → Act (Unit {0})
delete_command rounds force loaded = lift loaded >>= λ recorded.
    (refreshing recorded >>= λ st.
    may_delete rounds (is_stopped st.status) force >> clean (has_layers st.layers))
