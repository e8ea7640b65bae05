-- ===== src/Runtime/Spawn/Barrier.antt =====
-- What spawn.Start leaves on the host, and that it lets the workload go only under its limits.
use husk.Base.{Bool, true, false, ◌≡◌, List, arith}
use husk.Base.Outcome.{Outcome, ok, err}
use husk.Base.Action.{Error}
use husk.Container.{Network}
use husk.Runtime.{Host, Step}
use husk.Runtime.Held.{state_dir, overlay, cgroup, network, child, held}
use husk.Runtime.Spawn.{Attached, start}

-- The value of networkAttached, and whether the container was started.
abbrev pub was_attached : Outcome Error (Attached Network) → Bool
was_attached (ok (a, r)) = a
was_attached (err e) = false

abbrev pub was_started : Outcome Error (Attached Network) → Bool
was_started (ok (a, ok net)) = true
was_started (ok (a, err e)) = false
was_started (err e) = false

module _ (bridged : Bool) (own : Network) (h : Host) (log : List Step) where
  pub start-network :
      held h network log ≡ false
      → held h network (start bridged own h log).1 ≡ was_attached (start bridged own h log).0
  unfolding start
  start-network none_yet = ground arith

  -- After spawn.Start a child process is left on the host exactly if the container was started: a
  -- failure at any point has killed it. No child may be held before.
  pub start-child :
      held h child log ≡ false
      → held h child (start bridged own h log).1 ≡ was_started (start bridged own h log).0
  unfolding start
  start-child none_yet = ground arith

  -- The other resources are no business of spawn.Start.
  pub start-state_dir : held h state_dir (start bridged own h log).1 ≡ held h state_dir log
  unfolding start
  start-state_dir = ground arith

  pub start-overlay : held h overlay (start bridged own h log).1 ≡ held h overlay log
  unfolding start
  start-overlay = ground arith

  pub start-cgroup : held h cgroup (start bridged own h log).1 ≡ held h cgroup log
  unfolding start
  start-cgroup = ground arith
