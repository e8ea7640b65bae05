-- ===== src/Runtime/Launch/Success.antt =====
-- What launchConfig holds when it has constructed a container.
use husk.Base.{Bool, true, false, not, ◌≡◌, ◌∙◌, List, ◌∷◌, arith}
use husk.Base.Bytes.{Str, str_eq}
use husk.Base.Outcome.{Outcome, ok, err}
use husk.Base.Action.{Error, continue}
use husk.Container.{Config, Network}
use husk.Runtime.{Host, Step, create_state, make_fifo, create_cgroup}
use husk.Runtime.Held.{Resource, state_dir, overlay, cgroup, network, child, held}
use husk.Runtime.Spawn.{Attached, start}
use husk.Runtime.Spawn.Barrier.{was_started, start-child}
use husk.Runtime.Launch.{
  LaunchFlags, record_live, live, confine, populate, prepare_rootfs, furnish, build, construct,
  is_bridged,
}
use husk.Runtime.Launch.Parts.{failed, confine-early, prepare_rootfs-other, limited, logging}

module _ (await : Bool) (h : Host) where
  record_live-started :
      (p : Attached Network) (log : List Step)
      → held h child log ≡ was_started (ok p)
      → failed (record_live await p h log).0 ≡ false
      → held h child (record_live await p h log).1 ≡ true
  unfolding record_live
  record_live-started (a, ok net) log e f = ground arith
  record_live-started (a, err x) log e f = ground arith

  module _ (bridged : Bool) (own : Network) (log : List Step) where
    live-child :
        held h child log ≡ false
        → failed (live await bridged own h log).0 ≡ false
        → held h child (live await bridged own h log).1 ≡ true
    unfolding live
    live-child none_yet f = go (start bridged own h log) (start-child bridged own h log none_yet) f
      where
        go :
            (p : Outcome Error (Attached Network) × List Step)
            → held h child p.1 ≡ was_started p.0
            → failed (continue p (record_live await) h).0 ≡ false
            → held h child (continue p (record_live await) h).1 ≡ true
        go (ok p, l) e f = record_live-started p l e f
        go (err x, l) e f = cc

module _ (await bridged : Bool) (own : Network) (h : Host) (log : List Step) where
  confine-child :
      held h child log ≡ false
      → failed (confine await bridged own h log).0 ≡ false
      → held h child (confine await bridged own h log).1 ≡ true
  unfolding confine
  confine-child n f = ground (
    arith,
    live-child true h bridged own (logging log),
    live-child false h bridged own (limited log),
  )

-- What a constructed container has in any case.
abbrev pub is_kept : Resource → Bool
is_kept state_dir = true
is_kept cgroup = true
is_kept child = true
is_kept _ = false

module _ (layered await bridged : Bool) (own : Network) (h : Host) (log : List Step) where
  populate-kept :
      (r : Resource)
      → is_kept r ≡ true
      → held h state_dir log ≡ true
      → held h child log ≡ false
      → failed (populate layered await bridged own h log).0 ≡ false
      → held h r (populate layered await bridged own h log).1 ≡ true
  unfolding populate
  populate-kept state_dir k s n f =
      ground (arith, confine-early await bridged own h (create_cgroup ∷ log) state_dir)
  populate-kept cgroup k s n f =
      ground (arith, confine-early await bridged own h (create_cgroup ∷ log) cgroup)
  populate-kept child k s n f =
      ground (arith, confine-child await bridged own h (create_cgroup ∷ log))
  populate-kept overlay k s n f = cc k
  populate-kept network k s n f = cc k

module _ {F : Type 0} (c : LaunchFlags) (cfg : Config F) (await : Bool) (h : Host) where
  furnish-kept :
      (r : Resource) (p : Outcome Error (Str × List Str) × List Step)
      → is_kept r ≡ true
      → held h state_dir p.1 ≡ true
      → held h child p.1 ≡ false
      → failed (continue p (furnish c cfg await) h).0 ≡ false
      → held h r (continue p (furnish c cfg await) h).1 ≡ true
  unfolding furnish
  furnish-kept r (ok (rootfs, layers), l) k s n f = ground (
    arith,
    populate-kept (not (str_eq rootfs c.rootfs)) await (is_bridged cfg) cfg.network h l r k s n,
  )
  furnish-kept r (err e, l) k s n f = cc

  furnished-kept :
      (r : Resource) (log : List Step)
      → is_kept r ≡ true
      → held h state_dir log ≡ true
      → held h child log ≡ false
      → failed (continue (prepare_rootfs c cfg h log) (furnish c cfg await) h).0 ≡ false
      → held h r (continue (prepare_rootfs c cfg h log) (furnish c cfg await) h).1 ≡ true
  furnished-kept r log k s n f =
      furnish-kept r (prepare_rootfs c cfg h log) k
        (prepare_rootfs-other c cfg h log state_dir (λ e. cc e) ∙ s)
        (prepare_rootfs-other c cfg h log child (λ e. cc e) ∙ n) f

-- If launchConfig constructs a container, its state directory, its cgroup and its child process are
-- there at the hand-over; no child may be held before.
pub construct-holds :
    {F : Type 0} (c : LaunchFlags) (cfg : Config F) (await : Bool) (h : Host) (log : List Step)
    (r : Resource)
    → is_kept r ≡ true
    → held h child log ≡ false
    → failed (construct c cfg await h log).0 ≡ false
    → held h r (construct c cfg await h log).1 ≡ true
unfolding construct build
construct-holds c cfg await h log r k n f = ground (
  arith,
  furnished-kept c cfg await h r (create_state ∷ log) k,
  furnished-kept c cfg await h r (make_fifo ∷ create_state ∷ log) k,
)
