-- ===== src/Runtime/Launch/Unwind.antt =====
-- launchConfig unwinds what it built when it fails before the hand-over.
use husk.Base.{Bool, true, false, not, ◌≡◌, ◌≢◌, ◌∙◌, refl, sym, some, List, ◌∷◌, arith}
use husk.Base.Outcome.{Outcome, ok, err}
use husk.Base.Action.{Error, Errno}
use husk.Container.{Config, Network}
use husk.Base.Bytes.{Str, str_eq}
use husk.Runtime.{Host, Step, create_state, make_fifo, save_state}
use husk.Runtime.Held.{
  Resource, state_dir, overlay, cgroup, network, child, held, retained, Releases, retained-held,
}
use husk.Runtime.Spawn.{Attached, start}
use husk.Runtime.Spawn.Barrier.{was_started, start-child}
use husk.Base.Action.{continue}
use husk.Runtime.Launch.{
  LaunchFlags, record_live, live, prepare_rootfs, furnish, build, construct, is_bridged,
  live_status,
}
use husk.Runtime.Launch.Parts.{
  failed, populate-network, populate-cgroup, populate-overlay, was_layered, prepare_rootfs-overlay,
  prepare_rootfs-other, is_built,
}

module _ {F : Type 0} (c : LaunchFlags) (cfg : Config F) (await : Bool) (h : Host) where
  furnish-clean :
      (r : Resource) (p : Outcome Error (Str × List Str) × List Step)
      → is_built r ≡ true
      → held h overlay p.1 ≡ was_layered c p.0
      → (r ≢ overlay → held h r p.1 ≡ false)
      → failed (continue p (furnish c cfg await) h).0 ≡ true
      → held h r (continue p (furnish c cfg await) h).1 ≡ false
  unfolding furnish
  furnish-clean overlay (ok (rootfs, layers), l) b o z f = ground (
    arith,
    populate-overlay (not (str_eq rootfs c.rootfs)) await (is_bridged cfg) cfg.network h l,
  )
  furnish-clean cgroup (ok (rootfs, layers), l) b o z f = ground (
    arith,
    z (λ e. cc e),
    populate-cgroup (not (str_eq rootfs c.rootfs)) await (is_bridged cfg) cfg.network h l,
  )
  furnish-clean network (ok (rootfs, layers), l) b o z f = ground (
    arith,
    z (λ e. cc e),
    populate-network (not (str_eq rootfs c.rootfs)) await (is_bridged cfg) cfg.network h l,
  )
  furnish-clean overlay (err e, l) b o z f = o
  furnish-clean cgroup (err e, l) b o z f = z (λ e. cc e)
  furnish-clean network (err e, l) b o z f = z (λ e. cc e)
  furnish-clean state_dir p b o z f = cc b
  furnish-clean child p b o z f = cc b

module _ {F : Type 0} (c : LaunchFlags) (cfg : Config F) (await : Bool) (h : Host) where
  furnished-clean :
      (r : Resource) (log : List Step)
      → is_built r ≡ true
      → held h overlay log ≡ false
      → held h r log ≡ false
      → failed (continue (prepare_rootfs c cfg h log) (furnish c cfg await) h).0 ≡ true
      → held h r (continue (prepare_rootfs c cfg h log) (furnish c cfg await) h).1 ≡ false
  furnished-clean r log b o z f =
      furnish-clean c cfg await h r (prepare_rootfs c cfg h log) b
        (prepare_rootfs-overlay c cfg h log o) (λ n. prepare_rootfs-other c cfg h log r n ∙ z) f

construct-unheld :
    {F : Type 0} (c : LaunchFlags) (cfg : Config F) (await : Bool) (h : Host) (log : List Step)
    (r : Resource)
    → r ≢ child
    → ((q : Resource) → held h q log ≡ false)
    → failed (construct c cfg await h log).0 ≡ true
    → held h r (construct c cfg await h log).1 ≡ false
unfolding construct build
construct-unheld c cfg await h log child n z f = absurd (n refl)
construct-unheld c cfg await h log state_dir n z f = ground (arith, z state_dir)
construct-unheld c cfg await h log r n z f = ground (
  arith,
  z r,
  z overlay,
  furnished-clean c cfg await h r (create_state ∷ log),
  furnished-clean c cfg await h r (make_fifo ∷ create_state ∷ log),
)

-- Whatever launchConfig fails of, it takes the steps that give back the state directory, the
-- overlay, the cgroup and the network attachment that it acquired: if the host refuses no such step, none
-- of them is retained after the failure if none was before. A host that does not remove a
-- cgroup with a process in it, which a failing second Save leaves, is not such a host.
pub construct-unwinds :
    {F : Type 0} (c : LaunchFlags) (cfg : Config F) (await : Bool) (h : Host) (log : List Step)
    (r : Resource)
    → Releases h
    → r ≢ child
    → ((q : Resource) → retained h q log ≡ false)
    → failed (construct c cfg await h log).0 ≡ true
    → retained h r (construct c cfg await h log).1 ≡ false
construct-unwinds c cfg await h log r releases n z f =
    retained-held h r (construct c cfg await h log).1 releases
    ∙ construct-unheld c cfg await h log r n (λ q. sym (retained-held h q log releases) ∙ z q) f

module _ (await : Bool) (h : Host) where
  recorded-leaks_child :
      (a : Bool) (net : Network) (log : List Step) (e : Errno)
      → held h child log ≡ true
      → h.act log (save_state (live_status await)) ≡ some e
      → (failed (record_live await (a, ok net) h log).0 ≡ true)
        × (held h child (record_live await (a, ok net) h log).1 ≡ true)
  unfolding record_live
  recorded-leaks_child a net log e z p = ground arith

-- A failure of the second Save, which comes after spawn.Start has released the child, leaves the
-- child running: the unwinding does not kill it.
pub live-leaks_child :
    (await bridged : Bool) (own net : Network) (a : Bool) (h : Host) (log : List Step) (e : Errno)
    → held h child log ≡ false
    → (start bridged own h log).0 ≡ ok (a, ok net)
    → h.act (start bridged own h log).1 (save_state (live_status await)) ≡ some e
    → (failed (live await bridged own h log).0 ≡ true)
      × (held h child (live await bridged own h log).1 ≡ true)
unfolding live
live-leaks_child await bridged own net a h log e z s p =
    go (start bridged own h log) (start-child bridged own h log z) s p
  where
    go :
        (q : Outcome Error (Attached Network) × List Step)
        → held h child q.1 ≡ was_started q.0
        → q.0 ≡ ok (a, ok net)
        → h.act q.1 (save_state (live_status await)) ≡ some e
        → (failed (continue q (record_live await) h).0 ≡ true)
          × (held h child (continue q (record_live await) h).1 ≡ true)
    go (ok (b, ok n), l) k s p = recorded-leaks_child await h b n l e k p
    go (ok (b, err x), l) k s p = cc
    go (err x, l) k s p = cc
