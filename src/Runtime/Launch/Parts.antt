-- ===== src/Runtime/Launch/Parts.antt =====
-- What each part of launchConfig leaves on the host when it fails.
use husk.Base.{Bool, true, false, not, ◌≡◌, ℕ, ◌++◌, ◌≢◌, ◌∙◌, refl, List, [], ◌∷◌, arith}
use husk.Base.Outcome.{Outcome, ok, err}
use husk.Base.Action.{Error}
use husk.Container.{Config, Network}
use husk.Base.Bytes.{Str, codes, str_eq, str_eq_refl, str_eq_sound}
use husk.Runtime.{
  Host, Step, save_state, creating, apply_limits, open_null, open_log, create_cgroup,
}
use husk.Runtime.Held.{Resource, state_dir, overlay, cgroup, network, child, held}
use husk.Runtime.Spawn.{Attached, start}
use husk.Runtime.Spawn.Barrier.{
  was_attached, start-network, start-state_dir, start-overlay, start-cgroup,
}
use husk.Base.Action.{continue}
use husk.Runtime.Launch.{LaunchFlags, record_live, live, confine, populate, prepare_rootfs}

abbrev pub failed : {A : Type 0} → Outcome Error A → Bool
failed (ok a) = false
failed (err e) = true

-- The resources that are acquired before spawn.Start, which neither it nor its unwinding touches.
abbrev pub is_early : Resource → Bool
is_early network = false
is_early child = false
is_early _ = true

abbrev pub early_or_child : Resource → Bool
early_or_child network = false
early_or_child _ = true

module _ (await : Bool) (h : Host) where
  pub record_live-network :
      (a : Bool) (x : Outcome Error Network) (log : List Step)
      → held h network log ≡ a
      → failed (record_live await (a, x) h log).0 ≡ true
      → held h network (record_live await (a, x) h log).1 ≡ false
  unfolding record_live
  record_live-network a x log e f = ground arith

  pub record_live-other :
      (r : Resource) (a : Bool) (x : Outcome Error Network) (log : List Step)
      → early_or_child r ≡ true
      → held h r (record_live await (a, x) h log).1 ≡ held h r log
  unfolding record_live
  record_live-other state_dir a x log e = ground arith
  record_live-other network a x log e = cc
  record_live-other _ a x log e = ground arith

pub start-early :
    (r : Resource) (bridged : Bool) (own : Network) (h : Host) (log : List Step)
    → is_early r ≡ true
    → held h r (start bridged own h log).1 ≡ held h r log
start-early state_dir bridged own h log e = start-state_dir bridged own h log
start-early overlay bridged own h log e = start-overlay bridged own h log
start-early cgroup bridged own h log e = start-cgroup bridged own h log
start-early network bridged own h log e = cc
start-early child bridged own h log e = cc

is_early→other : (r : Resource) → is_early r ≡ true → early_or_child r ≡ true
is_early→other state_dir e = refl
is_early→other network e = cc
is_early→other _ e = refl

module _ (await bridged : Bool) (own : Network) (h : Host) (log : List Step) where
  pub live-network :
      held h network log ≡ false
      → failed (live await bridged own h log).0 ≡ true
      → held h network (live await bridged own h log).1 ≡ false
  unfolding live
  live-network n f = go (start bridged own h log) (start-network bridged own h log n) f
    where
      go :
          (p : Outcome Error (Attached Network) × List Step)
          → held h network p.1 ≡ was_attached p.0
          → failed (continue p (record_live await) h).0 ≡ true
          → held h network (continue p (record_live await) h).1 ≡ false
      go (ok (a, x), l) e f = record_live-network await h a x l e f
      go (err x, l) e f = e

  pub live-early :
      (r : Resource) → is_early r ≡ true → held h r (live await bridged own h log).1 ≡ held h r log
  unfolding live
  live-early r early = go (start bridged own h log) ∙ start-early r bridged own h log early
    where
      go :
          (p : Outcome Error (Attached Network) × List Step)
          → held h r (continue p (record_live await) h).1 ≡ held h r p.1
      go (ok (a, x), l) = record_live-other await h r a x l (is_early→other r early)
      go (err x, l) = refl

abbrev pub limited : List Step → List Step
limited log = save_state creating ∷ apply_limits ∷ log

abbrev pub logging : List Step → List Step
logging log = open_null ∷ open_log ∷ limited log

module _ (await bridged : Bool) (own : Network) (h : Host) (log : List Step) where
  pub confine-network :
      held h network log ≡ false
      → failed (confine await bridged own h log).0 ≡ true
      → held h network (confine await bridged own h log).1 ≡ false
  unfolding confine
  confine-network n f = ground (
    arith,
    live-network true bridged own h (logging log),
    live-network false bridged own h (limited log),
  )

  pub confine-early :
      (r : Resource)
      → is_early r ≡ true
      → held h r (confine await bridged own h log).1 ≡ held h r log
  unfolding confine
  confine-early network e = cc
  confine-early child e = cc
  confine-early r e = ground (
    arith,
    live-early true bridged own h (logging log) r,
    live-early false bridged own h (limited log) r,
  )

module _ (layered await bridged : Bool) (own : Network) (h : Host) (log : List Step) where
  pub populate-network :
      held h network log ≡ false
      → failed (populate layered await bridged own h log).0 ≡ true
      → held h network (populate layered await bridged own h log).1 ≡ false
  unfolding populate
  populate-network n f = ground (arith, confine-network await bridged own h (create_cgroup ∷ log))

  pub populate-cgroup :
      held h cgroup log ≡ false
      → failed (populate layered await bridged own h log).0 ≡ true
      → held h cgroup (populate layered await bridged own h log).1 ≡ false
  unfolding populate
  populate-cgroup n f =
      ground (arith, confine-early await bridged own h (create_cgroup ∷ log) cgroup)

  pub populate-overlay :
      held h overlay log ≡ layered
      → failed (populate layered await bridged own h log).0 ≡ true
      → held h overlay (populate layered await bridged own h log).1 ≡ false
  unfolding populate
  populate-overlay n f =
      ground (arith, confine-early await bridged own h (create_cgroup ∷ log) overlay)

  pub populate-state_dir :
      held h state_dir (populate layered await bridged own h log).1 ≡ held h state_dir log
  unfolding populate
  populate-state_dir =
      ground (arith, confine-early await bridged own h (create_cgroup ∷ log) state_dir)

-- A joined path is not empty.
pub joined-ne-nil : (s t : Str) (c : ℕ) → str_eq (s ++ c ∷ t) [] ≡ false
unfolding str_eq
joined-ne-nil [] t c = refl
joined-ne-nil (x ∷ s) t c = refl

abbrev pub was_layered : LaunchFlags → Outcome Error (Str × List Str) → Bool
was_layered c (ok (rootfs, layers)) = not (str_eq rootfs c.rootfs)
was_layered c (err e) = false

module _ {F : Type 0} (c : LaunchFlags) (cfg : Config F) (h : Host) (log : List Step) where
  pub prepare_rootfs-overlay :
      held h overlay log ≡ false
      → held h overlay (prepare_rootfs c cfg h log).1 ≡ was_layered c (prepare_rootfs c cfg h log).0
  unfolding prepare_rootfs
  prepare_rootfs-overlay n = ground (
    arith,
    str_eq_refl c.rootfs,
    str_eq_sound c.rootfs [],
    joined-ne-nil (c.data_root ++ codes "/containers/" ++ cfg.id) (codes "merged") b'/',
  )

  pub prepare_rootfs-other :
      (r : Resource) → r ≢ overlay → held h r (prepare_rootfs c cfg h log).1 ≡ held h r log
  unfolding prepare_rootfs
  prepare_rootfs-other overlay n = absurd (n refl)
  prepare_rootfs-other r n = ground arith

abbrev pub is_built : Resource → Bool
is_built overlay = true
is_built cgroup = true
is_built network = true
is_built _ = false
