-- ===== src/Runtime/Held.antt =====
-- What a log of steps has left behind on the host: a resource is held from the step that acquires
-- it, where that step succeeded, to the next step that is to give it back, and retained to the next such
-- step that succeeds.
use husk.Base.{Bool, true, false, ◌&&◌, Option, none, some, List, [], ◌∷◌, if◌then◌else◌, ◌≡◌, refl}
use husk.Base.Action.{Errno}
use husk.Runtime.{
  Host, Step, create_state, remove_state, mount_overlay, remove_storage, create_cgroup,
  destroy_cgroup, attach_network, detach_network, clone_init, kill_init,
}

pub data Resource : Type 0 where
  state_dir overlay cgroup network child : Resource

abbrev pub acquires : Resource → Step → Bool
acquires state_dir create_state = true
acquires overlay (mount_overlay layers) = true
acquires cgroup create_cgroup = true
acquires network attach_network = true
acquires child clone_init = true
acquires _ _ = false

abbrev pub gives_back : Resource → Step → Bool
gives_back state_dir remove_state = true
gives_back overlay remove_storage = true
gives_back cgroup destroy_cgroup = true
gives_back network detach_network = true
gives_back child kill_init = true
gives_back _ _ = false

abbrev pub succeeded : Option Errno → Bool
succeeded none = true
succeeded (some e) = false

-- The newest step stands first.
abbrev pub held : Host → Resource → List Step → Bool
held h r [] = false
held h r (s ∷ log) =
    if acquires r s && succeeded (h.act log s)
    then true
    else (if gives_back r s then false else held h r log)

-- As `held`, but a step that the host refuses gives nothing back.
abbrev pub retained : Host → Resource → List Step → Bool
retained h r [] = false
retained h r (s ∷ log) =
    if acquires r s && succeeded (h.act log s)
    then true
    else (if gives_back r s && succeeded (h.act log s) then false else retained h r log)

-- The host refuses no step that gives something back.
abbrev pub Releases : Host → Type 0
Releases h =
    (r : Resource) (s : Step) (log : List Step)
    → gives_back r s ≡ true
    → succeeded (h.act log s) ≡ true

same_step :
    (new back done : Bool) (x y : Bool)
    → (back ≡ true → done ≡ true)
    → x ≡ y
    → (if new then true else (if back && done then false else x))
      ≡ (if new then true else (if back then false else y))
same_step true back done x y d e = refl
same_step false true true x y d e = refl
same_step false true false x y d e = absurd (cc (d refl))
same_step false false done x y d e = e

pub retained-held :
    (h : Host) (r : Resource) (log : List Step) → Releases h → retained h r log ≡ held h r log
retained-held h r [] releases = refl
retained-held h r (s ∷ log) releases =
    same_step (acquires r s && succeeded (h.act log s)) (gives_back r s) (succeeded (h.act log s))
      (retained h r log) (held h r log) (releases r s log) (retained-held h r log releases)
