-- ===== src/Ipc/Handshake/Guarded.antt =====
-- What every interleaving of the two processes keeps: the init process waits for its parent, and the
-- runtime for the init process.
use husk.Base.{◌≡◌, refl, Bool, true, false, ◌&&◌, List, [], ◌∷◌, arith}
use husk.Base.Bytes.{Str, str_eq}
use husk.Ipc.{
  Message, signal, failure, with_body, stage_config, stage_child_booted, stage_parent_ready,
  stage_child_jailed,
}
use husk.Ipc.Handshake.{
  Parent, sending_config, awaiting_booted, furnishing, releasing, awaiting_jailed, started, failing,
  closed, Child, receiving_config, booting, awaiting_ready, jailing, reporting, holding, launching,
  running, dead, System, begin, Reading, blocked, accepted, refused, receive, parent_at, child_at,
  tell_child, tell_parent, parent_read, child_read, parent_step, child_step, Move, parent_runs,
  child_runs, child_killed, step, run, is_dead, is_closed,
}
use husk.Ipc.Handshake.Queue.{
  implies, holds, holds-append, receive-accepted, config_not_ready, error_not_ready,
  booted_not_jailed, error_not_jailed,
}

-- The init process has been released by its parent.
abbrev pub is_released : Child → Bool
is_released receiving_config = false
is_released booting = false
is_released awaiting_ready = false
is_released dead = false
is_released _ = true

-- The init process is confined.
abbrev pub is_confined : Child → Bool
is_confined reporting = true
is_confined holding = true
is_confined launching = true
is_confined running = true
is_confined _ = false

abbrev pub is_started : Parent → Bool
is_started started = true
is_started _ = false

-- The runtime is past its setup.
abbrev pub is_set_up : Parent → Bool
is_set_up releasing = true
is_set_up awaiting_jailed = true
is_set_up _ = false

abbrev pub Guarded : System → Type 0
Guarded s =
    (implies (is_released s.child) s.furnished ≡ true)
    × (implies (is_confined s.child) s.jailed ≡ true)
    × (implies (is_started s.parent) s.jailed ≡ true)
    × (implies s.jailed s.furnished ≡ true)
    × (implies (is_set_up s.parent) s.furnished ≡ true)
    × (implies (holds stage_parent_ready s.to_child) s.furnished ≡ true)
    × (implies (holds stage_child_jailed s.to_parent) s.jailed ≡ true)

module _ (s : System) (m : Message) (g : Guarded s) where
  tell_child-Guarded :
      implies (str_eq m.stage stage_parent_ready) s.furnished ≡ true → Guarded (tell_child s m)
  tell_child-Guarded new = ground (arith, g, holds-append stage_parent_ready s.to_child m)

  tell_parent-Guarded :
      implies (str_eq m.stage stage_child_jailed) s.jailed ≡ true → Guarded (tell_parent s m)
  tell_parent-Guarded new = ground (arith, g, holds-append stage_child_jailed s.to_parent m)

module _ (s : System) (g : Guarded s) (end_closed decodes : Bool) (want : Str) where
  parent_read-Guarded :
      (next : Parent)
      → is_set_up next ≡ false
      → (holds want s.to_parent ≡ true → implies (is_started next) s.jailed ≡ true)
      → Guarded (parent_read s next (receive end_closed decodes want s.to_parent))
  parent_read-Guarded next early known = go (receive end_closed decodes want s.to_parent) refl
    where
      go :
          (r : Reading)
          → receive end_closed decodes want s.to_parent ≡ r
          → Guarded (parent_read s next r)
      go blocked e = g
      go refused e = ground (arith, g)
      go (accepted rest) e =
          let (first, others) = receive-accepted end_closed decodes want s.to_parent e in
          ground (arith, g, known first, others stage_child_jailed, early)

  child_read-Guarded :
      (next : Child)
      → is_confined next ≡ false
      → (holds want s.to_child ≡ true → implies (is_released next) s.furnished ≡ true)
      → Guarded (child_read s next (receive end_closed decodes want s.to_child))
  child_read-Guarded next early known = go (receive end_closed decodes want s.to_child) refl
    where
      go :
          (r : Reading)
          → receive end_closed decodes want s.to_child ≡ r
          → Guarded (child_read s next r)
      go blocked e = g
      go refused e = ground (arith, g)
      go (accepted rest) e =
          let (first, others) = receive-accepted end_closed decodes want s.to_child e in
          ground (arith, g, known first, others stage_parent_ready, early)

parent_step-Guarded :
    (worked : Bool) (p : Parent) (s : System)
    → s.parent ≡ p
    → Guarded s
    → Guarded (parent_step worked p s)
unfolding parent_step
parent_step-Guarded true sending_config s at g =
    tell_child-Guarded (parent_at s awaiting_booted) (with_body stage_config []) (ground (arith, g))
      (ground (arith, config_not_ready))
parent_step-Guarded worked awaiting_booted s at g =
    parent_read-Guarded s g (is_dead s.child) true stage_child_booted furnishing refl (λ _. refl)
parent_step-Guarded true furnishing s at g = ground (arith, g)
parent_step-Guarded false furnishing s at g =
    tell_child-Guarded (parent_at s failing) (failure []) (ground (arith, g))
      (ground (arith, error_not_ready))
parent_step-Guarded true releasing s at g =
    tell_child-Guarded (parent_at s awaiting_jailed) (with_body stage_parent_ready [])
      (ground (arith, g, at)) (ground (arith, g, at))
parent_step-Guarded worked awaiting_jailed s at g =
    parent_read-Guarded s g (is_dead s.child) true stage_child_jailed started refl
      (λ h. ground (arith, g, h))
parent_step-Guarded worked failing s at g = ground (arith, g)
parent_step-Guarded worked started s at g = g
parent_step-Guarded worked closed s at g = g
parent_step-Guarded false sending_config s at g = ground (arith, g)
parent_step-Guarded false releasing s at g = ground (arith, g)

child_step-Guarded :
    (hold worked : Bool) (c : Child) (s : System)
    → s.child ≡ c
    → Guarded s
    → Guarded (child_step hold worked c s)
unfolding child_step
child_step-Guarded hold worked receiving_config s at g =
    child_read-Guarded s g (is_closed s.parent) worked stage_config booting refl (λ _. refl)
child_step-Guarded hold true booting s at g =
    tell_parent-Guarded (child_at s awaiting_ready) (signal stage_child_booted) (ground (arith, g))
      (ground (arith, booted_not_jailed))
child_step-Guarded hold worked awaiting_ready s at g =
    child_read-Guarded s g (is_closed s.parent) worked stage_parent_ready jailing refl
      (λ h. ground (arith, g, h))
child_step-Guarded hold true jailing s at g = ground (arith, g, at)
child_step-Guarded hold false jailing s at g =
    tell_parent-Guarded (child_at s dead) (failure []) (ground (arith, g))
      (ground (arith, error_not_jailed))
child_step-Guarded true true reporting s at g =
    tell_parent-Guarded (child_at s holding) (signal stage_child_jailed) (ground (arith, g, at))
      (ground (arith, g, at))
child_step-Guarded false true reporting s at g =
    tell_parent-Guarded (child_at s launching) (signal stage_child_jailed) (ground (arith, g, at))
      (ground (arith, g, at))
child_step-Guarded hold true holding s at g = ground (arith, g, at)
child_step-Guarded hold true launching s at g = ground (arith, g, at)
child_step-Guarded hold worked running s at g = g
child_step-Guarded hold worked dead s at g = g
child_step-Guarded hold false booting s at g = ground (arith, g)
child_step-Guarded hold false reporting s at g = ground (arith, g)
child_step-Guarded hold false holding s at g = ground (arith, g)
child_step-Guarded hold false launching s at g = ground (arith, g)

run-Guarded :
    (hold : Bool) (moves : List Move) (s : System) → Guarded s → Guarded (run hold moves s)
unfolding run step
run-Guarded hold [] s g = g
run-Guarded hold (parent_runs worked ∷ moves) s g =
    run-Guarded hold moves (parent_step worked s.parent s)
      (parent_step-Guarded worked s.parent s refl g)
run-Guarded hold (child_runs worked ∷ moves) s g =
    run-Guarded hold moves (child_step hold worked s.child s)
      (child_step-Guarded hold worked s.child s refl g)
run-Guarded hold (child_killed ∷ moves) s g =
    run-Guarded hold moves (child_at s dead) (ground (arith, g))

-- In every interleaving of the runtime and the init process, whatever fails and whenever the init
-- process is killed: the init process begins its setup only after the parent's setup succeeded, it
-- waits for `husk start`, launches the workload or runs it only after its own setup succeeded, and
-- spawn.Start returns a container only after both did.
pub run-guarded :
    (hold : Bool) (moves : List Move)
    → let s = run hold moves begin in
      (implies (is_released s.child) s.furnished ≡ true)
      × (implies (is_confined s.child) (s.furnished && s.jailed) ≡ true)
      × (implies (is_started s.parent) (s.furnished && s.jailed) ≡ true)
run-guarded hold moves =
    let g = run-Guarded hold moves begin (refl, refl, refl, refl, refl, refl, refl) in
    ground (arith, g)
