-- ===== src/Ipc/Handshake/Live.antt =====
-- In every interleaving of the two processes one of them can go on.
use husk.Base.{◌≡◌, refl, Bool, true, false, not, List, [], ◌∷◌, ◌++◌, arith}
use husk.Base.Bytes.{Str}
use husk.Ipc.{
  Message, signal, failure, with_body, stage_config, stage_child_booted, stage_parent_ready,
  stage_child_jailed,
}
use husk.Ipc.Handshake.{
  Parent, sending_config, awaiting_booted, furnishing, releasing, awaiting_jailed, started, failing,
  closed, Child, receiving_config, booting, awaiting_ready, jailing, reporting, holding, launching,
  running, dead, System, Reading, blocked, accepted, refused, receive, child_at, parent_read,
  child_read, parent_step, child_step, Move, parent_runs, child_runs, child_killed, step, run,
  is_dead, is_closed,
}
use husk.Ipc.Handshake.Queue.{implies, holds, holds-append, receive-accepted, config_not_ready}

abbrev pub filled : List Message → Bool
filled [] = false
filled (_ ∷ _) = true

filled-append : (q : List Message) (m : Message) → filled (q ++ m ∷ []) ≡ true
filled-append [] m = refl
filled-append (_ ∷ q) m = refl

holds-filled : (stage : Str) (q : List Message) → holds stage q ≡ true → filled q ≡ true
holds-filled stage [] h = h
holds-filled stage (_ ∷ q) h = refl

-- Where the init process may be while the runtime is at a place, given whether the pipe to it and the
-- pipe from it hold a message: one of the two can always go on.
abbrev pub may_meet : Parent → Child → Bool → Bool → Bool
may_meet sending_config receiving_config to_child to_parent = not to_child
may_meet sending_config dead to_child to_parent = true
may_meet sending_config _ to_child to_parent = false
may_meet awaiting_booted receiving_config to_child to_parent = to_child
may_meet awaiting_booted booting to_child to_parent = true
may_meet awaiting_booted awaiting_ready to_child to_parent = to_parent
may_meet awaiting_booted dead to_child to_parent = true
may_meet awaiting_booted _ to_child to_parent = false
may_meet furnishing awaiting_ready to_child to_parent = true
may_meet furnishing dead to_child to_parent = true
may_meet furnishing _ to_child to_parent = false
may_meet releasing awaiting_ready to_child to_parent = true
may_meet releasing dead to_child to_parent = true
may_meet releasing _ to_child to_parent = false
may_meet awaiting_jailed receiving_config to_child to_parent = false
may_meet awaiting_jailed booting to_child to_parent = false
may_meet awaiting_jailed awaiting_ready to_child to_parent = to_child
may_meet awaiting_jailed holding to_child to_parent = to_parent
may_meet awaiting_jailed launching to_child to_parent = to_parent
may_meet awaiting_jailed running to_child to_parent = to_parent
may_meet awaiting_jailed _ to_child to_parent = true
may_meet _ _ to_child to_parent = true

-- The runtime has sent its release, or does not go on.
abbrev pub has_released : Parent → Bool
has_released sending_config = false
has_released awaiting_booted = false
has_released furnishing = false
has_released releasing = false
has_released _ = true

-- The init process has said that it exists, or is gone.
abbrev pub has_booted : Child → Bool
has_booted receiving_config = false
has_booted booting = false
has_booted _ = true

abbrev pub Live : System → Type 0
Live s =
    (may_meet s.parent s.child (filled s.to_child) (filled s.to_parent) ≡ true)
    × (implies (holds stage_parent_ready s.to_child) (has_released s.parent) ≡ true)
    × (implies (holds stage_child_booted s.to_parent) (has_booted s.child) ≡ true)

module _ (s : System) (l : Live s) where
  booted-Live :
      (r : Reading)
      → s.parent ≡ awaiting_booted
      → receive (is_dead s.child) true stage_child_booted s.to_parent ≡ r
      → Live (parent_read s furnishing r)
  booted-Live blocked at e = l
  booted-Live (accepted rest) at e =
      let (first, others) =
        receive-accepted (is_dead s.child) true stage_child_booted s.to_parent e in
      ground (arith, l, at, first, others stage_child_booted)
  booted-Live refused at e = ground (arith, l, at)

  jailed-Live :
      (r : Reading)
      → s.parent ≡ awaiting_jailed
      → receive (is_dead s.child) true stage_child_jailed s.to_parent ≡ r
      → Live (parent_read s started r)
  jailed-Live blocked at e = l
  jailed-Live (accepted rest) at e =
      let (first, others) =
        receive-accepted (is_dead s.child) true stage_child_jailed s.to_parent e in
      ground (arith, l, at, first, others stage_child_booted)
  jailed-Live refused at e = ground (arith, l, at)

  dead-Live : Live (child_at s dead)
  dead-Live = ground (arith, l)

  configured-Live :
      (decodes : Bool) (r : Reading)
      → s.child ≡ receiving_config
      → receive (is_closed s.parent) decodes stage_config s.to_child ≡ r
      → Live (child_read s booting r)
  configured-Live decodes blocked at e = l
  configured-Live decodes refused at e = dead-Live
  configured-Live decodes (accepted rest) at e =
      let (first, others) =
        receive-accepted (is_closed s.parent) decodes stage_config s.to_child e in
      ground (arith, l, at, others stage_parent_ready, holds-filled stage_config s.to_child first)

  released-Live :
      (decodes : Bool) (r : Reading)
      → s.child ≡ awaiting_ready
      → receive (is_closed s.parent) decodes stage_parent_ready s.to_child ≡ r
      → Live (child_read s jailing r)
  released-Live decodes blocked at e = l
  released-Live decodes refused at e = dead-Live
  released-Live decodes (accepted rest) at e =
      let (first, others) =
        receive-accepted (is_closed s.parent) decodes stage_parent_ready s.to_child e in
      ground (arith, l, at, others stage_parent_ready, first)

parent_step-Live :
    (worked : Bool) (p : Parent) (s : System)
    → s.parent ≡ p
    → Live s
    → Live (parent_step worked p s)
unfolding parent_step
parent_step-Live true sending_config s at l = ground (
  arith,
  l,
  at,
  config_not_ready,
  filled-append s.to_child (with_body stage_config []),
  holds-append stage_parent_ready s.to_child (with_body stage_config []),
)
parent_step-Live worked awaiting_booted s at l = booted-Live s l _ at refl
parent_step-Live true furnishing s at l = ground (arith, l, at)
parent_step-Live false furnishing s at l = ground (arith, l, at)
parent_step-Live true releasing s at l =
    ground (arith, l, at, filled-append s.to_child (with_body stage_parent_ready []))
parent_step-Live worked awaiting_jailed s at l = jailed-Live s l _ at refl
parent_step-Live worked failing s at l = ground (arith, l, at)
parent_step-Live worked started s at l = l
parent_step-Live worked closed s at l = l
parent_step-Live false sending_config s at l = ground (arith, l, at)
parent_step-Live false releasing s at l = ground (arith, l, at)

child_step-Live :
    (hold worked : Bool) (c : Child) (s : System)
    → s.child ≡ c
    → Live s
    → Live (child_step hold worked c s)
unfolding child_step
child_step-Live hold worked receiving_config s at l = configured-Live s l worked _ at refl
child_step-Live hold true booting s at l = ground (
  arith,
  l,
  at,
  filled-append s.to_parent (signal stage_child_booted),
  holds-append stage_child_booted s.to_parent (signal stage_child_booted),
)
child_step-Live hold worked awaiting_ready s at l = released-Live s l worked _ at refl
child_step-Live hold worked running s at l = l
child_step-Live hold worked dead s at l = l
child_step-Live hold true jailing s at l = ground (arith, l, at)
child_step-Live hold false jailing s at l =
    ground (arith, l, at, holds-append stage_child_booted s.to_parent (failure []))
child_step-Live true true reporting s at l = ground (
  arith,
  l,
  at,
  filled-append s.to_parent (signal stage_child_jailed),
  holds-append stage_child_booted s.to_parent (signal stage_child_jailed),
)
child_step-Live false true reporting s at l = ground (
  arith,
  l,
  at,
  filled-append s.to_parent (signal stage_child_jailed),
  holds-append stage_child_booted s.to_parent (signal stage_child_jailed),
)
child_step-Live hold true holding s at l = ground (arith, l, at)
child_step-Live hold true launching s at l = ground (arith, l, at)
child_step-Live hold false booting s at l = dead-Live s l
child_step-Live hold false reporting s at l = dead-Live s l
child_step-Live hold false holding s at l = dead-Live s l
child_step-Live hold false launching s at l = dead-Live s l

step-Live : (hold : Bool) (m : Move) (s : System) → Live s → Live (step hold m s)
unfolding step
step-Live hold (parent_runs worked) s l = parent_step-Live worked s.parent s refl l
step-Live hold (child_runs worked) s l = child_step-Live hold worked s.child s refl l
step-Live hold child_killed s l = dead-Live s l

pub run-Live : (hold : Bool) (moves : List Move) (s : System) → Live s → Live (run hold moves s)
unfolding run
run-Live hold [] s l = l
run-Live hold (m ∷ moves) s l = run-Live hold moves (step hold m s) (step-Live hold m s l)
