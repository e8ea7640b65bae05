-- ===== src/Ipc/Handshake/Measure.antt =====
-- Each move that changes something leaves fewer operations to the two processes.
use husk.Base.{ℕ, ◌+◌, ◌<◌, ◌≡◌, refl, sym, ◌⊎◌, inl, inr, Bool, true, false, arith}
use husk.Ipc.Handshake.{
  Parent, sending_config, awaiting_booted, furnishing, releasing, awaiting_jailed, started, failing,
  closed, Child, receiving_config, booting, awaiting_ready, jailing, reporting, holding, launching,
  running, dead, System, Reading, blocked, accepted, refused, child_at, parent_read, child_read,
  parent_step, child_step, Move, parent_runs, child_runs, child_killed, step,
}

-- How many operations the two processes have left at most.
abbrev pub parent_left : Parent → ℕ
parent_left sending_config = 6
parent_left awaiting_booted = 5
parent_left furnishing = 4
parent_left releasing = 3
parent_left awaiting_jailed = 2
parent_left failing = 1
parent_left started = 0
parent_left closed = 0

abbrev pub child_left : Child → ℕ
child_left receiving_config = 8
child_left booting = 7
child_left awaiting_ready = 6
child_left jailing = 5
child_left reporting = 4
child_left holding = 3
child_left launching = 2
child_left running = 1
child_left dead = 0

abbrev pub left : System → ℕ
left s = parent_left s.parent + child_left s.child

-- A move that changes anything leaves fewer operations.
abbrev pub Lowers : System → System → Type 0
Lowers s t = (t ≡ s) ⊎ (left t < left s)

module _ (s : System) where
  parent_read-Lowers :
      (next : Parent) (r : Reading)
      → parent_left next < parent_left s.parent
      → 1 < parent_left s.parent
      → Lowers s (parent_read s next r)
  parent_read-Lowers next blocked lower more = inl refl
  parent_read-Lowers next (accepted rest) lower more = inr (omega (arith, lower))
  parent_read-Lowers next refused lower more = inr (omega (arith, more))

  child_read-Lowers :
      (next : Child) (r : Reading)
      → child_left next < child_left s.child
      → Lowers s (child_read s next r)
  child_read-Lowers next blocked lower = inl refl
  child_read-Lowers next (accepted rest) lower = inr (omega (arith, lower))
  child_read-Lowers next refused lower = inr (omega (arith, lower))

parent_step-Lowers :
    (worked : Bool) (p : Parent) (s : System) → s.parent ≡ p → Lowers s (parent_step worked p s)
unfolding parent_step
parent_step-Lowers true sending_config s at = inr (rw at (omega arith))
parent_step-Lowers worked awaiting_booted s at =
    parent_read-Lowers s furnishing _ (rw at (omega arith)) (rw at (omega arith))
parent_step-Lowers true furnishing s at = inr (rw at (omega arith))
parent_step-Lowers false furnishing s at = inr (rw at (omega arith))
parent_step-Lowers true releasing s at = inr (rw at (omega arith))
parent_step-Lowers worked awaiting_jailed s at =
    parent_read-Lowers s started _ (rw at (omega arith)) (rw at (omega arith))
parent_step-Lowers worked failing s at = inr (rw at (omega arith))
parent_step-Lowers worked started s at = inl refl
parent_step-Lowers worked closed s at = inl refl
parent_step-Lowers false sending_config s at = inr (rw at (omega arith))
parent_step-Lowers false releasing s at = inr (rw at (omega arith))

child_step-Lowers :
    (hold worked : Bool) (c : Child) (s : System)
    → s.child ≡ c
    → Lowers s (child_step hold worked c s)
unfolding child_step
child_step-Lowers hold worked receiving_config s at =
    child_read-Lowers s booting _ (rw at (omega arith))
child_step-Lowers hold true booting s at = inr (rw at (omega arith))
child_step-Lowers hold worked awaiting_ready s at =
    child_read-Lowers s jailing _ (rw at (omega arith))
child_step-Lowers hold worked running s at = inl refl
child_step-Lowers hold worked dead s at = inl refl
child_step-Lowers hold true jailing s at = inr (rw at (omega arith))
child_step-Lowers hold false jailing s at = inr (rw at (omega arith))
child_step-Lowers true true reporting s at = inr (rw at (omega arith))
child_step-Lowers false true reporting s at = inr (rw at (omega arith))
child_step-Lowers hold true holding s at = inr (rw at (omega arith))
child_step-Lowers hold true launching s at = inr (rw at (omega arith))
child_step-Lowers hold false booting s at = inr (rw at (omega arith))
child_step-Lowers hold false reporting s at = inr (rw at (omega arith))
child_step-Lowers hold false holding s at = inr (rw at (omega arith))
child_step-Lowers hold false launching s at = inr (rw at (omega arith))

kill-Lowers : (c : Child) (s : System) → s.child ≡ c → Lowers s (child_at s dead)
kill-Lowers dead s at = inl (rw (sym at) refl)
kill-Lowers running s at = inr (rw at (omega arith))
kill-Lowers launching s at = inr (rw at (omega arith))
kill-Lowers holding s at = inr (rw at (omega arith))
kill-Lowers reporting s at = inr (rw at (omega arith))
kill-Lowers jailing s at = inr (rw at (omega arith))
kill-Lowers awaiting_ready s at = inr (rw at (omega arith))
kill-Lowers booting s at = inr (rw at (omega arith))
kill-Lowers receiving_config s at = inr (rw at (omega arith))

pub step-Lowers : (hold : Bool) (m : Move) (s : System) → Lowers s (step hold m s)
unfolding step
step-Lowers hold (parent_runs worked) s = parent_step-Lowers worked s.parent s refl
step-Lowers hold (child_runs worked) s = child_step-Lowers hold worked s.child s refl
step-Lowers hold child_killed s = kill-Lowers s.child s refl
