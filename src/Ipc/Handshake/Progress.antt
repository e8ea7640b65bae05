-- ===== src/Ipc/Handshake/Progress.antt =====
-- The two processes never wait for each other, and the handshake ends.
use husk.Base.{
  ◌<◌, ◌≡◌, ◌≢◌, refl, sym, ◌⊎◌, inl, inr, Bool, true, false, ◌||◌, List, [], ◌∷◌, arith,
}
use husk.Base.Bytes.{Str}
use husk.Base.Outcome.{Outcome, ok, err}
use husk.Base.Action.{Error}
use husk.Ipc.{
  Message, await_json, stage_config, stage_child_booted, stage_parent_ready, stage_child_jailed,
}
use husk.Ipc.Handshake.{
  Parent, sending_config, awaiting_booted, furnishing, releasing, awaiting_jailed, started, failing,
  closed, Child, receiving_config, booting, awaiting_ready, jailing, reporting, holding, launching,
  running, dead, System, begin, Reading, blocked, accepted, refused, decoded, judged, receive,
  parent_read, child_read, parent_step, child_step, Move, parent_runs, child_runs, step, run,
  is_dead, is_closed,
}
use husk.Ipc.Handshake.Live.{filled, Live, run-Live}
use husk.Ipc.Handshake.Measure.{left, parent_left, child_left, Lowers, step-Lowers}

abbrev pub is_ended : Parent → Bool
is_ended started = true
is_ended closed = true
is_ended _ = false

-- A move of one of the two processes, in which what it tries succeeds.
abbrev pub is_success : Move → Bool
is_success (parent_runs true) = true
is_success (child_runs true) = true
is_success _ = false

-- A process that can go on.
abbrev pub Moves : Bool → System → Type 0
Moves hold s = (m : Move) × (is_success m ≡ true) × (left (step hold m s) < left s)

judged-moves : (r : Outcome Error (Unit {0})) (rest : List Message) → judged r rest ≢ blocked
judged-moves (ok _) rest e = cc
judged-moves (err _) rest e = cc

-- A read does not block if the pipe holds a message or its other end is closed.
not_blocked :
    (end_closed decodes : Bool) (want : Str) (q : List Message)
    → (filled q || end_closed) ≡ true
    → receive end_closed decodes want q ≢ blocked
unfolding receive
not_blocked true decodes want [] h e = cc
not_blocked false decodes want [] h e = cc
not_blocked end_closed decodes want (m ∷ q) h e =
    judged-moves (await_json (decoded decodes) want (ok m)) q e

module _ (hold : Bool) (s : System) where
  parent_goes : (p : Parent) → s.parent ≡ p → left (parent_step true p s) < left s → Moves hold s
  unfolding step
  parent_goes p at h = (parent_runs true, refl, rw (sym at) at h)

  child_goes : (c : Child) → s.child ≡ c → left (child_step hold true c s) < left s → Moves hold s
  unfolding step
  child_goes c at h = (child_runs true, refl, rw (sym at) at h)

  parent_reads :
      (next : Parent) (r : Reading)
      → r ≢ blocked
      → parent_left next < parent_left s.parent
      → 1 < parent_left s.parent
      → left (parent_read s next r) < left s
  parent_reads next blocked some_reading lower more = absurd (some_reading refl)
  parent_reads next (accepted rest) some_reading lower more = omega (arith, lower)
  parent_reads next refused some_reading lower more = omega (arith, more)

  child_reads :
      (next : Child) (r : Reading)
      → r ≢ blocked
      → child_left next < child_left s.child
      → left (child_read s next r) < left s
  child_reads next blocked some_reading lower = absurd (some_reading refl)
  child_reads next (accepted rest) some_reading lower = omega (arith, lower)
  child_reads next refused some_reading lower = omega (arith, lower)

  hears_booted :
      s.parent ≡ awaiting_booted → (filled s.to_parent || is_dead s.child) ≡ true → Moves hold s
  unfolding parent_step
  hears_booted at h = parent_goes awaiting_booted at (
      parent_reads furnishing _
        (not_blocked (is_dead s.child) true stage_child_booted s.to_parent h) (rw at (omega arith))
        (rw at (omega arith)))

  hears_jailed :
      s.parent ≡ awaiting_jailed → (filled s.to_parent || is_dead s.child) ≡ true → Moves hold s
  unfolding parent_step
  hears_jailed at h = parent_goes awaiting_jailed at (
      parent_reads started _ (not_blocked (is_dead s.child) true stage_child_jailed s.to_parent h)
        (rw at (omega arith)) (rw at (omega arith)))

  hears_config :
      s.child ≡ receiving_config → (filled s.to_child || is_closed s.parent) ≡ true → Moves hold s
  unfolding child_step
  hears_config at h = child_goes receiving_config at (
      child_reads booting _ (not_blocked (is_closed s.parent) true stage_config s.to_child h)
        (rw at (omega arith)))

  hears_ready :
      s.child ≡ awaiting_ready → (filled s.to_child || is_closed s.parent) ≡ true → Moves hold s
  unfolding child_step
  hears_ready at h = child_goes awaiting_ready at (
      child_reads jailing _ (not_blocked (is_closed s.parent) true stage_parent_ready s.to_child h)
        (rw at (omega arith)))

  booted-progress : (c : Child) → s.parent ≡ awaiting_booted → s.child ≡ c → Live s → Moves hold s
  unfolding child_step
  booted-progress receiving_config ap ac l = hears_config ac (ground (arith, l, ap, ac))
  booted-progress booting ap ac l = child_goes booting ac (rw ac (omega arith))
  booted-progress awaiting_ready ap ac l = hears_booted ap (ground (arith, l, ap, ac))
  booted-progress dead ap ac l = hears_booted ap (ground (arith, l, ap, ac))
  booted-progress jailing ap ac l = absurd (ground (arith, l, ap, ac))
  booted-progress reporting ap ac l = absurd (ground (arith, l, ap, ac))
  booted-progress holding ap ac l = absurd (ground (arith, l, ap, ac))
  booted-progress launching ap ac l = absurd (ground (arith, l, ap, ac))
  booted-progress running ap ac l = absurd (ground (arith, l, ap, ac))

  jailed-progress : (c : Child) → s.parent ≡ awaiting_jailed → s.child ≡ c → Live s → Moves hold s
  unfolding child_step
  jailed-progress receiving_config ap ac l = absurd (ground (arith, l, ap, ac))
  jailed-progress booting ap ac l = absurd (ground (arith, l, ap, ac))
  jailed-progress awaiting_ready ap ac l = hears_ready ac (ground (arith, l, ap, ac))
  jailed-progress dead ap ac l = hears_jailed ap (ground (arith, l, ap, ac))
  jailed-progress jailing ap ac l = child_goes jailing ac (rw ac (omega arith))
  jailed-progress reporting ap ac l = child_goes reporting ac (reports hold ac)
    where
      reports : (h : Bool) → s.child ≡ reporting → left (child_step h true reporting s) < left s
      reports true ac = rw ac (omega arith)
      reports false ac = rw ac (omega arith)
  jailed-progress holding ap ac l = hears_jailed ap (ground (arith, l, ap, ac))
  jailed-progress launching ap ac l = hears_jailed ap (ground (arith, l, ap, ac))
  jailed-progress running ap ac l = hears_jailed ap (ground (arith, l, ap, ac))

  progress : (p : Parent) → s.parent ≡ p → Live s → (is_ended p ≡ true) ⊎ Moves hold s
  unfolding parent_step
  progress sending_config at l = inr (parent_goes sending_config at (rw at (omega arith)))
  progress awaiting_booted at l = inr (booted-progress s.child at refl l)
  progress furnishing at l = inr (parent_goes furnishing at (rw at (omega arith)))
  progress releasing at l = inr (parent_goes releasing at (rw at (omega arith)))
  progress awaiting_jailed at l = inr (jailed-progress s.child at refl l)
  progress started at l = inl refl
  progress failing at l = inr (parent_goes failing at (rw at (omega arith)))
  progress closed at l = inl refl

-- The handshake ends and cannot deadlock: in every state that the two processes reach by some
-- interleaving, each further move leaves the state as it is or lowers the number of operations that
-- are left, which is 14 at the beginning; and unless spawn.Start has ended, with a container or with
-- its child killed, one of the two processes can make an operation that lowers the number.
pub run-progresses :
    (hold : Bool) (moves : List Move) (m : Move)
    → let s = run hold moves begin in
      Lowers s (step hold m s) × ((is_ended s.parent ≡ true) ⊎ Moves hold s)
run-progresses hold moves m =
    let s = run hold moves begin in
    (
      step-Lowers hold m s,
      progress hold s s.parent refl (run-Live hold moves begin (refl, refl, refl)),
    )
