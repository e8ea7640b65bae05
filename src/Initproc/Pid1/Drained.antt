-- ===== src/Initproc/Pid1/Drained.antt =====
-- The loop of reap ends, and PID 1 exits as its child did.
use husk.Base.{
  ℕ, suc, zero, ◌+◌, ◌≤◌, ◌<◌, ◌≡◌, ◌≢◌, ◌⊎◌, inl, inr, refl, Bool-cases, Option, none, some, List,
  [], ◌∷◌, ◌++◌, ◌==◌, arith, All,
}
use husk.Initproc.Pid1.{
  Fate, exited, signaled, Wait, interrupted, ended, drained, reap, exit_code, Event, child_changed,
  signal, supervise,
}

-- wait4 is called until its answer with number `n` says that no child is left, and no earlier one does.
abbrev pub Drains : (ℕ → Wait) → ℕ → Type 0
Drains waits n = (waits n ≡ drained) × ((j : ℕ) → j < n → waits j ≢ drained)

-- The fate that `found` or one of the answers from `i` up to `n` tells of `direct`.
abbrev pub Told : (ℕ → Wait) → ℕ → ℕ → ℕ → Option Fate → Option Fate → Type 0
Told waits i n direct found none =
    (found ≡ none) × ((j : ℕ) (f : Fate) → i ≤ j → j < n → waits j ≢ ended direct f)
Told waits i n direct found (some f) =
    (found ≡ some f) ⊎ ((j : ℕ) × (i ≤ j) × (j < n) × (waits j ≡ ended direct f))

-- An answer that does not tell of `direct`, and one that does.
Told-pass :
    (waits : ℕ → Wait) (i n direct : ℕ) (found out : Option Fate)
    → ((f : Fate) → waits i ≢ ended direct f)
    → Told waits (suc i) n direct found out
    → Told waits i n direct found out
Told-pass waits i n direct found none other (e, none_later) = (e, none_here)
  where
    none_here : (j : ℕ) (f : Fate) → i ≤ j → j < n → waits j ≢ ended direct f
    none_here j f low high = elim (Bool-cases (i == j)) [
      | inl same ↦ let e : i ≡ j = ground arith in rw e at other f
      | inr apart ↦ none_later j f (ground arith) high
    ]
Told-pass waits i n direct found (some g) other told = elim told [
  | inl e ↦ inl e
  | inr q ↦ inr (q.0, omega (arith, q.1), q.2, q.3)
]

Told-take :
    (waits : ℕ → Wait) (i n direct : ℕ) (f : Fate) (found out : Option Fate)
    → i < n
    → waits i ≡ ended direct f
    → Told waits (suc i) n direct (some f) out
    → Told waits i n direct found out
Told-take waits i n direct f found none lt this told = absurd (cc told.0)
Told-take waits i n direct f found (some g) lt this told = elim told [
  | inl e ↦ let same : f ≡ g = cc in inr (i, omega arith, lt, rw same at this)
  | inr q ↦ inr (q.0, omega (arith, q.1), q.2, q.3)
]

Told-end :
    (waits : ℕ → Wait) (i n direct : ℕ) (found : Option Fate)
    → n ≤ i
    → Told waits i n direct found found
Told-end waits i n direct none past =
    (refl, λ j f low high. absurd (omega (arith, low, high, past)))
Told-end waits i n direct (some f) past = inl refl

module _ (waits : ℕ → Wait) (n direct : ℕ) (d : Drains waits n) where
  abbrev Result : ℕ → ℕ → Option Fate → Type 0
  Result fuel i found =
      (out : Option Fate) × (reap fuel waits i direct found ≡ some (out, suc n))
      × Told waits i n direct found out

  one_round :
      (fuel i : ℕ) (found : Option Fate) (w : Wait)
      → i < n
      → waits i ≡ w
      → ((next : Option Fate) → Result fuel (suc i) next)
      → Result (suc fuel) i found
  unfolding reap
  one_round fuel i found drained lt e ih = absurd (d.1 i lt e)
  one_round fuel i found interrupted lt e ih =
      let (out, r, t) = ih found in
      (out, rw (e, reap) r, Told-pass waits i n direct found out (λ f h. cc (e, h)) t)
  one_round fuel i found (ended pid f) lt e ih = elim (Bool-cases (pid == direct)) [
    | inl same ↦
        let (out, r, t) = ih (some f) in
        let p : pid ≡ direct = ground arith in
        (out, rw (e, same, reap) r, Told-take waits i n direct f found out lt (rw p at e) t)
    | inr apart ↦
        let (out, r, t) = ih found in
        (
          out,
          rw (e, apart, reap) r,
          Told-pass waits i n direct found out (λ g h. ground (arith, e, h, apart)) t,
        )
  ]

  reap-from :
      (gap fuel i : ℕ) (found : Option Fate) → i + gap ≡ n → gap < fuel → Result fuel i found
  unfolding reap
  reap-from gap zero i found here enough = absurd (omega (arith, enough))
  reap-from zero (suc fuel) i found here enough =
      let at : i ≡ n = omega (arith, here) in
      let w : waits i ≡ drained = rw at d.0 in
      let e : suc i ≡ suc n = rw at refl in
      (found, rw (w, e, reap) refl, Told-end waits i n direct found (omega (arith, here)))
  reap-from (suc gap) (suc fuel) i found here enough =
      one_round fuel i found (waits i) (omega (arith, here)) refl
        (λ next. reap-from gap fuel (suc i) next (omega (arith, here)) (omega (arith, enough)))

-- The loop of reap ends: if the answer of wait4 with number n is the first to say that no child is
-- left, any fuel above n is enough, exactly n + 1 calls are made, so that every child that ended
-- before is collected, and the loop reports the supervised child as ended exactly with a fate that one
-- of these answers told of it, and as still running exactly if none did.
pub reap-Drains :
    (waits : ℕ → Wait) (n direct fuel : ℕ)
    → Drains waits n
    → n < fuel
    → (out : Option Fate) × (reap fuel waits 0 direct none ≡ some (out, suc n))
      × Told waits 0 n direct none out
reap-Drains waits n direct fuel d enough =
    reap-from waits n direct d n fuel 0 none (omega arith) enough

-- What an event does to a running supervisor: it is relayed, or it is a SIGCHLD behind which the
-- child is still running.
abbrev pub Passed : ℕ → ℕ → Event → Type 0
Passed fuel child (signal s) = Unit
Passed fuel child (child_changed waits) =
    (n : ℕ) × Drains waits n × (n < fuel) × ((j : ℕ) (f : Fate) → j < n → waits j ≢ ended child f)

abbrev pub signals : List Event → List ℕ
signals [] = []
signals (signal s ∷ events) = s ∷ signals events
signals (child_changed waits ∷ events) = signals events

Passed-reap :
    (fuel child : ℕ) (waits : ℕ → Wait)
    → Passed fuel child (child_changed waits)
    → (n : ℕ) × (reap fuel waits 0 child none ≡ some (none, n))
Passed-reap fuel child waits (n, d, lt, quiet) = go (reap-Drains waits n child fuel d lt)
  where
    go :
        (out : Option Fate) × (reap fuel waits 0 child none ≡ some (out, suc n))
          × Told waits 0 n child none out
        → (n : ℕ) × (reap fuel waits 0 child none ≡ some (none, n))
    go (none, e, t) = (suc n, e)
    go (some f, e, t) = absurd (elim t [ inl x ↦ cc x | inr q ↦ quiet q.0 f q.2 q.3 ])

-- The shell's convention for how a process ended.
abbrev pub status_of : Fate → ℕ
status_of (exited n) = n
status_of (signaled n) = 128 + n

-- Behind a SIGCHLD wait4 tells, among answers that it gives until no child is left, that the child ended,
-- and it tells no other end of it.
abbrev pub Ends : ℕ → ℕ → (ℕ → Wait) → Fate → Type 0
Ends fuel child waits fate =
    (n : ℕ) × Drains waits n
    × (n < fuel)
    × ((j : ℕ) × (j < n) × (waits j ≡ ended child fate))
    × ((j : ℕ) (f : Fate) → j < n → waits j ≡ ended child f → f ≡ fate)

Ends-reap :
    (fuel child : ℕ) (waits : ℕ → Wait) (fate : Fate)
    → Ends fuel child waits fate
    → (n : ℕ) × (reap fuel waits 0 child none ≡ some (some fate, n))
Ends-reap fuel child waits fate (n, d, lt, last, only) = go (reap-Drains waits n child fuel d lt)
  where
    go :
        (out : Option Fate) × (reap fuel waits 0 child none ≡ some (out, suc n))
          × Told waits 0 n child none out
        → (n : ℕ) × (reap fuel waits 0 child none ≡ some (some fate, n))
    go (none, e, t) = absurd (t.1 last.0 fate (omega arith) last.1 last.2)
    go (some f, e, t) = elim t [
      | inl x ↦ absurd (cc x)
      | inr q ↦ let same : f ≡ fate = only q.0 f q.2 q.3 in (suc n, rw same at e)
    ]

exit_code-status : (fate : Fate) → exit_code fate ≡ status_of fate
unfolding exit_code
exit_code-status (exited n) = refl
exit_code-status (signaled n) = refl

-- The supervisor relays every signal but SIGCHLD to its child, in order, for as long as the child
-- runs, and exits as the child did, with 128 and the number of the signal if one ended it, at the
-- first SIGCHLD behind which wait4 tells that the child ended, if each loop of wait4 comes, within the
-- fuel, to an answer that no child is left.
pub supervise-exits :
    (fuel child : ℕ) (before after : List Event) (waits : ℕ → Wait) (fate : Fate)
    → All (Passed fuel child) before
    → Ends fuel child waits fate
    → supervise fuel child (before ++ child_changed waits ∷ after)
      ≡ some (record { relayed = signals before; exit = some (status_of fate) })
unfolding supervise
supervise-exits fuel child [] after waits fate passed ends =
    let (n, e) = Ends-reap fuel child waits fate ends in rw (e, exit_code-status fate) refl
supervise-exits fuel child (signal s ∷ before) after waits fate passed ends =
    rw (supervise-exits fuel child before after waits fate passed.1 ends) refl
supervise-exits fuel child (child_changed w ∷ before) after waits fate passed ends =
    let (m, e) = Passed-reap fuel child w passed.0 in
    rw e (supervise-exits fuel child before after waits fate passed.1 ends)
