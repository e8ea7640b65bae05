-- ===== src/Security/Capabilities/Trace.antt =====
-- The system calls that a successful DropCapabilities makes, in order, and what they leave.
use husk.Base.{
  ℕ, zero, suc, ◌+◌, ◌≡◌, refl, ◌∙◌, Bool, false, not, ◌&&◌, ◌||◌, none, List, [], ◌∷◌, ◌++◌, map,
  append-nil, append_assoc, arith, contains, leb, ltb, ◌==◌, if◌then◌else◌, Bool-cases, inl, inr,
}
use husk.Base.Bytes.{codes}
use husk.Kernel.{Kernel, Call, ambient_clear, bounding_drop, capset, ambient_raise, invoke}
use husk.Base.Action.{◌>>=◌, context, ◌>>◌, asks}
use husk.Kernel.Runs.{Returns, called, invoked, >>-Returns}
use husk.Security.Capabilities.{
  last_cap, last_of, shrink_bounding, mask_word, raise_ambient, drop_to, is_einval,
  is_einval_or_eperm,
}

-- One drop for each capability from `c` on that is not wanted.
abbrev pub drops : List ℕ → ℕ → ℕ → List Call
drops wanted zero c = []
drops wanted (suc rounds) c =
    let rest = drops wanted rounds (c + 1) in
    if contains wanted c then rest else bounding_drop c ∷ rest

-- The log after one more call, with the calls that follow.
cons-log :
    (log : List Call) (c : Call) (rest : List Call) → (log ++ c ∷ []) ++ rest ≡ log ++ c ∷ rest
cons-log log c rest = append_assoc log (c ∷ []) rest

pub shrink_bounding-Returns :
    (wanted : List ℕ) (rounds c : ℕ) (k : Kernel) (log : List Call) {after : List Call}
    → Returns (shrink_bounding wanted rounds c) k log tt after
    → after ≡ log ++ drops wanted rounds c
unfolding shrink_bounding
shrink_bounding-Returns wanted zero c k log h = cc (append-nil log)
shrink_bounding-Returns wanted (suc rounds) c k log {after} h =
    elim (Bool-cases (contains wanted c)) [
      | inl kept ↦ rw kept (shrink_bounding-Returns wanted rounds (c + 1) k log (rw kept at h))
      | inr dropped ↦
          let rest = shrink_bounding wanted rounds (c + 1) in
          let (_, next) =
            called k "drop bounding capability" is_einval_or_eperm (bounding_drop c) rest log
              (rw dropped at h) in
          rw dropped (
            shrink_bounding-Returns wanted rounds (c + 1) k (log ++ bounding_drop c ∷ []) next
            ∙ cons-log log _ _)
    ]

pub raise_ambient-Returns :
    (order : List ℕ) (k : Kernel) (log : List Call) {after : List Call}
    → Returns (raise_ambient order) k log tt after
    → after ≡ log ++ map ambient_raise order
unfolding raise_ambient
raise_ambient-Returns [] k log h = cc (append-nil log)
raise_ambient-Returns (c ∷ rest) k log h =
    let (_, next) =
      called k "raise ambient capability" is_einval_or_eperm (ambient_raise c) (raise_ambient rest)
        log h in
    raise_ambient-Returns rest k (log ++ ambient_raise c ∷ []) next ∙ cons-log log _ _

regroup :
    (log : List Call) (a : Call) (mid : List Call) (b : Call) (rest : List Call)
    → (((log ++ a ∷ []) ++ mid) ++ b ∷ []) ++ rest ≡ log ++ a ∷ (mid ++ b ∷ rest)
regroup log a mid b rest = simp append_assoc

-- The highest capability, as lastCap reads it once the ambient set is cleared.
abbrev pub last_seen : Kernel → List Call → ℕ
last_seen k log =
    last_of (k.read (log ++ ambient_clear ∷ []) (codes "/proc/sys/kernel/cap_last_cap"))

abbrev pub capset_of : List ℕ → Call
capset_of wanted = capset (mask_word 0 0 wanted) (mask_word 1 0 wanted)

-- The calls of steps 1 to 4, where nothing is refused.
abbrev pub drop_calls : Kernel → List Call → List ℕ → List Call
drop_calls k log wanted =
    ambient_clear
    ∷ (drops wanted (suc (last_seen k log)) 0
        ++ capset_of wanted ∷ map ambient_raise (k.range wanted))

-- The log in which capset is called.
abbrev pub before_capset : Kernel → List Call → List ℕ → List Call
before_capset k log wanted = (log ++ ambient_clear ∷ []) ++ drops wanted (suc (last_seen k log)) 0

pub drop_to-Returns :
    (wanted : List ℕ) (k : Kernel) (log : List Call) {after : List Call}
    → Returns (drop_to wanted) k log tt after
    → (after ≡ log ++ drop_calls k log wanted)
      × (k.act (before_capset k log wanted) (capset_of wanted) ≡ none)
unfolding drop_to last_cap
drop_to-Returns wanted k log {after} h =
    let last = last_seen k log in
    let raising = asks (λ (k : Kernel). k.range wanted) >>= raise_ambient in
    let setting = context "capset" (invoke (capset_of wanted)) >> raising in
    let (_, h1) =
      called k "clear ambient set" is_einval ambient_clear
        (last_cap >>= λ last. (shrink_bounding wanted (suc last) 0 >> setting)) log h in
    let (mid, p, h2) =
      >>-Returns k (shrink_bounding wanted (suc last) 0) setting (log ++ ambient_clear ∷ []) h1 in
    let e = shrink_bounding-Returns wanted (suc last) 0 k (log ++ ambient_clear ∷ []) p in
    let (set, h3) = invoked k "capset" (capset_of wanted) raising mid h2 in
    let r = raise_ambient-Returns (k.range wanted) k (mid ++ capset_of wanted ∷ []) h3 in
    (r ∙ (rw e (regroup log ambient_clear _ (capset_of wanted) _)), rw e at set)

-- A log has a drop of capability `c` from the bounding set.
abbrev pub dropped : ℕ → List Call → Bool
dropped c [] = false
dropped c (bounding_drop d ∷ rest) = c == d || dropped c rest
dropped c (_ ∷ rest) = dropped c rest

abbrev pub raised : ℕ → List Call → Bool
raised c [] = false
raised c (ambient_raise d ∷ rest) = c == d || raised c rest
raised c (_ ∷ rest) = raised c rest

pub dropped-append :
    (c : ℕ) (xs ys : List Call) → dropped c (xs ++ ys) ≡ (dropped c xs || dropped c ys)
dropped-append c [] ys = refl
dropped-append c (bounding_drop d ∷ xs) ys = ground (arith, dropped-append c xs ys)
dropped-append c (_ ∷ xs) ys = dropped-append c xs ys

pub raised-append : (c : ℕ) (xs ys : List Call) → raised c (xs ++ ys) ≡ (raised c xs || raised c ys)
raised-append c [] ys = refl
raised-append c (ambient_raise d ∷ xs) ys = ground (arith, raised-append c xs ys)
raised-append c (_ ∷ xs) ys = raised-append c xs ys

pub dropped-drops :
    (wanted : List ℕ) (rounds from c : ℕ)
    → dropped c (drops wanted rounds from)
      ≡ (leb from c && ltb c (from + rounds) && not (contains wanted c))
dropped-drops wanted zero from c = ground arith
dropped-drops wanted (suc rounds) from c = elim (Bool-cases (contains wanted from)) [
  | inl kept ↦ rw kept (ground (arith, dropped-drops wanted rounds (from + 1) c))
  | inr gone ↦ rw gone (ground (arith, dropped-drops wanted rounds (from + 1) c))
]

pub dropped-raises : (order : List ℕ) (c : ℕ) → dropped c (map ambient_raise order) ≡ false
dropped-raises [] c = refl
dropped-raises (d ∷ rest) c = dropped-raises rest c

pub raised-raises : (order : List ℕ) (c : ℕ) → raised c (map ambient_raise order) ≡ contains order c
raised-raises [] c = refl
raised-raises (d ∷ rest) c = ground (arith, raised-raises rest c)

pub raised-drops :
    (wanted : List ℕ) (rounds from c : ℕ) → raised c (drops wanted rounds from) ≡ false
raised-drops wanted zero from c = refl
raised-drops wanted (suc rounds) from c = ground (arith, raised-drops wanted rounds (from + 1) c)
