-- ===== src/Kernel/Runs.antt =====
-- A run of an action that returns a value, taken apart along its parts.
use husk.Base.{
  ◌≡◌, refl, Bool, true, false, Option, none, some, List, [], ◌∷◌, ◌++◌, String, Bool-cases, ◌⊎◌,
  inl, inr, arith,
}
use husk.Base.Outcome.{Outcome, ok, err}
use husk.Kernel.{Kernel, Call, Sys, tolerate, invoke}
use husk.Base.Action.{
  Errno, Error, ◌>>=◌, ◌>>◌, lift, continue, context, relabel, unless_errno, when,
}

-- `m` returns `a` and leaves the log `after`.
abbrev pub Returns : {A : Type 0} → Sys A → Kernel → List Call → A → List Call → Type 0
Returns m k log a after = m k log ≡ (ok a, after)

module _ {A B : Type 0} (f : A → Sys B) (k : Kernel) {b : B} {after : List Call} where
  split :
      (r : Outcome Error A × List Call)
      → continue r f k ≡ (ok b, after)
      → (a : A) × (mid : List Call) × (r ≡ (ok a, mid)) × (f a k mid ≡ (ok b, after))
  split (ok a, mid) h = (a, mid, refl, h)
  split (err e, mid) h = absurd (cc h)

  -- Each half of a bind returned.
  pub >>=-Returns :
      (m : Sys A) (log : List Call)
      → Returns (m >>= f) k log b after
      → (a : A) × (mid : List Call) × Returns m k log a mid × Returns (f a) k mid b after
  >>=-Returns m log h = split (m k log) h

module _ {A : Type 0} (label : String) {a : A} {after : List Call} where
  unlabel : (r : Outcome Error A × List Call) → relabel label r ≡ (ok a, after) → r ≡ (ok a, after)
  unlabel (ok b, mid) h = h
  unlabel (err e, mid) h = absurd (cc h)

  pub context-Returns :
      (m : Sys A) (k : Kernel) (log : List Call)
      → Returns (context label m) k log a after
      → Returns m k log a after
  context-Returns m k log h = unlabel (m k log) h

-- A call that did not fail for a reason that is not ignored.
pub tolerate-Returns :
    (ignored : Errno → Bool) (c : Call) (k : Kernel) (log : List Call) {after : List Call}
    → Returns (tolerate ignored c) k log tt after
    → (after ≡ log ++ c ∷ [])
      × ((k.act log c ≡ none) ⊎ ((e : Errno) × (k.act log c ≡ some e) × (ignored e ≡ true)))
tolerate-Returns ignored c k log {after} h = go (k.act log c) refl h
  where
    go :
        (o : Option Errno)
        → k.act log c ≡ o
        → unless_errno ignored o k (log ++ c ∷ []) ≡ (ok tt, after)
        → (after ≡ log ++ c ∷ [])
          × ((k.act log c ≡ none) ⊎ ((e : Errno) × (k.act log c ≡ some e) × (ignored e ≡ true)))
    go none e h = (cc, inl e)
    go (some x) e h = elim (Bool-cases (ignored x)) [
      | inl skip ↦ (ground arith, inr (x, e, skip))
      | inr stop ↦ absurd (ground arith)
    ]

pub invoke-Returns :
    (c : Call) (k : Kernel) (log : List Call) {after : List Call}
    → Returns (invoke c) k log tt after
    → (after ≡ log ++ c ∷ []) × (k.act log c ≡ none)
invoke-Returns c k log h =
    let (e, r) = tolerate-Returns (λ _. false) c k log h in
    (e, elim r [ inl done ↦ done | inr q ↦ absurd (cc q.2) ])

module _ {B : Type 0} (k : Kernel) {b : B} {after : List Call} where
  -- The first of two actions in a row returned, and then the second.
  pub >>-Returns :
      (m : Sys (Unit {0})) (n : Sys B) (log : List Call)
      → Returns (m >> n) k log b after
      → (mid : List Call) × Returns m k log tt mid × Returns n k mid b after
  >>-Returns m n log h = let (_, mid, p, q) = >>=-Returns (λ _. n) k m log h in (mid, p, q)

  -- After a call that did not end the action, the rest runs with that call in the log.
  pub called :
      (label : String) (ignored : Errno → Bool) (c : Call) (n : Sys B) (log : List Call)
      → Returns (context label (tolerate ignored c) >> n) k log b after
      → ((k.act log c ≡ none) ⊎ ((e : Errno) × (k.act log c ≡ some e) × (ignored e ≡ true)))
        × Returns n k (log ++ c ∷ []) b after
  called label ignored c n log h =
      let (mid, p, q) = >>-Returns (context label (tolerate ignored c)) n log h in
      let (e, r) =
        tolerate-Returns ignored c k log (context-Returns label (tolerate ignored c) k log p) in
      (r, rw e at q)

  pub invoked :
      (label : String) (c : Call) (n : Sys B) (log : List Call)
      → Returns (context label (invoke c) >> n) k log b after
      → (k.act log c ≡ none) × Returns n k (log ++ c ∷ []) b after
  invoked label c n log h =
      let (mid, p, q) = >>-Returns (context label (invoke c)) n log h in
      let (e, r) = invoke-Returns c k log (context-Returns label (invoke c) k log p) in
      (r, rw e at q)

-- A pure step returned a value, and the rest runs from the same log.
pub lifted :
    {A B : Type 0} (r : Outcome Error A) (f : A → Sys B) (k : Kernel) (log : List Call) {b : B}
    {after : List Call}
    → Returns (lift r >>= f) k log b after
    → (a : A) × (r ≡ ok a) × Returns (f a) k log b after
lifted (ok a) f k log h = (a, refl, h)
lifted (err e) f k log h = absurd (cc h)

-- The same for a step whose errors are labelled.
pub lifted_as :
    {A B : Type 0} (label : String) (r : Outcome Error A) (f : A → Sys B) (k : Kernel)
    (log : List Call) {b : B} {after : List Call}
    → Returns (context label (lift r) >>= f) k log b after
    → (a : A) × (r ≡ ok a) × Returns (f a) k log b after
lifted_as label (ok a) f k log h = (a, refl, h)
lifted_as label (err e) f k log h = absurd (cc h)

-- A guarded action whose guard holds.
pub when-true :
    (b : Bool) (m : Sys (Unit {0})) (k : Kernel) (log : List Call) {after : List Call}
    → b ≡ true
    → Returns (when b m) k log tt after
    → Returns m k log tt after
when-true true m k log on h = h
when-true false m k log on h = absurd (cc on)
