-- ===== src/Kernel/Fails.antt =====
-- Actions that fail, taken apart as Kernel/Runs takes apart those that return.
use husk.Base.{false, ◌≡◌, ◌⊎◌, inl, inr, refl, Option, none, some, String, List, [], ◌∷◌, ◌++◌}
use husk.Base.Outcome.{Outcome, ok, err}
use husk.Base.Action.{Errno, Error, context, relabel, continue, unless_errno, ◌>>=◌}
use husk.Kernel.{Kernel, Call, Sys, invoke}
use husk.Kernel.Runs.{Returns}

module _ (k : Kernel) where
  -- A sequence fails in its first part, or in what follows it.
  pub bind-Fails :
      {A B : Type 0} (m : Sys A) (f : A → Sys B) (log : List Call) {e : Error} {after : List Call}
      → (m >>= f) k log ≡ (err e, after)
      → (m k log ≡ (err e, after))
        ⊎ ((a : A) × (mid : List Call) × Returns m k log a mid × (f a k mid ≡ (err e, after)))
  bind-Fails {A} {B} m f log {e} {after} h = go (m k log) h
    where
      go :
          (r : Outcome Error A × List Call)
          → continue r f k ≡ (err e, after)
          → (r ≡ (err e, after))
            ⊎ ((a : A) × (mid : List Call) × (r ≡ (ok a, mid)) × (f a k mid ≡ (err e, after)))
      go (ok a, mid) q = inr (a, mid, refl, q)
      go (err x, mid) q = inl cc

  -- A call fails exactly where the kernel refuses it.
  pub call-Fails :
      (label : String) (c : Call) (log : List Call) {e : Error} {after : List Call}
      → context label (invoke c) k log ≡ (err e, after)
      → (after ≡ log ++ c ∷ []) × ((x : Errno) × (k.act log c ≡ some x))
  call-Fails label c log {e} {after} h = go (k.act log c) refl h
    where
      go :
          (o : Option Errno)
          → k.act log c ≡ o
          → relabel label (unless_errno (λ x. false) o k (log ++ c ∷ [])) ≡ (err e, after)
          → (after ≡ log ++ c ∷ []) × ((x : Errno) × (k.act log c ≡ some x))
      go none same q = absurd (cc q)
      go (some x) same q = (cc q, (x, same))
