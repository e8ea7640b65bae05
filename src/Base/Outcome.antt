-- ===== src/Base/Outcome.antt =====
-- Results that are a value or an error, and their sequencing.
use mathlib.Core.Path.{◌≡◌, refl}

-- Go's pair of a value and an `error`: a value or an error, never both.
pub data Outcome (E A : Type 0) : Type 0 where
  ok : A → Outcome E A
  err : E → Outcome E A

-- if err != nil { return err }
infixl 5 ◌>>=◌
abbrev pub ◌>>=◌ :
    {Err Val Next : Type 0} → Outcome Err Val → (Val → Outcome Err Next) → Outcome Err Next
err problem >>= next = err problem
ok value >>= next = next value

-- The value behind a step that succeeded.
pub bind-ok :
    {Err Val Next : Type 0} (o : Outcome Err Val) (next : Val → Outcome Err Next) (b : Next)
    → (o >>= next) ≡ ok b
    → (a : Val) × (o ≡ ok a) × (next a ≡ ok b)
bind-ok (ok a) next b h = (a, refl, h)
bind-ok (err e) next b h = absurd (cc h)
