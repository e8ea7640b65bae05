-- ===== src/Base/Action.antt =====
-- Actions that fail with a Go `error` and record the operations that they perform. An action takes
-- an environment `K`, which answers, and the log of the operations `C` performed so far.
use husk.Base.Tests.{if◌then◌else◌}
use mathlib.Core.Bool.{Bool, true, false}
use mathlib.Core.Option.{Option, none, some}
use mathlib.Core.List.{List, [], ◌∷◌}
use Prim.Native.Nat.{ℕ}
use Prim.Native.String.{String}
use husk.Base.Outcome.{Outcome, ok, err}

-- syscall.Errno: the values that husk tells apart, and all others.
pub data Errno : Type 0 where
  eperm einval eexist enoent eacces eintr eagain esrch : Errno
  other : ℕ → Errno

-- A Go `error`: a bare errno, a message around another error (fmt.Errorf with %w), or a message.
pub data Error : Type 0 where
  errno : Errno → Error
  wrapped : String → Error → Error
  message : String → Error

abbrev pub Action : Type 0 → Type 0 → Type 0 → Type 0
Action K C A = K → List C → Outcome Error A × List C

module _ {K C : Type 0} where
  abbrev pub pure : {A : Type 0} → A → Action K C A
  pure a k log = (ok a, log)

  abbrev pub fail : {A : Type 0} → Error → Action K C A
  fail e k log = (err e, log)

  abbrev pub lift : {A : Type 0} → Outcome Error A → Action K C A
  lift r k log = (r, log)

  abbrev pub asks : {A : Type 0} → (K → A) → Action K C A
  asks f k log = (ok (f k), log)

  abbrev pub continue :
      {A B : Type 0} → Outcome Error A × List C → (A → Action K C B) → K → Outcome Error B × List C
  continue (ok a, log) f k = f a k log
  continue (err e, log) f k = (err e, log)

  infixl 5 ◌>>=◌ ◌>>◌
  abbrev pub ◌>>=◌ : {A B : Type 0} → Action K C A → (A → Action K C B) → Action K C B
  ◌>>=◌ m f k log = continue (m k log) f k

  abbrev pub ◌>>◌ : {B : Type 0} → Action K C (Unit {0}) → Action K C B → Action K C B
  m >> n = m >>= λ _. n

  -- The error of an action as a value.
  abbrev pub try : {A : Type 0} → Action K C A → Action K C (Outcome Error A)
  try m k log = let (r, log') = m k log in (ok r, log')

  abbrev pub unless_errno : (Errno → Bool) → Option Errno → Action K C (Unit {0})
  unless_errno ignored none = pure tt
  unless_errno ignored (some e) = if ignored e then pure tt else fail (errno e)

  -- if b { m }
  abbrev pub when : Bool → Action K C (Unit {0}) → Action K C (Unit {0})
  when true m = m
  when false m = pure tt

  -- for _, x := range xs { if err := f(x); err != nil { return err } }
  abbrev pub each : {A : Type 0} → (A → Action K C (Unit {0})) → List A → Action K C (Unit {0})
  each f [] = pure tt
  each f (x ∷ xs) = f x >> each f xs

-- if err := m; err != nil { return fmt.Errorf("label: %w", err) }
abbrev pub relabel : {C A : Type 0} → String → Outcome Error A × List C → Outcome Error A × List C
relabel label (ok a, log) = (ok a, log)
relabel label (err e, log) = (err (wrapped label e), log)

abbrev pub context : {K C A : Type 0} → String → Action K C A → Action K C A
context label m k log = relabel label (m k log)
