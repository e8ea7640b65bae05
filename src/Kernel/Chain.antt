-- ===== src/Kernel/Chain.antt =====
-- Runs of loops: what each round does is a relation between the log before it and the log after it.
use husk.Base.{◌≡◌, refl, none, List, [], ◌∷◌, ◌++◌, String, map}
use husk.Base.Action.{each, context, ◌>>◌}
use husk.Kernel.{Kernel, Call, Sys, invoke}
use husk.Kernel.Runs.{Returns, >>-Returns, invoked}

-- The rounds for `xs`, one after the other.
pub data Chain {A : Type 0} (R : A → List Call → List Call → Type 0)
    : List A → List Call → List Call → Type 0 where
  done : {l : List Call} → Chain R [] l l
  next : {x : A} {xs : List A} {l m n : List Call} → R x l m → Chain R xs m n → Chain R (x ∷ xs) l n

-- A call that the kernel accepted.
abbrev pub Accepted : Kernel → Call → List Call → List Call → Type 0
Accepted k c log after = (after ≡ log ++ c ∷ []) × (k.act log c ≡ none)

module _ {A : Type 0} (R : A → List Call → List Call → Type 0) (f : A → Sys (Unit {0}))
    (k : Kernel) where
  pub each-Chain :
      ((x : A) (log after : List Call) → Returns (f x) k log tt after → R x log after)
      → (xs : List A) (log : List Call) {after : List Call} → Returns (each f xs) k log tt after
      → Chain R xs log after
  each-Chain step [] log {after} h = let e : after ≡ log = cc in rw e done
  each-Chain step (x ∷ xs) log h =
      let (mid, p, q) = >>-Returns k (f x) (each f xs) log h in
      next (step x log mid p) (each-Chain step xs mid q)

  pub Chain-each :
      ((x : A) (log after : List Call) → R x log after → Returns (f x) k log tt after)
      → {xs : List A} {log after : List Call} → Chain R xs log after
      → Returns (each f xs) k log tt after
  Chain-each step done = refl
  Chain-each step (next {x = x} {xs = xs} {l = l} {m = m} r c) =
      rw (step x l m r) (Chain-each step c)

-- Labelled calls, each of which must succeed, and then the rest.
abbrev pub in_order : {B : Type 0} → List (String × Call) → Sys B → Sys B
in_order [] n = n
in_order (p ∷ ps) n = context p.0 (invoke p.1) >> in_order ps n

pub in_order-Accepted :
    {B : Type 0} (ps : List (String × Call)) (n : Sys B) (k : Kernel) (log : List Call) {b : B}
    {after : List Call}
    → Returns (in_order ps n) k log b after
    → (mid : List Call) × Chain (Accepted k) (map (λ p. p.1) ps) log mid × Returns n k mid b after
in_order-Accepted [] n k log h = (log, done, h)
in_order-Accepted (p ∷ ps) n k log h =
    let (a, rest) = invoked k p.0 p.1 (in_order ps n) log h in
    let (mid, c, r) = in_order-Accepted ps n k (log ++ p.1 ∷ []) rest in (mid, next (refl, a) c, r)
