-- ===== src/Kernel/Only.antt =====
-- Actions that make only calls of one kind, whatever they return.
use husk.Base.{
  ◌≡◌, ◌∙◌, refl, sym, ap, Bool, Option, none, some, List, [], ◌∷◌, ◌++◌, append-nil, append_assoc,
  arith, All, All-append,
}
use husk.Base.Outcome.{Outcome, ok, err}
use husk.Base.Action.{Errno, Error, each, continue, lift, unless_errno, ◌>>=◌}
use husk.Kernel.{Kernel, Call, Sys, tolerate}

module _ (P : Call → Type 0) (k : Kernel) where
  -- `after` is `log` and calls of the kind behind it.
  abbrev pub Extends : List Call → List Call → Type 0
  Extends log after = (calls : List Call) × (after ≡ log ++ calls) × All P calls

  abbrev pub Only : {A : Type 0} → Sys A → Type 0
  Only m = (log : List Call) → Extends log (m k log).1

  Extends-trans : (a b c : List Call) → Extends a b → Extends b c → Extends a c
  Extends-trans a b c (xs, e, h) (ys, r, g) =
      (xs ++ ys, r ∙ (ap (λ l. l ++ ys) e ∙ append_assoc a xs ys), All-append P xs ys h g)

  pub same-Extends : (log : List Call) → Extends log log
  same-Extends log = ([], sym (append-nil log), tt)

  pub bind-Only :
      {A B : Type 0} (m : Sys A) (f : A → Sys B) → Only m → ((a : A) → Only (f a)) → Only (m >>= f)
  bind-Only {A} m f om of log = go (m k log) (om log)
    where
      go : (r : Outcome Error A × List Call) → Extends log r.1 → Extends log (continue r f k).1
      go (ok a, mid) t = Extends-trans log mid (f a k mid).1 t (of a mid)
      go (err e, mid) t = t

  -- What follows a pure step that returns a value with a property.
  pub lift-Only :
      {A B : Type 0} (r : Outcome Error A) (f : A → Sys B)
      → ((a : A) → r ≡ ok a → Only (f a))
      → Only (lift r >>= f)
  lift-Only (ok a) f of log = of a refl log
  lift-Only (err e) f of log = same-Extends log

  pub call-Only : (ignored : Errno → Bool) (c : Call) → P c → Only (tolerate ignored c)
  call-Only ignored c p log = go (k.act log c)
    where
      go : (o : Option Errno) → Extends log (unless_errno ignored o k (log ++ c ∷ [])).1
      go none = (c ∷ [], refl, (p, tt))
      go (some e) = (c ∷ [], ground arith, (p, tt))

  pub each-Only :
      {A : Type 0} (f : A → Sys (Unit {0})) (xs : List A)
      → All (λ x. Only (f x)) xs
      → Only (each f xs)
  each-Only f [] h log = same-Extends log
  each-Only f (x ∷ xs) h log = bind-Only (f x) (λ _. each f xs) h.0 (λ _. each-Only f xs h.1) log
