-- ===== src/Network/Host/Cleanup.antt =====
-- The names of the interfaces fit, and what an action with a cleanup has done.
use husk.Base.{ℕ, zero, suc, ◌≤◌, ◌≡◌, refl, List, [], ◌∷◌, length, take, arith, le→ltb}
use husk.Base.Bytes.{Str}
use husk.Base.Int.{ℤ}
use husk.Base.Outcome.{Outcome, ok, err}
use husk.Base.Action.{Error, fail, continue}
use husk.Container.{PortMapping}
use husk.Kernel.{Kernel, Call, Sys}
use husk.Kernel.Runs.{Returns}
use husk.Network.Netfilter.{Bridge}
use husk.Network.Host.{
  Leases, Parsing, interface_names, if_name_max, undo_with, on_error, plug, plug_checked,
}

length-take : (n : ℕ) (s : Str) → length (take n s) ≤ n
length-take zero s = omega arith
length-take (suc n) [] = omega arith
length-take (suc n) (c ∷ s) = omega (arith, length-take n s)

-- Both names have at most 15 bytes, whatever the id.
pub interface_names-fit :
    (id : Str)
    → (length ((interface_names id).0) ≤ if_name_max)
      × (length ((interface_names id).1) ≤ if_name_max)
unfolding interface_names
interface_names-fit id = ground (arith, length-take 8 id)

module _ (k : Kernel) {A : Type 0} where
  failed :
      (r : Outcome Error (Unit {0}) × List Call) (x : Error) {o : Outcome Error A}
      {after : List Call}
      → r.0 ≡ ok tt
      → continue r (λ (y : Unit {0}). fail {A = A} x) k ≡ (o, after)
      → (o ≡ err x) × (after ≡ r.1)
  failed (ok y, mid) x safe h = (cc, cc)
  failed (err y, mid) x safe h = absurd (cc safe)

  never_ok :
      (r : Outcome Error (Unit {0}) × List Call) (x : Error) {a : A} {after : List Call}
      → ◌≡◌ {A = Outcome Error A × List Call}
          (continue r (λ (y : Unit {0}). fail {A = A} x) k)
          (ok a, after)
      → ◌≡◌ {A = Outcome Error A × List Call} (err x, after) (ok a, after)
  never_ok (ok y, mid) x h = absurd (cc h)
  never_ok (err y, mid) x h = absurd (cc h)

  -- What an action with a cleanup has returned, it has returned without the cleanup.
  pub on_error-Returns :
      (m : Sys A) (undo : Sys (Unit {0})) (log : List Call) {a : A} {after : List Call}
      → Returns (on_error m undo) k log a after
      → Returns m k log a after
  on_error-Returns m undo log {a} {after} h = go (m k log) h
    where
      go :
          (r : Outcome Error A × List Call)
          → continue (ok r.0, r.1) (undo_with undo) k ≡ (ok a, after)
          → r ≡ (ok a, after)
      go (ok x, mid) e = cc
      go (err x, mid) e = absurd (cc (never_ok (undo k mid) x e))

  -- Where it failed, the cleanup ran last, if it cannot fail itself.
  pub on_error-Fails :
      (m : Sys A) (undo : Sys (Unit {0})) (log : List Call) {e : Error} {after : List Call}
      → ((mid : List Call) → (undo k mid).0 ≡ ok tt)
      → on_error m undo k log ≡ (err e, after)
      → (mid : List Call) × (m k log ≡ (err e, mid)) × (after ≡ (undo k mid).1)
  on_error-Fails m undo log {e} {after} safe h = go (m k log) h
    where
      go :
          (r : Outcome Error A × List Call)
          → continue (ok r.0, r.1) (undo_with undo) k ≡ (err e, after)
          → (mid : List Call) × (r ≡ (err e, mid)) × (after ≡ (undo k mid).1)
      go (ok x, mid) f = absurd (cc f)
      go (err x, mid) f =
          let (same, at) = failed (undo k mid) x (safe mid) f in
          let s : x ≡ e = cc in (mid, rw s refl, at)

module _ (b : Bridge) (p : Parsing) (leases : Leases) where
  pub plug_checked-fits :
      (id : Str) (names : Str × Str) (pid : ℤ) (ip : Str) (ports : List PortMapping)
      → length names.0 ≤ if_name_max
      → length names.1 ≤ if_name_max
      → plug_checked b p leases id names pid ip ports
        ≡ plug b p leases id names.0 names.1 pid ip ports
  unfolding plug_checked
  plug_checked-fits id (host, peer) pid ip ports x y =
      rw (le→ltb if_name_max (length host) x, le→ltb if_name_max (length peer) y) refl
