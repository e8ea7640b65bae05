-- ===== src/Security/Capabilities/Exact.antt =====
-- Which capabilities a successful DropCapabilities keeps and which it drops.
use husk.Base.{ℕ, ◌≡◌, sym, ap, Bool, false, ◌||◌, Option, none, some, List, [], ◌∷◌, ◌++◌, ◌==◌}
use husk.Base.Bytes.{Str}
use husk.Base.Outcome.{Outcome, ok}
use husk.Kernel.{Kernel, Call}
use husk.Base.Action.{Error, lift}
use husk.Kernel.Runs.{Returns, >>=-Returns}
use husk.Kernel.Chain.{Chain}
use husk.Security.Capabilities.Answered.{Answered, drop_to-Answered}
use husk.Security.Capabilities.{lookup_capability, wanted_from, drop_to, drop_capabilities}
use husk.Security.Capabilities.Trace.{capset_of, drop_calls, before_capset, drop_to-Returns}

-- Some name in the list stands for capability `c`.
abbrev pub resolves : Option ℕ → ℕ → Bool
resolves none c = false
resolves (some d) c = c == d

abbrev pub names_cap : (Str → ℕ) → List Str → ℕ → Bool
names_cap number [] c = false
names_cap number (name ∷ rest) c =
    resolves (lookup_capability number name) c || names_cap number rest c

-- A successful DropCapabilities has cleared the ambient set, then made the drops from the bounding
-- set, then had capset accepted with the masks of the wanted capabilities, then raised the wanted
-- ones into the ambient set, and has made no other call.
pub drop_capabilities-order :
    (keep : List Str) (k : Kernel) (log : List Call) {after : List Call}
    → Returns (drop_capabilities keep) k log tt after
    → (wanted : List ℕ) × (wanted_from k.cap_nr [] keep ≡ ok wanted)
      × (after ≡ log ++ drop_calls k log wanted)
      × (k.act (before_capset k log wanted) (capset_of wanted) ≡ none)
      × Chain (Answered k) (drop_calls k log wanted) log after
unfolding drop_capabilities
drop_capabilities-order keep k log h =
    let (wanted, mid, p, q) = >>=-Returns drop_to k (lift (wanted_from k.cap_nr [] keep)) log h in
    let here : mid ≡ log = sym (ap (λ (x : Outcome Error (List ℕ) × List Call). x.1) p) in
    let (e, set) = drop_to-Returns wanted k log (rw here at q) in
    (
      wanted,
      ap (λ (x : Outcome Error (List ℕ) × List Call). x.0) p,
      e,
      set,
      drop_to-Answered k wanted log (rw here at q),
    )
