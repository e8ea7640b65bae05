-- ===== src/Security/Capabilities/Answered.antt =====
-- What the kernel answered to the calls of a successful DropCapabilities.
use husk.Base.{
  ℕ, zero, suc, ◌+◌, ◌≡◌, refl, true, none, some, List, [], ◌∷◌, ◌++◌, map, contains, ◌⊎◌,
  Bool-cases, inl, inr,
}
use husk.Base.Action.{Errno, einval, eperm, ◌>>=◌, context, ◌>>◌, asks}
use husk.Kernel.{Kernel, Call, ambient_clear, bounding_drop, capset, ambient_raise, invoke}
use husk.Kernel.Chain.{Chain, done, next}
use husk.Kernel.Runs.{Returns, called, invoked, >>-Returns}
use husk.Security.Capabilities.{
  last_cap, shrink_bounding, raise_ambient, drop_to, is_einval, is_einval_or_eperm,
}
use husk.Security.Capabilities.Trace.{drops, last_seen, capset_of, drop_calls}

-- A refusal that DropCapabilities passes over: EINVAL or EPERM, of any call but capset.
abbrev pub PassedOver : Call → Errno → Type 0
PassedOver (capset low high) e = ⊥
PassedOver _ e = (e ≡ einval) ⊎ (e ≡ eperm)

-- The call was made, and accepted or refused in such a way.
abbrev pub Answered : Kernel → Call → List Call → List Call → Type 0
Answered k c log after =
    (after ≡ log ++ c ∷ [])
    × ((k.act log c ≡ none) ⊎ ((e : Errno) × (k.act log c ≡ some e) × PassedOver c e))

is_einval_sound : (e : Errno) → is_einval e ≡ true → (e ≡ einval) ⊎ (e ≡ eperm)
is_einval_sound einval h = inl refl
is_einval_sound _ h = cc

either_sound : (e : Errno) → is_einval_or_eperm e ≡ true → (e ≡ einval) ⊎ (e ≡ eperm)
either_sound einval h = inl refl
either_sound eperm h = inr refl
either_sound _ h = cc

Chain-append :
    (k : Kernel) {xs ys : List Call} {l m n : List Call}
    → Chain (Answered k) xs l m
    → Chain (Answered k) ys m n
    → Chain (Answered k) (xs ++ ys) l n
Chain-append k done d = d
Chain-append k (next r c) d = next r (Chain-append k c d)

module _ (k : Kernel) where
  shrink_bounding-Answered :
      (wanted : List ℕ) (rounds c : ℕ) (log : List Call) {after : List Call}
      → Returns (shrink_bounding wanted rounds c) k log tt after
      → Chain (Answered k) (drops wanted rounds c) log after
  unfolding shrink_bounding
  shrink_bounding-Answered wanted zero c log {after} h = let e : after ≡ log = cc in rw e done
  shrink_bounding-Answered wanted (suc rounds) c log {after} h =
      elim (Bool-cases (contains wanted c)) [
        | inl kept ↦ rw kept (shrink_bounding-Answered wanted rounds (c + 1) log (rw kept at h))
        | inr dropped ↦
            let rest = shrink_bounding wanted rounds (c + 1) in
            let (answer, later) =
              called k "drop bounding capability" is_einval_or_eperm (bounding_drop c) rest log
                (rw dropped at h) in
            rw dropped (
              next
                (refl, elim answer [ inl a ↦ inl a | inr q ↦ inr (q.0, q.1, either_sound q.0 q.2) ])
                (shrink_bounding-Answered wanted rounds (c + 1) (log ++ bounding_drop c ∷ [])
                  later))
      ]

  raise_ambient-Answered :
      (order : List ℕ) (log : List Call) {after : List Call}
      → Returns (raise_ambient order) k log tt after
      → Chain (Answered k) (map ambient_raise order) log after
  unfolding raise_ambient
  raise_ambient-Answered [] log {after} h = let e : after ≡ log = cc in rw e done
  raise_ambient-Answered (c ∷ rest) log h =
      let (answer, later) =
        called k "raise ambient capability" is_einval_or_eperm (ambient_raise c)
          (raise_ambient rest) log h in
      next (refl, elim answer [ inl a ↦ inl a | inr q ↦ inr (q.0, q.1, either_sound q.0 q.2) ])
        (raise_ambient-Answered rest (log ++ ambient_raise c ∷ []) later)

  pub drop_to-Answered :
      (wanted : List ℕ) (log : List Call) {after : List Call}
      → Returns (drop_to wanted) k log tt after
      → Chain (Answered k) (drop_calls k log wanted) log after
  unfolding drop_to last_cap
  drop_to-Answered wanted log {after} h =
      let last = last_seen k log in
      let raising = asks (λ (k : Kernel). k.range wanted) >>= raise_ambient in
      let setting = context "capset" (invoke (capset_of wanted)) >> raising in
      let (cleared, h1) =
        called k "clear ambient set" is_einval ambient_clear
          (last_cap >>= λ last. (shrink_bounding wanted (suc last) 0 >> setting)) log h in
      let (mid, p, h2) =
        >>-Returns k (shrink_bounding wanted (suc last) 0) setting (log ++ ambient_clear ∷ []) h1 in
      let (set, h3) = invoked k "capset" (capset_of wanted) raising mid h2 in
      next (refl, elim cleared [ inl a ↦ inl a | inr q ↦ inr (q.0, q.1, is_einval_sound q.0 q.2) ])
        (Chain-append k (shrink_bounding-Answered wanted (suc last) 0 (log ++ ambient_clear ∷ []) p)
          (next (refl, inl set)
            (raise_ambient-Answered (k.range wanted) (mid ++ capset_of wanted ∷ []) h3)))
