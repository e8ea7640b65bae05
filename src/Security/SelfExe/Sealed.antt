-- ===== src/Security/SelfExe/Sealed.antt =====
-- What a start gets from SealedSelfExe, and that a failure leaves no descriptor open.
use husk.Base.{
  Option, none, some, List, [], ◌∷◌, ◌++◌, ◌≡◌, refl, sym, ◌∙◌, ◌⊎◌, inl, inr, append_assoc,
  append-nil, if◌then◌else◌,
}
use husk.Base.Bytes.{Str, codes, str_eq}
use husk.Base.Outcome.{Outcome, ok, err}
use husk.Base.Action.{Errno, Error, errno, wrapped}
use husk.Kernel.{
  Kernel, Call, MemfdFlag, mfd_cloexec, mfd_allow_sealing, Seal, f_seal_seal, f_seal_shrink,
  f_seal_grow, f_seal_write, open_read, close, memfd_create, copy_between, add_seals,
}
use husk.Security.SelfExe.{sealed_self_exe, self_exe, init_copy, memfd_flags, all_seals}

-- The descriptors that are open, the memfds with their flags, what was copied into which, and the seals that were added.
pub record Descriptors : Type 0 where
  pub opened : List Str
  pub memfds : List (Str × List MemfdFlag)
  pub transfers : List (Str × Str)
  pub seals : List (Str × List Seal)

abbrev pub without : Str → List Str → List Str
without file [] = []
without file (other ∷ rest) = if str_eq file other then rest else other ∷ without file rest

-- What a call that the kernel answers so does to them.
abbrev pub effect : Descriptors → Call → Option Errno → Descriptors
effect d (open_read file) none = record d { opened = file ∷ d.opened }
effect d (memfd_create name flags) none = record d {
  opened = name ∷ d.opened;
  memfds = (name, flags) ∷ d.memfds;
}
effect d (copy_between to from) none = record d { transfers = (to, from) ∷ d.transfers }
effect d (add_seals file seals) none = record d { seals = (file, seals) ∷ d.seals }
effect d (close file) answer = record d { opened = without file d.opened }
effect d c answer = d

-- What calls made after those of `log` do to them.
abbrev pub effects : Kernel → Descriptors → List Call → List Call → Descriptors
effects k d log [] = d
effects k d log (c ∷ rest) = effects k (effect d c (k.act log c)) (log ++ c ∷ []) rest

abbrev pub nothing_open : Descriptors
nothing_open = record { opened = []; memfds = []; transfers = []; seals = [] }

-- The descriptor that is handed over is the only one open and holds the sealed copy.
abbrev pub HandsOver : Outcome Error Str → Descriptors → Type 0
HandsOver (ok file) d =
    (d.opened ≡ file ∷ [])
    × (d.memfds ≡ (file, mfd_cloexec ∷ mfd_allow_sealing ∷ []) ∷ [])
    × (d.transfers ≡ (file, codes "/proc/self/exe") ∷ [])
    × (d.seals ≡ (file, f_seal_seal ∷ f_seal_shrink ∷ f_seal_grow ∷ f_seal_write ∷ []) ∷ [])
HandsOver (err e) d = d.opened ≡ []

answer-cases : (o : Option Errno) → (o ≡ none) ⊎ ((x : Errno) × (o ≡ some x))
answer-cases none = inl refl
answer-cases (some x) = inr (x, refl)

abbrev extend : List Call → List Call → List Call
extend log [] = log
extend log (c ∷ rest) = extend (log ++ c ∷ []) rest

extend_append : (log calls : List Call) → extend log calls ≡ log ++ calls
extend_append log [] = sym (append-nil log)
extend_append log (c ∷ rest) = extend_append (log ++ c ∷ []) rest ∙ append_assoc log (c ∷ []) rest

-- What `run` did and returned.
Handed : Kernel → List Call → Outcome Error Str × List Call → Type 0
Handed k log (outcome, after) =
    (calls : List Call) × (after ≡ log ++ calls)
    × HandsOver outcome (effects k nothing_open log calls)

handed :
    (k : Kernel) (log calls : List Call) (outcome : Outcome Error Str)
    → HandsOver outcome (effects k nothing_open log calls)
    → Handed k log (outcome, extend log calls)
unfolding Handed
handed k log calls outcome h = (calls, extend_append log calls, h)

-- SealedSelfExe, wherever it fails, closes every descriptor that it opened; if it succeeds, one is
-- left open: a memfd that allows sealing, that /proc/self/exe was copied into, and that was given the
-- seals against writing, growing, shrinking and further sealing.
pub sealed_self_exe-HandsOver :
    (k : Kernel) (log : List Call)
    → (calls : List Call) × ((sealed_self_exe k log).1 ≡ log ++ calls)
      × HandsOver (sealed_self_exe k log).0 (effects k nothing_open log calls)
unfolding sealed_self_exe Handed str_eq
sealed_self_exe-HandsOver k log = elim (answer-cases (k.act log open_self)) [
  | inr (x, refused) ↦
      rw refused
        (handed k log (open_self ∷ []) (err (wrapped "open self" (errno x))) (rw refused refl))
  | inl opened ↦ elim (answer-cases (k.act (log ++ open_self ∷ []) create)) [
    | inr (x, refused) ↦
        rw (opened, refused)
          (handed k log (open_self ∷ create ∷ close self_exe ∷ [])
            (err (wrapped "memfd_create" (errno x))) (rw (refused, opened) refl))
    | inl created ↦ elim (answer-cases (k.act ((log ++ open_self ∷ []) ++ create ∷ []) copy)) [
      | inr (x, refused) ↦
          rw (opened, created, refused)
            (handed k log (open_self ∷ create ∷ copy ∷ close init_copy ∷ close self_exe ∷ [])
              (err (wrapped "copy self into memfd" (errno x))) (rw (refused, created, opened) refl))
      | inl accepted ↦
          elim (answer-cases (k.act (((log ++ open_self ∷ []) ++ create ∷ []) ++ copy ∷ []) seal)) [
            | inr (x, refused) ↦
                rw (opened, created, accepted, refused)
                  (handed k log
                    (open_self ∷ create ∷ copy ∷ seal ∷ close init_copy ∷ close self_exe ∷ [])
                    (err (wrapped "seal memfd" (errno x)))
                    (rw (refused, accepted, created, opened) refl))
            | inl sealed ↦
                rw (opened, created, accepted, sealed)
                  (handed k log (open_self ∷ create ∷ copy ∷ seal ∷ close self_exe ∷ [])
                    (ok init_copy)
                    (rw (sealed, accepted, created, opened) (refl, refl, refl, refl)))
          ]
    ]
  ]
]
  where
    open_self : Call
    open_self = open_read self_exe

    create : Call
    create = memfd_create init_copy memfd_flags

    copy : Call
    copy = copy_between init_copy self_exe

    seal : Call
    seal = add_seals init_copy all_seals
