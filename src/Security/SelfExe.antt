-- ===== src/Security/SelfExe.antt =====
-- internal/security/selfexe.go: the sealed copy of husk's own binary that is run as `husk init`. A
-- descriptor goes by the path or the name that it was opened under.
pub mod Sealed
use husk.Base.{List, [], ◌∷◌}
use husk.Base.Bytes.{Str, codes}
use husk.Base.Outcome.{Outcome, ok, err}
use husk.Base.Action.{Error, try, fail, pure, lift, context, ◌>>=◌, ◌>>◌}
use husk.Kernel.{
  Sys, MemfdFlag, mfd_cloexec, mfd_allow_sealing, Seal, f_seal_seal, f_seal_shrink, f_seal_grow,
  f_seal_write, open_read, close, memfd_create, copy_between, add_seals, attempt, invoke,
}

abbrev pub self_exe : Str
self_exe = codes "/proc/self/exe"

abbrev pub init_copy : Str
init_copy = codes "husk-init"

abbrev pub memfd_flags : List MemfdFlag
memfd_flags = mfd_cloexec ∷ mfd_allow_sealing ∷ []

abbrev pub all_seals : List Seal
all_seals = f_seal_seal ∷ f_seal_shrink ∷ f_seal_grow ∷ f_seal_write ∷ []

-- f.Close(), whose error is not looked at.
abbrev pub shut : Str → Sys (Unit {0})
shut file = attempt (close file) >>= λ _. pure tt

-- A step on `file`, which is closed if the step fails.
abbrev pub or_close : Str → Sys (Unit {0}) → Sys (Unit {0})
or_close file m = try m >>= λ outcome. settled_by outcome
  where
    settled_by : Outcome Error (Unit {0}) → Sys (Unit {0})
    settled_by (ok _) = pure tt
    settled_by (err e) = shut file >> fail e

-- What stands between the opening of /proc/self/exe and its deferred Close.
abbrev pub fill : Sys Str
fill =
    context "memfd_create" (invoke (memfd_create init_copy memfd_flags))
    >> or_close init_copy
        (context "copy self into memfd" (invoke (copy_between init_copy self_exe)))
    >> or_close init_copy (context "seal memfd" (invoke (add_seals init_copy all_seals)))
    >> pure init_copy

-- SealedSelfExe
unfoldable pub sealed_self_exe : Sys Str
sealed_self_exe =
    context "open self" (invoke (open_read self_exe))
    >> (try fill >>= λ outcome. shut self_exe >> lift outcome)
