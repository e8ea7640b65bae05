-- ===== src/Security/Apply.antt =====
-- internal/security/apply.go and the installation of the filter: the three restrictions, in order.
pub mod Order
use husk.Base.{
  ℕ, suc, ◌%◌, ◌^◌, Bool, true, false, ◌||◌, Option, none, some, List, [], ◌∷◌, ◌++◌, length, ◌==◌,
  if◌then◌else◌,
}
use husk.Base.Bytes.{Str, codes, equal_fold}
use husk.Base.Outcome.{Outcome, ok, err}
use husk.Container.{Security, SeccompConfig}
use husk.Kernel.{Kernel, Sys, no_new_privs, seccomp_tsync, invoke}
use husk.Base.Action.{Error, message, wrapped, pure, fail, lift, asks, ◌>>=◌, ◌>>◌, context}
use husk.Security.Filter.{
  Denied, Program, FilterError, policy_too_long, build_filter, action_errno, action_kill,
}
use husk.Security.Policy.{default_denied, lookup_syscall}
use husk.Security.Capabilities.{default_capabilities, drop_capabilities}

-- SetNoNewPrivs
unfoldable pub set_no_new_privs : Sys (Unit {0})
set_no_new_privs = context "PR_SET_NO_NEW_PRIVS" (invoke no_new_privs)

-- Program.Install
unfoldable pub install : Program → Sys (Unit {0})
install p = elim p.instructions [
  | [] ↦ fail (message "empty filter")
  | i ∷ rest ↦
      context "seccomp(SET_MODE_FILTER, TSYNC)"
        (invoke (seccomp_tsync (length (i ∷ rest) % 2 ^ 16) (i ∷ rest)))
]

-- The loop over ExtraDenied.
unfoldable pub extend_denied : (Str → ℕ) → List Denied → List Str → Outcome Error (List Denied)
extend_denied nr denied [] = ok denied
extend_denied nr denied (name ∷ rest) = elim (lookup_syscall nr name) [
  | none ↦ err (message "unknown syscall in seccomp policy")
  | some n ↦ extend_denied nr (denied ++ record { name = name; nr = n } ∷ []) rest
]

-- The action for a denied call; EPERM is 1.
unfoldable pub action_of : Str → ℕ
unfolding action_kill action_errno
action_of action = if equal_fold action (codes "kill") then action_kill else action_errno 1

-- The error of BuildFilter, as Apply reports it.
as_error : {A : Type 0} → Outcome FilterError A → Outcome Error A
as_error (ok a) = ok a
as_error (err _) =
    err (wrapped "build seccomp filter" (message "policy exceeds the 8-bit BPF jump range"))

-- The part of Apply behind the test of Seccomp.Enabled.
unfoldable pub apply_seccomp : SeccompConfig → Sys (Unit {0})
unfolding as_error
apply_seccomp sec = do
  nr ← asks (λ k. k.sys_nr)
  native ← asks (λ k. k.native_arch)
  denied ← lift (extend_denied nr (default_denied nr) sec.extra_denied)
  prog ← lift (as_error (build_filter native denied (action_of sec.action)))
  context "install seccomp filter" (install prog)

abbrev pub or_default : Option (List Str) → List Str → List Str
or_default none d = d
or_default (some l) d = l

-- Apply behind the capability drop, over the values of NoNewPrivs and Seccomp.Enabled.
unfoldable pub restrict : Bool → Bool → SeccompConfig → Sys (Unit {0})
unfolding set_no_new_privs
restrict nnp enabled sec =
    (if nnp || enabled then set_no_new_privs else pure tt)
    >> (if enabled then apply_seccomp sec else pure tt)

-- Apply
unfoldable pub apply : Security → Sys (Unit {0})
apply sec =
    context "capabilities" (drop_capabilities (or_default sec.capabilities default_capabilities))
    >> restrict sec.no_new_privs sec.seccomp.enabled sec.seccomp
