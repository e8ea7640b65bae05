-- ===== src/Scenarios/Restrictions.antt =====
-- Runs of internal/security on a kernel that accepts every call and reports 40 as its last
-- capability.
use husk.Base.{◌+◌, ◌≡◌, Bool, true, none, some, List, [], ◌∷◌, ◌++◌, length, arith}
use husk.Base.Bytes.{Str, codes}
use husk.Base.Outcome.{ok}
use husk.Container.{Security}
use husk.Kernel.{Kernel, Call}
use husk.Security.Filter.{Denied, Program, build_filter}
use husk.Security.Filter.Machine.{SeccompData, reference}
use husk.Security.Filter.Decision.{verdict, build_filter-verdict}
use husk.Security.Capabilities.{drop_capabilities}
use husk.Kernel.Chain.{Chain}
use husk.Security.Capabilities.Answered.{Answered}
use husk.Security.SelfExe.{sealed_self_exe}
use husk.Security.SelfExe.Sealed.{HandsOver, effects, nothing_open, sealed_self_exe-HandsOver}

abbrev policy : List Denied
policy = record { name = codes "mount"; nr = 165 } ∷ record { name = codes "ptrace"; nr = 101 } ∷ []

abbrev ptrace_call : SeccompData
ptrace_call = record { nr = 101; arch = 62 }

build_filter-verdict_example :
    (p : Program) × (build_filter 62 policy 7 ≡ ok p)
    × (reference.run p.instructions 0 ptrace_call ≡ some (verdict 62 policy 7 ptrace_call))
build_filter-verdict_example = build_filter-verdict reference 62 7 policy ptrace_call (omega arith)

abbrev pub accepting : Kernel
accepting = record {
  act = λ log c. none;
  read = λ log path. ok (codes "40\n");
  stat = λ log path. ok true;
  is_cgroup2 = λ log path. true;
  native_arch = 62;
  sys_nr = λ name. 100 + length name;
  cap_nr = λ name. length name;
  range = λ keys. keys;
}

abbrev keep_two : List Str
keep_two = codes "chown" ∷ codes "CAP_KILL" ∷ []

abbrev dropping : List Call
dropping = (drop_capabilities keep_two accepting []).1

abbrev pub security : Bool → Security
security enabled = record {
  capabilities = some keep_two;
  no_new_privs = true;
  seccomp = record { enabled = enabled; action = codes "errno"; extra_denied = codes "mount" ∷ [] };
  masked_paths = none;
  readonly_paths = none;
}

sealed_self_exe-HandsOver_example :
    (calls : List Call) × ((sealed_self_exe accepting []).1 ≡ [] ++ calls)
    × HandsOver (sealed_self_exe accepting []).0 (effects accepting nothing_open [] calls)
sealed_self_exe-HandsOver_example = sealed_self_exe-HandsOver accepting []
