-- ===== src/Scenarios/Bundles.antt =====
-- An OCI bundle with two namespaces, one of them given by a path, and a seccomp section.
use husk.Base.{◌≡◌, refl, arith, ◌↔◌, ◌+◌, ℕ, true, none, some, List, [], ◌∷◌, length}
use husk.Base.Bytes.{Str, codes, str_eq}
use husk.Base.Outcome.{ok}
use husk.Container.{Config}
use husk.Namespaces.{new_pid}
use husk.Namespaces.Cloned.{has_flag}
use husk.Runtime.Spawn.Clone.{build_cmd}
use husk.Security.Filter.{Denied}
use husk.Security.Filter.Decision.{denies}
use husk.Security.Policy.{default_denied}
use husk.Security.Apply.{extend_denied}
use husk.Cli.Bundle.Types.{Spec, SpecProcess, SpecLinux, SpecWords}
use husk.Cli.Bundle.{Reader, load_bundle, translated, check_process}
use husk.Cli.Bundle.Translated.{
  AreDistinct, IsAcceptable, asked, load_bundle-accepts, load_bundle-namespaces,
}
use husk.Cli.Bundle.Filtered.{load_bundle-seccomp}

abbrev words : SpecWords
words = record {
  mount_namespace = codes "mount";
  pid_namespace = codes "pid";
  uts_namespace = codes "uts";
  ipc_namespace = codes "ipc";
  network_namespace = codes "network";
  user_namespace = codes "user";
  cgroup_namespace = codes "cgroup";
  act_allow = codes "SCMP_ACT_ALLOW";
  act_kill_process = codes "SCMP_ACT_KILL_PROCESS";
}

abbrev process : SpecProcess
process = record {
  args = codes "httpd" ∷ [];
  env = [];
  cwd = codes "/";
  no_new_privileges = true;
  capabilities = some (some (codes "CAP_KILL" ∷ []));
  apparmor_profile = [];
  selinux_label = [];
}

abbrev section : SpecLinux
section = record {
  uid_mappings = [];
  gid_mappings = [];
  namespaces =
      record { kind = codes "pid"; path = [] }
      ∷ record { kind = codes "network"; path = codes "/var/run/netns/web" }
      ∷ [];
  resources = none;
  seccomp = some (record {
    default_action = codes "SCMP_ACT_ERRNO";
    syscalls =
        record { names = codes "mount" ∷ codes "read" ∷ []; action = codes "SCMP_ACT_ERRNO" } ∷ [];
  });
  masked_paths = none;
  readonly_paths = none;
  sysctl = [];
}

abbrev spec : Spec
spec = record { process = some process; root = none; hostname = codes "web"; linux = some section }

abbrev reader : Reader (Unit {0})
reader = record {
  sys_nr = λ name. 100 + length name;
  words = words;
  floats = record { zero = tt; quotient = λ quota period. tt };
  read = λ path. ok (codes "{}");
  decode = λ text. ok spec;
  new_id = codes "0123456789abcdef";
  id = codes "web";
  network = codes "none";
}

abbrev dir : Str
dir = codes "/bundles/web"

abbrev config : Config (Unit {0})
config = translated reader dir spec process

config-loads : load_bundle reader dir ≡ ok config
unfolding load_bundle check_process str_eq
config-loads = refl

load_bundle-accepts_example : (load_bundle reader dir ≡ ok config) ↔ IsAcceptable reader dir config
load_bundle-accepts_example = load_bundle-accepts reader dir config

distinct : AreDistinct words
unfolding str_eq
distinct f g = ground arith

load_bundle-namespaces_example :
    has_flag (build_cmd [] true true config).cloned new_pid ≡ asked words section.namespaces new_pid
load_bundle-namespaces_example =
    load_bundle-namespaces reader dir (codes "{}") spec section [] true true config distinct refl
      refl refl config-loads new_pid

load_bundle-seccomp_example :
    (all : List Denied) × (extend_denied reader.sys_nr
        (default_denied reader.sys_nr)
        config.security.seccomp.extra_denied
      ≡ ok all)
    × (length all
        ≡ length (default_denied reader.sys_nr) + length config.security.seccomp.extra_denied)
    × ((x : ℕ) → denies all x ≡ denies (default_denied reader.sys_nr) x)
load_bundle-seccomp_example = load_bundle-seccomp reader dir config config-loads
