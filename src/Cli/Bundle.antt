-- ===== src/Cli/Bundle.antt =====
-- internal/cli/bundle.go: the translation of an OCI bundle. The types and constants of the runtime-spec
-- package are parameters, and so are encoding/json and the reading of the file.
pub mod Types
pub mod Parts
pub mod Translated
pub mod Filtered
use husk.Base.{Bool, true, false, Option, none, some, List, [], ◌∷◌, if◌then◌else◌, ℕ}
use husk.Base.Bytes.{Str, codes, str_eq}
use husk.Base.Paths.{is_rooted, join}
use husk.Base.Outcome.{Outcome, ok, err, ◌>>=◌}
use husk.Base.Action.{Errno, Error, errno, message, wrapped}
use husk.Container.{Config, SeccompConfig, IdMaps, Resources, root_mode_pivot}
use husk.Security.Capabilities.{default_capabilities}
use husk.Cli.Configure.{id_of, hostname_of, no_maps, network_with}
use husk.Cli.Bundle.Types.{
  Spec, SpecProcess, SpecRoot, SpecLinux, SpecResources, SpecSeccomp, SpecWords,
}
use husk.Cli.Bundle.Parts.{
  Floats, namespaces_from_spec, id_maps_from_spec, resources_from_spec, seccomp_from_spec,
}

-- What loadBundle takes from its surroundings: unix.SYS_*, the constants of the package, float64, the
-- reading of a file, json.Unmarshal, newID, and the flags -id and -network.
pub record Reader (F : Type 0) : Type 0 where
  pub sys_nr : Str → ℕ
  pub words : SpecWords
  pub floats : Floats F
  pub read : Str → Outcome Errno Str
  pub decode : Str → Outcome Error Spec
  pub new_id : Str
  pub id : Str
  pub network : Str

abbrev pub no_seccomp : SeccompConfig
no_seccomp = record { enabled = false; action = []; extra_denied = [] }

-- The root, relative to the bundle unless it is absolute.
abbrev pub rootfs_of : Str → Option SpecRoot → Str
rootfs_of dir none = []
rootfs_of dir (some root) = if is_rooted root.path then root.path else join dir root.path

abbrev pub readonly_of : Option SpecRoot → Bool
readonly_of none = false
readonly_of (some root) = root.readonly

abbrev pub maps_of : Option SpecLinux → IdMaps
maps_of none = no_maps
maps_of (some l) = id_maps_from_spec l

abbrev pub seccomp_of : (Str → ℕ) → SpecWords → Option SpecSeccomp → SeccompConfig
seccomp_of nr w none = no_seccomp
seccomp_of nr w (some s) = seccomp_from_spec nr w s

abbrev pub linux_seccomp : (Str → ℕ) → SpecWords → Option SpecLinux → SeccompConfig
linux_seccomp nr w none = no_seccomp
linux_seccomp nr w (some l) = seccomp_of nr w l.seccomp

abbrev pub masked_of : Option SpecLinux → Option (List Str)
masked_of none = none
masked_of (some l) = l.masked_paths

abbrev pub readonly_paths_of : Option SpecLinux → Option (List Str)
readonly_paths_of none = none
readonly_paths_of (some l) = l.readonly_paths

-- The capabilities: a section without a bounding set leaves them nil.
abbrev pub capabilities_of : Option (Option (List Str)) → Option (List Str)
capabilities_of none = some default_capabilities
capabilities_of (some bounding) = bounding

abbrev pub refuse_sysctl : List Str → Outcome Error (Unit {0})
refuse_sysctl [] = ok tt
refuse_sysctl (name ∷ rest) = err (message "bundle requests sysctls")

abbrev pub check_linux : Option SpecLinux → Outcome Error (Unit {0})
check_linux none = ok tt
check_linux (some l) = refuse_sysctl l.sysctl

-- The two tests behind the capabilities.
unfoldable pub check_process : SpecProcess → Outcome Error (Unit {0})
check_process p =
    if str_eq p.apparmor_profile []
    then (if str_eq p.selinux_label []
        then ok tt
        else err (message "bundle requests an SELinux label"))
    else err (message "bundle requests an AppArmor profile")

abbrev pub process_of : Option SpecProcess → Outcome Error SpecProcess
process_of none = err (message "bundle has no process section")
process_of (some p) = ok p

abbrev pub contents : Outcome Errno Str → Outcome Error Str
contents (ok text) = ok text
contents (err e) = err (wrapped "read bundle config" (errno e))

abbrev pub parsed : Outcome Error Spec → Outcome Error Spec
parsed (ok spec) = ok spec
parsed (err e) = err (wrapped "parse config.json" e)

module _ {F : Type 0} (r : Reader F) (dir : Str) where
  abbrev pub resources_of : Option SpecLinux → Resources F
  resources_of none = resources_from_spec r.floats none
  resources_of (some l) = resources_from_spec r.floats l.resources

  -- The Config that loadBundle fills in.
  unfoldable pub translated : Spec → SpecProcess → Config F
  translated spec p = record {
    id = id_of r.id r.new_id;
    hostname = hostname_of spec.hostname (id_of r.id r.new_id);
    args = p.args;
    env = p.env;
    cwd = p.cwd;
    rootfs = rootfs_of dir spec.root;
    root_mode = root_mode_pivot;
    readonly_rootfs = readonly_of spec.root;
    namespaces = namespaces_from_spec r.words spec.linux;
    id_maps = maps_of spec.linux;
    resources = resources_of spec.linux;
    network = network_with r.network [];
    security = record {
      capabilities = capabilities_of p.capabilities;
      no_new_privs = p.no_new_privileges;
      seccomp = linux_seccomp r.sys_nr r.words spec.linux;
      masked_paths = masked_of spec.linux;
      readonly_paths = readonly_paths_of spec.linux;
    };
    init_process = false;
    await_start = false;
    no_pivot = false;
  }

  -- loadBundle
  unfoldable pub load_bundle : Outcome Error (Config F)
  load_bundle = do
    text ← contents (r.read (join dir (codes "config.json")))
    spec ← parsed (r.decode text)
    process ← process_of spec.process
    _ ← check_linux spec.linux
    _ ← check_process process
    ok (translated spec process)
