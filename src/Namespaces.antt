-- ===== src/Namespaces.antt =====
-- internal/namespaces: the namespaces of a container as flags of clone(2), as names, and the maps of
-- a user namespace.
pub mod Cloned
use husk.Base.{Bool, true, false, List, [], ◌∷◌, ◌++◌}
use husk.Base.Bytes.{Str, codes}
use husk.Base.Int.{ℤ, pos}
use husk.Container.{Namespaces, IdMap, IdMaps}

-- The bits CLONE_NEW*, which husk combines by `|`.
pub data CloneFlag : Type 0 where
  new_mount new_pid new_uts new_ipc new_net new_user new_cgroup : CloneFlag

-- if on { f |= flag }
abbrev pub set_if : Bool → CloneFlag → List CloneFlag → List CloneFlag
set_if true flag f = f ++ flag ∷ []
set_if false flag f = f

-- CloneFlags
unfoldable pub clone_flags : Namespaces → List CloneFlag
clone_flags ns =
    let mounted = set_if ns.mount new_mount [] in
    let numbered = set_if ns.pid new_pid mounted in
    let named = set_if ns.uts new_uts numbered in
    let messaged = set_if ns.ipc new_ipc named in
    let linked = set_if ns.net new_net messaged in
    set_if ns.cgroup new_cgroup (set_if ns.user new_user linked)

abbrev pub name_if : Bool → Str → List Str
name_if true name = name ∷ []
name_if false name = []

-- The loop of Names.
unfoldable pub enabled_names : List (Bool × Str) → List Str
enabled_names [] = []
enabled_names ((on, name) ∷ rest) = name_if on name ++ enabled_names rest

-- Names
unfoldable pub names : Namespaces → List Str
unfolding enabled_names
names ns = enabled_names (
    (ns.mount, codes "mnt")
    ∷ (ns.pid, codes "pid")
    ∷ (ns.uts, codes "uts")
    ∷ (ns.ipc, codes "ipc")
    ∷ (ns.net, codes "net")
    ∷ (ns.user, codes "user")
    ∷ (ns.cgroup, codes "cgroup")
    ∷ [])

-- A syscall.SysProcIDMap has the fields of an IdMap.
unfoldable pub copied : List IdMap → List IdMap
copied [] = []
copied (m ∷ maps) =
    record { container_id = m.container_id; host_id = m.host_id; size = m.size } ∷ copied maps

-- SysProcIDMaps
unfoldable pub sys_proc_id_maps : IdMaps → List IdMap × List IdMap
unfolding copied
sys_proc_id_maps maps = (copied maps.uid, copied maps.gid)

abbrev pub only_root : ℤ → IdMap
only_root host = record { container_id = pos 0; host_id = host; size = pos 1 }

-- RootlessMaps, and namespacesRootless of internal/cli/run.go.
unfoldable pub rootless_maps : ℤ → ℤ → IdMaps
rootless_maps uid gid = record { uid = only_root uid ∷ []; gid = only_root gid ∷ [] }
