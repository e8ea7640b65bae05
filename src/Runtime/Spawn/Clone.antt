-- ===== src/Runtime/Spawn/Clone.antt =====
-- internal/spawn/spawn.go: the command that is cloned as the init process, with its descriptors and
-- its attributes.
use husk.Base.{ℕ, ◌+◌, Bool, true, false, Option, none, some, List, [], ◌∷◌, ◌++◌, if◌then◌else◌}
use husk.Base.Bytes.{Str, codes}
use husk.Base.Int.{pos, format_int}
use husk.Container.{Config, IdMap}
use husk.Namespaces.{CloneFlag, clone_flags, sys_proc_id_maps}

-- The files that the child may be given beside its standard streams.
pub data Descriptor : Type 0 where
  sync_read sync_write state_dir self_exe : Descriptor

-- The slots of ExtraFiles, which start at descriptor 3.
abbrev pub slot_state_dir : ℕ
slot_state_dir = 2

abbrev pub slot_self_exe : ℕ
slot_self_exe = 3

-- What husk sets of exec.Cmd and syscall.SysProcAttr; the standard streams are those of Options.
pub record Command : Type 0 where
  pub path : Str
  pub args : List Str
  pub extra_files : List Descriptor
  pub env : List Str
  pub cloned : List CloneFlag
  pub pdeathsig : Option ℕ
  pub uid_mappings : List IdMap
  pub gid_mappings : List IdMap
  pub enable_setgroups : Bool

-- execPath in Start, by whether SealedSelfExe succeeded.
unfoldable pub exec_path : Bool → Str
exec_path sealed =
    if sealed
    then codes "/proc/self/fd/" ++ format_int (pos (3 + slot_self_exe))
    else codes "/proc/self/exe"

-- append(files, selfExe), if there is one
abbrev pub with_self : Bool → List Descriptor → List Descriptor
with_self true files = files ++ self_exe ∷ []
with_self false files = files

-- SIGKILL, unless the container is detached.
abbrev pub death_signal : Bool → Option ℕ
death_signal true = none
death_signal false = some 9

module _ {F : Type 0} where
  -- buildCmd on the path of Start; `environ` is os.Environ().
  unfoldable pub build_cmd : List Str → Bool → Bool → Config F → Command
  build_cmd environ sealed detached cfg =
      let (uid, gid) = sys_proc_id_maps cfg.id_maps in
      record {
        path = exec_path sealed;
        args = codes "init" ∷ [];
        extra_files = with_self sealed (sync_read ∷ sync_write ∷ state_dir ∷ []);
        env = environ ++ codes "HUSK_INIT=1" ∷ [];
        cloned = clone_flags cfg.namespaces;
        pdeathsig = death_signal detached;
        uid_mappings = if cfg.namespaces.user then uid else [];
        gid_mappings = if cfg.namespaces.user then gid else [];
        enable_setgroups = false;
      }
