-- ===== src/Mounts.antt =====
-- internal/mounts: the file system that a container sees, built from inside its mount namespace.
-- A combination of mount flags is the list of the flags in it.
pub mod Api
pub mod Masks
pub mod Root
use husk.Base.{Bool, true, false, List, [], ◌∷◌}
use husk.Base.Bytes.{Str, codes}
use husk.Base.Outcome.{Outcome, ok, err}
use husk.Base.Action.{
  Errno, eperm, eacces, enoent, Error, errno, pure, fail, when, context, ◌>>=◌, ◌>>◌,
}
use husk.Base.Paths.{dir}
use husk.Kernel.{
  Call, Flag, ms_bind, ms_rec, ms_remount, ms_rdonly, Sys, mount, mkdir_all, touch, invoke,
  stat_file,
}

-- err == unix.EPERM || err == unix.EACCES
abbrev pub denied : Errno → Bool
denied eperm = true
denied eacces = true
denied _ = false

-- os.IsNotExist on an errno
abbrev pub absent : Errno → Bool
absent enoent = true
absent _ = false

-- unix.MS_BIND | unix.MS_REMOUNT | unix.MS_RDONLY | unix.MS_REC
abbrev pub remount_readonly : List Flag
remount_readonly = ms_bind ∷ ms_remount ∷ ms_rdonly ∷ ms_rec ∷ []

-- The bind that BindMount makes, and its remount.
abbrev pub bind_call : Str → Str → Call
bind_call source target = mount source target [] (ms_bind ∷ ms_rec ∷ []) []

abbrev pub remount_call : Str → Call
remount_call target = mount [] target [] remount_readonly []

-- The branch of BindMount on the answer of os.Stat.
abbrev pub prepare_target : Str → Outcome Errno Bool → Sys (Unit {0})
prepare_target target (err e) = context "stat bind source" (fail (errno e))
prepare_target target (ok true) = context "prepare bind target" (invoke (mkdir_all target))
prepare_target target (ok false) =
    invoke (mkdir_all (dir target)) >> context "prepare bind target" (invoke (touch target))

-- BindMount
unfoldable pub bind_mount : Str → Str → Bool → Sys (Unit {0})
bind_mount source target readonly = do
  found ← stat_file source
  prepare_target target found
  context "bind" (invoke (bind_call source target))
  when readonly (context "remount read-only" (invoke (remount_call target)))
