-- ===== src/Mounts/Root.antt =====
-- internal/mounts/root.go: the change of the root directory.
pub mod Detached
use husk.Base.{Bool, true, false, List, [], ◌∷◌, ◌++◌, ◌||◌, if◌then◌else◌}
use husk.Base.Bytes.{Str, codes, str_eq}
use husk.Base.Outcome.{Outcome}
use husk.Base.Action.{Error, message, lift, fail, when, context, ◌>>=◌, ◌>>◌}
use husk.Base.Paths.{join, abs}
use husk.Container.{Config, root_mode_pivot, root_mode_chroot}
use husk.Kernel.{
  Call, ms_rec, ms_private, Sys, mount, mkdir_all, pivot_root, chdir, chroot, unmount_detach,
  remove, invoke, tolerate,
}
use husk.Mounts.{absent, bind_call, remount_call}
use husk.Mounts.Masks.{apply_masks}
use husk.Mounts.Api.{mount_api_filesystems}

-- putOld
abbrev pub put_old : Str
put_old = codes ".put_old"

abbrev pub slash : Str
slash = codes "/"

abbrev pub private_call : Call
private_call = mount [] slash [] (ms_rec ∷ ms_private ∷ []) []

-- The part of SetupRootPivot up to the removal of the old root, for the absolute path of the rootfs.
unfoldable pub swap_root : Str → Sys (Unit {0})
swap_root root = do
  context "bind rootfs onto itself" (invoke (bind_call root root))
  context "create .put_old" (invoke (mkdir_all (join root put_old)))
  context "pivot_root" (invoke (pivot_root root (join root put_old)))
  context "chdir to new root" (invoke (chdir slash))
  context "detach .put_old" (invoke (unmount_detach (slash ++ put_old)))
  context "remove .put_old" (tolerate absent (remove (slash ++ put_old)))

-- SetupRootPivot; `wd` is the answer of os.Getwd.
unfoldable pub setup_root_pivot : {F : Type 0} → Outcome Error Str → Config F → Sys (Unit {0})
setup_root_pivot wd cfg = do
  context "make / rprivate" (invoke private_call)
  root ← context "resolve rootfs" (lift (abs wd cfg.rootfs))
  swap_root root
  mount_api_filesystems
  apply_masks cfg.security
  when cfg.readonly_rootfs (context "remount / read-only" (invoke (remount_call slash)))

-- SetupRootChroot
unfoldable pub setup_root_chroot : {F : Type 0} → Outcome Error Str → Config F → Sys (Unit {0})
setup_root_chroot wd cfg = do
  root ← context "resolve rootfs" (lift (abs wd cfg.rootfs))
  context "make / rprivate" (invoke private_call)
  context "chdir rootfs" (invoke (chdir root))
  context "chroot" (invoke (chroot root))
  context "chdir /" (invoke (chdir slash))
  mount_api_filesystems

-- SetupRoot
unfoldable pub setup_root : {F : Type 0} → Outcome Error Str → Config F → Sys (Unit {0})
setup_root wd cfg =
    if str_eq cfg.root_mode root_mode_chroot
    then setup_root_chroot wd cfg
    else if str_eq cfg.root_mode root_mode_pivot || str_eq cfg.root_mode []
    then setup_root_pivot wd cfg
    else fail (message "unknown root mode")
