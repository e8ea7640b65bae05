-- ===== src/Mounts/Masks.antt =====
-- internal/mounts/mask.go: the entries under /proc and /sys that a container must not read or write.
pub mod Covered
use husk.Base.{Bool, true, false, Option, none, some, List, [], ◌∷◌, if◌then◌else◌}
use husk.Base.Bytes.{Str, codes}
use husk.Base.Outcome.{Outcome, ok, err}
use husk.Base.Action.{Errno, Error, errno, pure, fail, each, context, unless_errno, ◌>>=◌, ◌>>◌}
use husk.Container.{Security}
use husk.Kernel.{Call, ms_bind, ms_rdonly, Sys, mount, attempt, invoke, tolerate, stat_file}
use husk.Mounts.{denied, absent, bind_call, remount_call}

-- DefaultMaskedPaths
abbrev pub default_masked_paths : List Str
default_masked_paths =
    codes "/proc/asound"
    ∷ codes "/proc/acpi"
    ∷ codes "/proc/kcore"
    ∷ codes "/proc/keys"
    ∷ codes "/proc/latency_stats"
    ∷ codes "/proc/timer_list"
    ∷ codes "/proc/timer_stats"
    ∷ codes "/proc/sched_debug"
    ∷ codes "/proc/scsi"
    ∷ codes "/sys/firmware"
    ∷ codes "/sys/devices/virtual/powercap"
    ∷ []

-- DefaultReadonlyPaths
abbrev pub default_readonly_paths : List Str
default_readonly_paths =
    codes "/proc/bus"
    ∷ codes "/proc/fs"
    ∷ codes "/proc/irq"
    ∷ codes "/proc/sys"
    ∷ codes "/proc/sysrq-trigger"
    ∷ []

-- The tmpfs over a masked directory, and /dev/null over a masked file.
abbrev pub empty_call : Str → Call
empty_call path = mount (codes "tmpfs") path (codes "tmpfs") (ms_rdonly ∷ []) []

abbrev pub null_call : Str → Call
null_call path = mount (codes "/dev/null") path [] (ms_bind ∷ []) []

-- The rest of maskPath and of readonlyPath after os.Stat.
abbrev pub mask_found : Str → Outcome Errno Bool → Sys (Unit {0})
mask_found path (err e) = if absent e then pure tt else fail (errno e)
mask_found path (ok true) = invoke (empty_call path)
mask_found path (ok false) = tolerate denied (null_call path)

-- maskPath
unfoldable pub mask_path : Str → Sys (Unit {0})
mask_path path = stat_file path >>= mask_found path

-- What follows the bind of readonlyPath.
abbrev pub remount : Str → Option Errno → Sys (Unit {0})
remount path none = tolerate denied (remount_call path)
remount path (some e) = if denied e then pure tt else fail (errno e)

abbrev pub readonly_found : Str → Outcome Errno Bool → Sys (Unit {0})
readonly_found path (err e) = if absent e then pure tt else fail (errno e)
readonly_found path (ok _) = attempt (bind_call path path) >>= remount path

-- readonlyPath
unfoldable pub readonly_path : Str → Sys (Unit {0})
readonly_path path = stat_file path >>= readonly_found path

-- if paths == nil { paths = default }
abbrev pub or_paths : List Str → Option (List Str) → List Str
or_paths default none = default
or_paths default (some paths) = paths

-- applyMasks
unfoldable pub apply_masks : Security → Sys (Unit {0})
apply_masks sec = do
  each (λ path. context "mask" (mask_path path)) (or_paths default_masked_paths sec.masked_paths)
  each (λ path. context "readonly" (readonly_path path))
      (or_paths default_readonly_paths sec.readonly_paths)
