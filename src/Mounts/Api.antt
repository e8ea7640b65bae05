-- ===== src/Mounts/Api.antt =====
-- internal/mounts/api.go: the kernel's API file systems, and the devices and links under /dev.
pub mod Mounted
use husk.Base.{ℕ, Bool, true, false, ◌||◌, Option, none, some, List, [], ◌∷◌, String, if◌then◌else◌}
use husk.Base.Bytes.{Str, codes, str_eq}
use husk.Base.Outcome.{Outcome, ok, err}
use husk.Base.Action.{Errno, Error, errno, pure, fail, each, context, ◌>>=◌, ◌>>◌}
use husk.Kernel.{
  Call, Flag, ms_bind, ms_rdonly, ms_nosuid, ms_nodev, ms_noexec, ms_strictatime, Sys, mount,
  mkdir_all, remove, mknod, chmod, touch, symlink, attempt, invoke, tolerate,
}
use husk.Mounts.{absent}

abbrev pub nosuid_nodev_noexec : List Flag
nosuid_nodev_noexec = ms_nosuid ∷ ms_nodev ∷ ms_noexec ∷ []

abbrev pub hardened_readonly : List Flag
hardened_readonly = ms_nosuid ∷ ms_nodev ∷ ms_noexec ∷ ms_rdonly ∷ []

-- type apiMount
pub record ApiMount : Type 0 where
  pub source : Str
  pub target : Str
  pub fstype : Str
  pub flags : List Flag
  pub options : Str

abbrev pub api : String → String → String → List Flag → String → ApiMount
api s t f flags d = record {
  source = codes s;
  target = codes t;
  fstype = codes f;
  flags = flags;
  options = codes d;
}

-- The table of mountAPIFilesystems.
abbrev pub api_mounts : List ApiMount
api_mounts =
    api "proc" "/proc" "proc" nosuid_nodev_noexec ""
    ∷ api "sysfs" "/sys" "sysfs" hardened_readonly ""
    ∷ api "tmpfs" "/dev" "tmpfs" (ms_nosuid ∷ ms_strictatime ∷ []) "mode=755,size=65536k"
    ∷ api "devpts" "/dev/pts" "devpts" (ms_nosuid ∷ ms_noexec ∷ [])
        "newinstance,ptmxmode=0666,mode=0620,gid=5"
    ∷ api "shm" "/dev/shm" "tmpfs" nosuid_nodev_noexec "mode=1777,size=65536k"
    ∷ api "mqueue" "/dev/mqueue" "mqueue" nosuid_nodev_noexec ""
    ∷ []

abbrev pub api_call : ApiMount → Call
api_call m = mount m.source m.target m.fstype m.flags m.options

-- m.target == "/dev/pts" || m.target == "/dev/mqueue"
abbrev pub is_optional : ApiMount → Bool
is_optional m = str_eq m.target (codes "/dev/pts") || str_eq m.target (codes "/dev/mqueue")

-- One round of the loop of mountAPIFilesystems.
unfoldable pub mount_api : ApiMount → Sys (Unit {0})
mount_api m = do
  context "mkdir" (invoke (mkdir_all m.target))
  context "mount" (tolerate (λ _. is_optional m) (api_call m))

pub record Device : Type 0 where
  pub path : Str
  pub mode : ℕ
  pub major : ℕ
  pub minor : ℕ

-- 0o666
abbrev pub device : String → ℕ → ℕ → Device
device s a b = record { path = codes s; mode = 438; major = a; minor = b }

-- defaultDevices
abbrev pub default_devices : List Device
default_devices =
    device "/dev/null" 1 3
    ∷ device "/dev/zero" 1 5
    ∷ device "/dev/full" 1 7
    ∷ device "/dev/random" 1 8
    ∷ device "/dev/urandom" 1 9
    ∷ device "/dev/tty" 5 0
    ∷ []

-- bindHostDevice
unfoldable pub bind_host_device : Str → Sys (Unit {0})
bind_host_device path = invoke (touch path) >> invoke (mount path path [] (ms_bind ∷ []) [])

-- What follows the mknod of a device.
abbrev pub provide : Device → Option Errno → Sys (Unit {0})
provide d none = context "chmod" (invoke (chmod d.path d.mode))
provide d (some _) = context "provide" (bind_host_device d.path)

-- One round of the loop of setupDeviceNodes.
unfoldable pub setup_device : Device → Sys (Unit {0})
setup_device d = attempt (mknod d.path d.mode d.major d.minor) >>= provide d

-- setupDeviceNodes
unfoldable pub setup_device_nodes : Sys (Unit {0})
setup_device_nodes = each setup_device default_devices

pub record DevLink : Type 0 where
  pub target : Str
  pub link : Str

abbrev pub dev_link : String → String → DevLink
dev_link t l = record { target = codes t; link = codes l }

-- devSymlinks
abbrev pub dev_symlinks : List DevLink
dev_symlinks =
    dev_link "/proc/self/fd" "/dev/fd"
    ∷ dev_link "/proc/self/fd/0" "/dev/stdin"
    ∷ dev_link "/proc/self/fd/1" "/dev/stdout"
    ∷ dev_link "/proc/self/fd/2" "/dev/stderr"
    ∷ dev_link "/proc/kcore" "/dev/core"
    ∷ dev_link "pts/ptmx" "/dev/ptmx"
    ∷ []

-- One round of the loop of setupDevSymlinks.
unfoldable pub setup_link : DevLink → Sys (Unit {0})
setup_link s = do
  context "clear" (tolerate absent (remove s.link))
  context "symlink" (tolerate (λ _. str_eq s.link (codes "/dev/core")) (symlink s.target s.link))

-- setupDevSymlinks
unfoldable pub setup_dev_symlinks : Sys (Unit {0})
setup_dev_symlinks = each setup_link dev_symlinks

-- mountAPIFilesystems
unfoldable pub mount_api_filesystems : Sys (Unit {0})
mount_api_filesystems = do each mount_api api_mounts; setup_device_nodes; setup_dev_symlinks

abbrev pub cgroup_target : Str
cgroup_target = codes "/sys/fs/cgroup"

abbrev pub cgroup_call : Call
cgroup_call = mount (codes "cgroup2") cgroup_target (codes "cgroup2") hardened_readonly []

-- MountCgroupNamespace
unfoldable pub mount_cgroup_namespace : Sys (Unit {0})
mount_cgroup_namespace = do
  context "mkdir" (invoke (mkdir_all cgroup_target))
  context "mount cgroup2" (invoke cgroup_call)
