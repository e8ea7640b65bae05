-- ===== src/Kernel.antt =====
-- The operating system as husk sees it: system calls that change something are recorded in a log
-- and answered by an arbitrary kernel, whose answers may depend on every call made before. The
-- constants and the answers of golang.org/x/sys/unix are fields of `Kernel`, which every action
-- takes; nothing is assumed of them here.
pub mod Runs
pub mod Chain
pub mod Only
pub mod Fails
use husk.Base.{ℕ, Bool, true, false, Option, none, some, List, [], ◌∷◌, ◌++◌, String, if◌then◌else◌}
use husk.Base.Bytes.{Str}
use husk.Base.Int.{ℤ}
use husk.Base.Outcome.{Outcome, ok, err}
use husk.Base.Action.{Errno, Error, errno, enoent, Action, unless_errno, ◌>>=◌}
use husk.Security.Filter.{SockFilter}

-- os.IsNotExist, which does not look through fmt.Errorf.
unfoldable pub is_not_exist : Error → Bool
is_not_exist (errno enoent) = true
is_not_exist _ = false

-- The flags of mount(2) that husk combines by `|`.
pub data Flag : Type 0 where
  ms_rec ms_private ms_bind ms_remount ms_rdonly : Flag
  ms_nosuid ms_nodev ms_noexec ms_strictatime : Flag

-- The flags of memfd_create(2) and the seals of fcntl(2) that husk combines by `|`.
pub data MemfdFlag : Type 0 where
  mfd_cloexec mfd_allow_sealing : MemfdFlag

pub data Seal : Type 0 where
  f_seal_seal f_seal_shrink f_seal_grow f_seal_write : Seal

-- A netfilter rule, as it is given to the iptables binary, and what is done with it. Without "-t" the
-- table is "filter".
pub record Rule : Type 0 where
  pub table : Str
  pub chain : Str
  pub spec : List Str

pub data RuleOp : Type 0 where
  op_check op_append op_insert op_delete : RuleOp

pub data Call : Type 0 where
  ambient_clear : Call
  bounding_drop : ℕ → Call
  capset : ℕ → ℕ → Call
  ambient_raise : ℕ → Call
  no_new_privs : Call
  seccomp_tsync : ℕ → List SockFilter → Call
  mkdir_all : Str → Call
  -- os.MkdirAll with a mode that is not the same for every call
  mkdir_all_as : Str → ℕ → Call
  mkdir : Str → Call
  remove : Str → Call
  open_write : Str → Call
  write_string : Str → Str → Call
  kill : ℤ → ℕ → Call
  -- unix.Mount(source, target, fstype, flags, data)
  mount : Str → Str → Str → List Flag → Str → Call
  -- unix.Unmount(target, MNT_DETACH)
  unmount_detach : Str → Call
  pivot_root : Str → Str → Call
  chdir : Str → Call
  chroot : Str → Call
  -- unix.Mknod(path, S_IFCHR | mode, Mkdev(major, minor))
  mknod : Str → ℕ → ℕ → ℕ → Call
  chmod : Str → ℕ → Call
  -- os.OpenFile(path, O_CREATE | O_RDONLY, 0o644), and Close
  touch : Str → Call
  -- os.Symlink(target, link)
  symlink : Str → Str → Call
  set_hostname : Str → Call
  -- netlink, in the caller's network namespace; a link goes by the name that it was found under
  find_link : Str → Call
  rename_link : Str → Str → Call
  add_address : Str → Str → Call
  link_up : Str → Call
  add_default_route : Str → Str → Call
  -- iptables -C, -A, -I ... 1 and -D, and iptables -N; every failure is one exit status
  iptables : RuleOp → Rule → Call
  new_chain : Str → Str → Call
  -- unix.Mknod of a block device, and unix.Mkfifo
  mknod_block : Str → ℕ → ℕ → ℕ → Call
  mkfifo : Str → ℕ → Call
  -- os.OpenFile with O_CREATE | O_WRONLY | O_TRUNC, and io.CopyN or io.Copy into it
  create_file : Str → ℕ → Call
  copy_entry : Str → Call
  -- os.Link(source, target) and os.Lchown
  hard_link : Str → Str → Call
  lchown : Str → ℕ → ℕ → Call
  -- unix.Lsetxattr of a name and a value, with flags 0
  set_xattr : Str → Str → Str → Call
  -- os.RemoveAll
  remove_all : Str → Call
  -- os.WriteFile
  write_file : Str → Str → Call
  -- unix.Exec(bin, args, env), after which the caller runs on only if it failed
  exec : Str → List Str → List Str → Call
  -- unix.Open(path, O_RDONLY | O_CLOEXEC) and Close; a descriptor goes by the path it was opened under
  open_read : Str → Call
  close : Str → Call
  -- unix.MemfdCreate, io.Copy(to, from) between descriptors, and F_ADD_SEALS
  memfd_create : Str → List MemfdFlag → Call
  copy_between : Str → Str → Call
  add_seals : Str → List Seal → Call
  -- unix.Unshare(CLONE_FS), and unix.Setns of a descriptor
  unshare_fs : Call
  setns : Str → Call
  -- exec.Cmd.Start with arguments, environment and directory
  start_process : List Str → List Str → Str → Call
  -- netlink, in the host's network namespace: LinkAdd of a bridge and of a veth pair, LinkDel,
  -- LinkSetMaster, and LinkSetNsPid
  add_bridge : Str → Call
  add_veth : Str → Str → ℕ → Call
  delete_link : Str → Call
  set_master : Str → Str → Call
  move_link : Str → ℤ → Call

pub record Kernel : Type 0 where
  -- what a call returns after the calls before it; `none` is success
  pub act : List Call → Call → Option Errno
  -- the contents of a file, and whether a path is a directory
  pub read : List Call → Str → Outcome Errno Str
  pub stat : List Call → Str → Outcome Errno Bool
  -- whether statfs finds CGROUP2_SUPER_MAGIC at a path
  pub is_cgroup2 : List Call → Str → Bool
  -- nativeArch, unix.SYS_* and unix.CAP_*
  pub native_arch : ℕ
  pub sys_nr : Str → ℕ
  pub cap_nr : Str → ℕ
  -- the order in which `range` goes through a map with these keys
  pub range : List ℕ → List ℕ

abbrev pub Sys : Type 0 → Type 0
Sys = Action Kernel Call

-- A call's errno, whatever it is.
abbrev pub attempt : Call → Sys (Option Errno)
attempt c k log = (ok (k.act log c), log ++ c ∷ [])

abbrev pub read_file : Str → Sys (Outcome Errno Str)
read_file path k log = (ok (k.read log path), log)

abbrev pub stat_file : Str → Sys (Outcome Errno Bool)
stat_file path k log = (ok (k.stat log path), log)

-- A call whose errors are returned, except for those that `ignored` holds of.
abbrev pub tolerate : (Errno → Bool) → Call → Sys (Unit {0})
tolerate ignored c = attempt c >>= unless_errno ignored

abbrev pub invoke : Call → Sys (Unit {0})
invoke c = tolerate (λ _. false) c
