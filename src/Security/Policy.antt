-- ===== src/Security/Policy.antt =====
-- internal/security/seccomp.go: the default policy, and LookupSyscall of apply.go.
use husk.Base.{ℕ, List, [], ◌∷◌, map, Option, none, some, if◌then◌else◌}
use husk.Base.Bytes.{Str, codes, equal_fold}
use husk.Security.Filter.{Denied}

-- The names in DefaultDenied, in order. The number beside each is unix.SYS_ and the name in upper
-- case, so the numbers are given by a function of the name.
abbrev pub denied_names : List Str
denied_names =
    codes "keyctl"
    ∷ codes "add_key"
    ∷ codes "request_key"
    ∷ codes "mount"
    ∷ codes "umount2"
    ∷ codes "pivot_root"
    ∷ codes "chroot"
    ∷ codes "fsopen"
    ∷ codes "fsconfig"
    ∷ codes "fsmount"
    ∷ codes "fspick"
    ∷ codes "move_mount"
    ∷ codes "open_tree"
    ∷ codes "open_by_handle_at"
    ∷ codes "name_to_handle_at"
    ∷ codes "reboot"
    ∷ codes "kexec_load"
    ∷ codes "kexec_file_load"
    ∷ codes "init_module"
    ∷ codes "finit_module"
    ∷ codes "delete_module"
    ∷ codes "bpf"
    ∷ codes "perf_event_open"
    ∷ codes "ptrace"
    ∷ codes "process_vm_readv"
    ∷ codes "process_vm_writev"
    ∷ codes "setns"
    ∷ codes "unshare"
    ∷ codes "acct"
    ∷ codes "quotactl"
    ∷ codes "swapon"
    ∷ codes "swapoff"
    ∷ codes "syslog"
    ∷ codes "sethostname"
    ∷ codes "setdomainname"
    ∷ codes "settimeofday"
    ∷ codes "clock_settime"
    ∷ codes "clock_adjtime"
    ∷ codes "adjtimex"
    ∷ codes "ioperm"
    ∷ codes "iopl"
    ∷ codes "userfaultfd"
    ∷ codes "move_pages"
    ∷ codes "mbind"
    ∷ codes "migrate_pages"
    ∷ codes "set_mempolicy"
    ∷ codes "uselib"
    ∷ codes "lookup_dcookie"
    ∷ codes "vhangup"
    ∷ codes "modify_ldt"
    ∷ []

-- DefaultDenied
unfoldable pub default_denied : (Str → ℕ) → List Denied
default_denied nr = map (λ name. record { name = name; nr = nr name }) denied_names

-- The loop of LookupSyscall.
unfoldable pub find_syscall : List Denied → Str → Option ℕ
find_syscall [] name = none
find_syscall (d ∷ rest) name = if equal_fold d.name name then some d.nr else find_syscall rest name

-- LookupSyscall
unfoldable pub lookup_syscall : (Str → ℕ) → Str → Option ℕ
unfolding find_syscall default_denied
lookup_syscall nr name = find_syscall (default_denied nr) name
