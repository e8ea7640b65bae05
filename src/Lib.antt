-- ===== src/Lib.antt =====
-- husk: a container runtime without a daemon. This library models the parts of it that decide
-- something, and leaves the kernel, the file system and netlink as parameters.
--
-- How the parts interact. A command of internal/cli reads flags, builds a container description
-- and calls launchConfig, which makes the state directory, the root file system and the cgroup,
-- and then lets internal/spawn clone the init process. The init process waits until its parent has
-- moved it into the cgroup and attached the network; then it changes its root by internal/mounts,
-- restricts itself by internal/security and runs the workload. start, kill and delete are later
-- processes that know the container only through the record that internal/state wrote.
--
-- Which file models what:
--   Base: the shared names; Boolean tests, byte strings, signed integers, and actions that fail with
--     an error and record what they do.
--   Container: internal/container/config.go.
--   Kernel: the system calls of golang.org/x/sys/unix, answered by an arbitrary kernel that may look
--     at every call made before. Kernel/Runs takes successful runs apart, Kernel/Chain loops, and
--     Kernel/Only bounds the calls of an action that may fail.
--   Security, with Filter, Policy, Capabilities, Apply and SelfExe: internal/security/seccomp.go,
--     capabilities.go, apply.go and selfexe.go. Filter/Machine is the interface of the kernel's BPF machine.
--   Namespaces: internal/namespaces/namespaces.go; a set of CLONE_NEW* bits is a list of flags.
--   Cgroups: internal/cgroups/v2.go. Manager.write is `write`, and so on; a path is what the
--     parameter `join` makes of its parts. Cgroups/Accounting: stats.go.
--   Runtime: internal/spawn/spawn.go (Spawn, with buildCmd in Spawn/Clone) and launchConfig of
--     internal/cli/run.go (Launch). Each operation of another part is one step that an arbitrary
--     host answers.
--   Mounts: internal/mounts/root.go (Root), api.go (Api, with BindMount in Mounts) and mask.go
--     (Masks).
--   Ipc: internal/ipc/sync.go, and in Handshake the two processes of a start as interleaved steps.
--   Initproc: internal/initproc/initproc.go, network.go and fifo.go, and pid1.go (Pid1).
--   Network: internal/network/ipam.go (Ipam), over the file operations on the lease directory, and
--     container.go (Inside) and netfilter.go (Netfilter), over calls of netlink and iptables;
--     host.go (Host), over the same calls and an interface of leases.
--   Storage: internal/storage/overlay.go, extractTar of import.go (Import) and commit.go (Commit).
--   State: internal/state/state.go, over the file operations on a container's directory.
--   Cli: internal/cli/flags.go (Flags), buildConfig of run.go (Configure), bundle.go (Bundle), start,
--     kill, delete and parseSignal of lifecycle.go (Lifecycle), exec.go (Exec), and humanBytes, humanLimit and
--     short of observe.go (Observe).
--   Scenarios: runs on concrete inputs.
--
-- Bounds and fuel. Words are natural numbers with their wrap-around written out; an int64 is ℤ with
-- `mul64`. The scan of Allocate runs over the offsets that are left, and the loop of DropCapabilities
-- over the capabilities that are left, so neither needs fuel. Twenty digits hold every number of 64
-- bits. The loop of reap runs on fuel: one more than the number of the answer of wait4 that ends it is
-- enough. The loop of humanBytes has six tests to go, and the divisor in it, which is not above the
-- number, never wraps. The polling loops of start and delete are bounded by the clock: the number of their rounds
-- is a parameter.
--
-- Assumed of the outside, as arguments of the theorems that need it: what POSIX says of O_EXCL,
-- rename, write and remove; that os.CreateTemp does not choose the name state.json; the meaning of
-- four BPF instructions; what iptables(8) says of -C, -A, -I and -D,
-- that -C fails only for a rule that is not in force and that -D is accepted for one that is; that the
-- words of the runtime-spec for two kinds of namespace differ; that a file holds what was
-- written to it; that `range` goes through exactly the keys of a map.
--
-- Not modelled: what netlink does with a request, the JSON between parent and child and that of a
-- bundle, the opening of an archive, the display of statistics, the pinning of
-- threads, and the texts of errors beyond what the code itself tells apart. A dereference of a nil
-- st.Config, which no record that husk saved has, is not modelled either. IPv6 subnets, on which
-- Allocate panics, have no counterpart, and a float64 is a parameter.
pub mod Base
pub mod Container
pub mod Kernel
pub mod Namespaces
pub mod Security
pub mod Mounts
pub mod Cgroups
pub mod Ipc
pub mod Initproc
pub mod Runtime
pub mod Network
pub mod State
pub mod Storage
pub mod Cli
pub mod Scenarios
