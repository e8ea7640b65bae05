-- ===== src/Runtime/Spawn.antt =====
-- internal/spawn/spawn.go: cloning the init process and driving the handshake with it. The setup
-- callback is the one that launchConfig passes; whether it attached the network is the Boolean
-- beside each result, the variable networkAttached of launchConfig.
pub mod Barrier
pub mod Clone
use husk.Base.{Bool, true, false, not, ◌||◌, List, [], if◌then◌else◌}
use husk.Base.Bytes.{Str, codes, str_eq}
use husk.Base.Outcome.{Outcome, ok, err}
use husk.Base.Action.{Error, wrapped, pure, asks, context, try, ◌>>=◌, ◌>>◌}
use husk.Container.{Config, Namespaces, Network}
use husk.Runtime.{
  Act, Host, Step, open_pipes, open_state_dir, clone_init, send_config, await_booted, fail_child,
  send_ready, await_jailed, kill_init, reap_init, close_pipe, add_process, attach_network, invoke,
  ignore,
}

-- A result, with the value of networkAttached.
abbrev pub Attached : Type 0 → Type 0
Attached A = Bool × Outcome Error A

-- The second half of the callback, behind the cgroup membership.
unfoldable pub join_network : Bool → Network → Act (Attached Network)
join_network false own = pure (false, ok own)
join_network true own =
    try (invoke attach_network)
    >>= elim [ err e ↦ pure (false, err e) | ok _ ↦ λ h log. (ok (true, ok (h.attached log)), log) ]

-- The callback `setup` of launchConfig.
unfoldable pub setup : Bool → Network → Act (Attached Network)
unfolding join_network
setup bridged own =
    try (context "move pid into cgroup" (invoke add_process))
    >>= elim [ err e ↦ pure (false, err e) | ok _ ↦ join_network bridged own ]

-- Handle.handshake behind the callback.
unfoldable pub release : Attached Network → Act (Attached Network)
release (attached, err e) = ignore fail_child >> pure (attached, err (wrapped "parent setup" e))
release (attached, ok net) =
    try (context "release child" (invoke send_ready) >> invoke await_jailed)
    >>= elim [ err e ↦ pure (attached, err e) | ok _ ↦ pure (attached, ok net) ]

-- Handle.handshake
unfoldable pub handshake : Bool → Network → Act (Attached Network)
unfolding setup release
handshake bridged own =
    try (context "send config" (invoke send_config) >> invoke await_booted)
    >>= elim [ err e ↦ pure (false, err e) | ok _ ↦ setup bridged own >>= release ]

-- The end of start: a failed handshake kills the child and reaps it.
unfoldable pub settle : Attached Network → Act (Attached Network)
settle (attached, err e) =
    ignore kill_init >> (ignore reap_init >> (ignore close_pipe >> pure (attached, err e)))
settle (attached, ok net) = pure (attached, ok net)

-- Start, with start and buildCmd, up to the clone and from there on.
unfoldable pub start : Bool → Network → Act (Attached Network)
unfolding handshake settle
start bridged own =
    try (
      invoke open_pipes
      >> (context "open state dir" (invoke open_state_dir)
          >> context "clone init" (invoke clone_init)))
    >>= elim [ err e ↦ pure (false, err e) | ok _ ↦ handshake bridged own >>= settle ]
