-- ===== src/Runtime/Launch.antt =====
-- launchConfig, prepareRootfs, containerIO and teardown of internal/cli/run.go.
pub mod Parts
pub mod Unwind
pub mod Success
use husk.Base.{ℕ, Bool, true, false, not, ◌||◌, ◌&&◌, List, [], ◌∷◌, ◌++◌, if◌then◌else◌}
use husk.Base.Bytes.{Str, codes, str_eq}
use husk.Base.Outcome.{Outcome, ok, err}
use husk.Base.Action.{Error, message, wrapped, pure, fail, lift, asks, context, try, ◌>>=◌, ◌>>◌}
use husk.Container.{Config, Namespaces, Network}
use husk.Runtime.{
  Act, Host, Step, Status, creating, created, running, stopped, create_state, remove_state,
  make_fifo, save_state, storage_init, remove_storage, mount_overlay, create_cgroup, apply_limits,
  kill_all, destroy_cgroup, detach_network, open_log, open_null, close_io, release_handle,
  close_pipe, invoke, ignore, from_errno,
}
use husk.Runtime.Spawn.{Attached, start}

-- The deferred unwinding: what runs, newest first, if the rest of the function fails.
abbrev pub unwound :
    {A : Type 0} → Act (Unit {0}) → Outcome Error A × List Step → Host → Outcome Error A × List Step
unwound cleanup (ok a, log) h = (ok a, log)
unwound cleanup (err e, log) h = (err e, (cleanup h log).1)

abbrev pub on_error : {A : Type 0} → Act (Unit {0}) → Act A → Act A
on_error cleanup m h log = unwound cleanup (m h log) h

-- storage.Store.MergedPath for the store at `root`.
abbrev pub merged_path : Str → Str → Str
merged_path root id = root ++ codes "/containers/" ++ id ++ codes "/merged"

-- The options of commonFlags that launchConfig and prepareRootfs read.
pub record LaunchFlags : Type 0 where
  pub rootfs : Str
  pub image : Str
  pub data_root : Str

-- prepareRootfs with -rootfs
unfoldable pub bare_rootfs : Str → Outcome Error Bool → Outcome Error (Str × List Str)
bare_rootfs rootfs (ok true) = ok (rootfs, [])
bare_rootfs rootfs _ = err (message "rootfs is not a directory")

-- prepareRootfs; the result is cfg.Rootfs and the layers.
unfoldable pub prepare_rootfs : {F : Type 0} → LaunchFlags → Config F → Act (Str × List Str)
unfolding bare_rootfs
prepare_rootfs c cfg =
    if not (str_eq c.rootfs [])
    then (λ h log. (bare_rootfs c.rootfs (from_errno (h.is_dir log c.rootfs)), log))
    else (if str_eq c.image [] then fail (message "one of -image or -rootfs is required") else (do
      invoke storage_init
      layers ← λ h log. (from_errno (h.image_layers log c.image), log)
      invoke (mount_overlay layers)
      pure (merged_path c.data_root cfg.id, layers)))

-- containerIO
unfoldable pub container_io : Bool → Act (Unit {0})
container_io false = pure tt
container_io true =
    context "open container log" (invoke open_log) >> on_error (ignore close_io) (invoke open_null)

-- `defer closeIO()`: without -detach the closer does nothing.
abbrev pub closing : Bool → Act (Unit {0})
closing false = pure tt
closing true = ignore close_io

abbrev pub detaching : Bool → Act (Unit {0})
detaching false = pure tt
detaching true = ignore detach_network

-- The status that is recorded once the child is released.
abbrev pub live_status : Bool → Status
live_status true = created
live_status false = running

-- From spawn.Start to the second Save; the deferred calls are closeIO and the detach.
unfoldable pub record_live : Bool → Attached Network → Act Network
record_live await (attached, r) =
    on_error (closing await >> detaching attached)
      (lift r >>= λ net. (invoke (save_state (live_status await)) >> pure net))

-- From spawn.Start on.
unfoldable pub live : Bool → Bool → Network → Act Network
unfolding record_live
live await bridged own = start bridged own >>= record_live await

-- From the cgroup limits on.
unfoldable pub confine : Bool → Bool → Network → Act Network
unfolding container_io
confine await bridged own =
    context "cgroup limits" (invoke apply_limits)
    >> (invoke (save_state creating) >> (container_io await >> live await bridged own))

-- From the cgroup on; `layered` is cfg.Rootfs != c.rootfs.
unfoldable pub populate : Bool → Bool → Bool → Network → Act Network
populate layered await bridged own = on_error (if layered then ignore remove_storage else pure tt) (
    context "cgroup" (invoke create_cgroup)
    >> on_error (ignore destroy_cgroup) (confine await bridged own))

-- cfg.Network.Mode == "bridge" && cfg.Namespaces.Net
abbrev pub is_bridged : {F : Type 0} → Config F → Bool
is_bridged cfg = str_eq cfg.network.mode (codes "bridge") && cfg.namespaces.net

-- A constructed container: its network, and whether its root is an overlay.
pub record Handle : Type 0 where
  pub network : Network
  pub layered : Bool

-- What follows prepareRootfs, up to the second Save.
unfoldable pub furnish : {F : Type 0} → LaunchFlags → Config F → Bool → Str × List Str → Act Handle
furnish c cfg await (rootfs, layers) =
    let layered = not (str_eq rootfs c.rootfs) in
    populate layered await (is_bridged cfg) cfg.network >>= λ net.
    pure (record { network = net; layered = layered })

-- What stands between states.Create and the second Save.
unfoldable pub build : {F : Type 0} → LaunchFlags → Config F → Bool → Act Handle
build c cfg await =
    (if await then invoke make_fifo else pure tt) >> (prepare_rootfs c cfg >>= furnish c cfg await)

-- launchConfig up to the second Save.
unfoldable pub construct : {F : Type 0} → LaunchFlags → Config F → Bool → Act Handle
construct c cfg await = invoke create_state >> on_error (ignore remove_state) (build c cfg await)

-- One step of teardown, whose error goes on the list.
abbrev pub noted : Step → List Error → Act (List Error)
noted s problems =
    try (invoke s) >>= elim [ ok _ ↦ pure problems | err e ↦ pure (problems ++ e ∷ []) ]

-- teardown
unfoldable pub teardown : Bool → Act (List Error)
teardown remove_layers = do
  p ← noted detach_network []
  ignore kill_all
  q ← noted destroy_cgroup p
  if remove_layers then noted remove_storage q else pure q

-- launchConfig behind the second Save; the value is the exit code that husk passes on.
unfoldable pub finish : Bool → Handle → Act ℕ
finish true handle =
    on_error (ignore close_io) (invoke release_handle >> invoke close_pipe)
    >> (ignore close_io >> pure 0)
finish false handle = do
  code ← λ (h : Host) log. (ok (h.wait log), log)
  ignore close_pipe
  ignore (save_state stopped)
  problems ← teardown handle.layered
  ignore remove_state
  lift (from_errno code)

-- launchConfig
unfoldable pub launch_config : {F : Type 0} → LaunchFlags → Config F → Bool → Act ℕ
launch_config c cfg await = construct c cfg await >>= finish await
