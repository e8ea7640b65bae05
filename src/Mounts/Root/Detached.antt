-- ===== src/Mounts/Root/Detached.antt =====
-- After a successful SetupRootPivot the old root is gone, and nothing else came before that.
use husk.Base.{String, ◌≡◌, refl, sym, Bool, true, false, List, [], ◌∷◌, ◌++◌}
use husk.Base.Bytes.{Str}
use husk.Base.Outcome.{Outcome, ok}
use husk.Base.Action.{Error, context, lift, when, ◌>>◌, ◌>>=◌}
use husk.Base.Paths.{abs, join}
use husk.Container.{Config}
use husk.Kernel.{
  Kernel, Call, Sys, mkdir_all, pivot_root, chdir, unmount_detach, remove, invoke, tolerate,
}
use husk.Kernel.Runs.{
  Returns, >>-Returns, context-Returns, invoke-Returns, tolerate-Returns, invoked, lifted_as,
}
use husk.Kernel.Chain.{Chain, Accepted, next, in_order-Accepted}
use husk.Mounts.{absent, bind_call, remount_call}
use husk.Mounts.Masks.{apply_masks}
use husk.Mounts.Api.{mount_api_filesystems}
use husk.Mounts.Root.{put_old, slash, private_call, swap_root, setup_root_pivot}

-- The calls that put `root` in the place of the old root, which the last one detaches.
abbrev pub swap_calls : Str → List Call
swap_calls root =
    bind_call root root
    ∷ mkdir_all (join root put_old)
    ∷ pivot_root root (join root put_old)
    ∷ chdir slash
    ∷ unmount_detach (slash ++ put_old)
    ∷ []

abbrev pub remove_call : Call
remove_call = remove (slash ++ put_old)

swap_root-Accepted :
    (k : Kernel) (root : Str) (log after : List Call)
    → Returns (swap_root root) k log tt after
    → (mid : List Call) × Chain (Accepted k) (swap_calls root) log mid
      × (after ≡ mid ++ remove_call ∷ [])
unfolding swap_root
swap_root-Accepted k root log after h =
    let (mid, c, r) = in_order-Accepted calls finally k log h in
    (
      mid,
      c,
      (tolerate-Returns absent remove_call k mid
          (context-Returns "remove .put_old" (tolerate absent remove_call) k mid r)).0,
    )
  where
    calls : List (String × Call)
    calls =
        ("bind rootfs onto itself", bind_call root root)
        ∷ ("create .put_old", mkdir_all (join root put_old))
        ∷ ("pivot_root", pivot_root root (join root put_old))
        ∷ ("chdir to new root", chdir slash)
        ∷ ("detach .put_old", unmount_detach (slash ++ put_old))
        ∷ []

    finally : Sys (Unit {0})
    finally = context "remove .put_old" (tolerate absent remove_call)

-- The last step of SetupRootPivot: a root that is to be read-only is remounted so.
abbrev pub Finished : Kernel → Bool → List Call → List Call → Type 0
Finished k true log after = Accepted k (remount_call slash) log after
Finished k false log after = after ≡ log

finish-Finished :
    (k : Kernel) (readonly : Bool) (log after : List Call)
    → Returns
        (when readonly (context "remount / read-only" (invoke (remount_call slash))))
        k
        log
        tt
        after
    → Finished k readonly log after
finish-Finished k true log after h =
    invoke-Returns (remount_call slash) k log
      (context-Returns "remount / read-only" (invoke (remount_call slash)) k log h)
finish-Finished k false log after h = cc

-- A successful SetupRootPivot has made all mounts private and then, in this order, bound the absolute
-- path of the rootfs onto itself, pivoted there, gone to the new root and detached the old one, each of
-- them accepted by the kernel. Only after that do mountAPIFilesystems and applyMasks run, both with
-- success, and a root that is to be read-only is remounted at the very end.
pub setup_root_pivot-detaches :
    {F : Type 0} (wd : Outcome Error Str) (cfg : Config F) (k : Kernel) (log after : List Call)
    → Returns (setup_root_pivot wd cfg) k log tt after
    → (root : Str) × (detached mounted masked : List Call) × (abs wd cfg.rootfs ≡ ok root)
      × Chain (Accepted k) (private_call ∷ swap_calls root) log detached
      × Returns mount_api_filesystems k (detached ++ remove_call ∷ []) tt mounted
      × Returns (apply_masks cfg.security) k mounted tt masked
      × Finished k cfg.readonly_rootfs masked after
unfolding setup_root_pivot
setup_root_pivot-detaches wd cfg k log after h =
    let (a, h₁) = invoked k "make / rprivate" private_call rooted log h in
    let (root, e, h₂) =
      lifted_as "resolve rootfs" (abs wd cfg.rootfs) from k (log ++ private_call ∷ []) h₁ in
    let (swapped, p, h₃) =
      >>-Returns k (swap_root root) (mount_api_filesystems >> (apply_masks cfg.security >> closing))
        (log ++ private_call ∷ []) h₂ in
    let (detached, c, r) = swap_root-Accepted k root (log ++ private_call ∷ []) swapped p in
    let (mounted, q, h₄) =
      >>-Returns k mount_api_filesystems (apply_masks cfg.security >> closing) swapped h₃ in
    let (masked, s, t) = >>-Returns k (apply_masks cfg.security) closing mounted h₄ in
    (
      root,
      detached,
      mounted,
      masked,
      e,
      next (refl, a) c,
      rw (sym r) q,
      s,
      finish-Finished k cfg.readonly_rootfs masked after t,
    )
  where
    closing : Sys (Unit {0})
    closing = when cfg.readonly_rootfs (context "remount / read-only" (invoke (remount_call slash)))

    from : Str → Sys (Unit {0})
    from root = swap_root root >> (mount_api_filesystems >> (apply_masks cfg.security >> closing))

    rooted : Sys (Unit {0})
    rooted = context "resolve rootfs" (lift (abs wd cfg.rootfs)) >>= from
