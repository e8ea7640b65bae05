-- ===== src/Mounts/Api/Mounted.antt =====
-- What is mounted and created after a successful run of internal/mounts/api.go.
use husk.Base.{◌≡◌, refl, ◌⊎◌, inl, inr, true, Option, none, some, List, [], ◌∷◌, ◌++◌}
use husk.Base.Bytes.{codes, str_eq}
use husk.Base.Action.{Errno, each, context, ◌>>◌}
use husk.Kernel.{
  Kernel, Call, mount, mkdir_all, mknod, chmod, touch, remove, symlink, ms_bind, invoke, tolerate,
}
use husk.Kernel.Runs.{
  Returns, >>-Returns, context-Returns, invoke-Returns, tolerate-Returns, invoked, called,
}
use husk.Kernel.Chain.{Chain, Accepted, each-Chain}
use husk.Mounts.{absent}
use husk.Mounts.Api.{
  ApiMount, api_mounts, api_call, is_optional, mount_api, Device, default_devices, bind_host_device,
  provide, setup_device, setup_device_nodes, DevLink, dev_symlinks, setup_link, setup_dev_symlinks,
  mount_api_filesystems,
}

-- The directory was made, and the mount was accepted unless it is one that may fail.
abbrev pub Mounted : Kernel → ApiMount → List Call → List Call → Type 0
Mounted k m log after =
    (k.act log (mkdir_all m.target) ≡ none)
    × (after ≡ (log ++ mkdir_all m.target ∷ []) ++ api_call m ∷ [])
    × ((k.act (log ++ mkdir_all m.target ∷ []) (api_call m) ≡ none) ⊎ (is_optional m ≡ true))

abbrev pub host_bind : Device → Call
host_bind d = mount d.path d.path [] (ms_bind ∷ []) []

abbrev pub node : Device → Call
node d = mknod d.path d.mode d.major d.minor

-- A device was made with its mode, or else an empty file was bound onto itself.
pub data Provided (k : Kernel) (d : Device) (log after : List Call) : Type 0 where
  made :
      k.act log (node d) ≡ none
      → Accepted k (chmod d.path d.mode) (log ++ node d ∷ []) after
      → Provided k d log after
  bound :
      (e : Errno) (mid : List Call)
      → k.act log (node d) ≡ some e
      → Accepted k (touch d.path) (log ++ node d ∷ []) mid
      → Accepted k (host_bind d) mid after
      → Provided k d log after

-- The link was made anew, where only that of /dev/core may fail.
abbrev pub Linked : Kernel → DevLink → List Call → List Call → Type 0
Linked k s log after =
    (after ≡ (log ++ remove s.link ∷ []) ++ symlink s.target s.link ∷ [])
    × ((k.act (log ++ remove s.link ∷ []) (symlink s.target s.link) ≡ none)
        ⊎ (str_eq s.link (codes "/dev/core") ≡ true))

module _ (k : Kernel) where
  mount_api-Mounted :
      (m : ApiMount) (log after : List Call)
      → Returns (mount_api m) k log tt after
      → Mounted k m log after
  unfolding mount_api
  mount_api-Mounted m log after h =
      let (there, rest) =
        invoked k "mkdir" (mkdir_all m.target)
          (context "mount" (tolerate (λ _. is_optional m) (api_call m))) log h in
      let (l, r) =
        tolerate-Returns (λ _. is_optional m) (api_call m) k (log ++ mkdir_all m.target ∷ [])
          (context-Returns "mount" (tolerate (λ _. is_optional m) (api_call m)) k
            (log ++ mkdir_all m.target ∷ []) rest) in
      (there, l, elim r [ inl a ↦ inl a | inr q ↦ inr q.2 ])

  setup_device-Provided :
      (d : Device) (log after : List Call)
      → Returns (setup_device d) k log tt after
      → Provided k d log after
  unfolding setup_device bind_host_device
  setup_device-Provided d log after h = go (k.act log (node d)) refl h
    where
      go :
          (a : Option Errno)
          → k.act log (node d) ≡ a
          → Returns (provide d a) k (log ++ node d ∷ []) tt after
          → Provided k d log after
      go none e r = made e (
          invoke-Returns (chmod d.path d.mode) k (log ++ node d ∷ [])
            (context-Returns "chmod" (invoke (chmod d.path d.mode)) k (log ++ node d ∷ []) r))
      go (some x) e r =
          let (mid, p, q) =
            >>-Returns k (invoke (touch d.path)) (invoke (host_bind d)) (log ++ node d ∷ [])
              (context-Returns "provide" (bind_host_device d.path) k (log ++ node d ∷ []) r) in
          bound x mid e (invoke-Returns (touch d.path) k (log ++ node d ∷ []) p)
            (invoke-Returns (host_bind d) k mid q)

  setup_link-Linked :
      (s : DevLink) (log after : List Call)
      → Returns (setup_link s) k log tt after
      → Linked k s log after
  unfolding setup_link
  setup_link-Linked s log after h =
      let may_fail = λ (_ : Errno). str_eq s.link (codes "/dev/core") in
      let (_, rest) =
        called k "clear" absent (remove s.link)
          (context "symlink" (tolerate may_fail (symlink s.target s.link))) log h in
      let (l, r) =
        tolerate-Returns may_fail (symlink s.target s.link) k (log ++ remove s.link ∷ []) (
          context-Returns "symlink" (tolerate may_fail (symlink s.target s.link)) k
            (log ++ remove s.link ∷ []) rest) in
      (l, elim r [ inl a ↦ inl a | inr q ↦ inr q.2 ])

-- After mountAPIFilesystems has succeeded every file system of its table is mounted, except that
-- /dev/pts and /dev/mqueue may be missing, every device is a node with its mode or a file bound onto
-- itself, and every link but /dev/core is made.
pub mount_api_filesystems_complete :
    (k : Kernel) (log after : List Call)
    → Returns mount_api_filesystems k log tt after
    → (mounted provided : List Call) × Chain (Mounted k) api_mounts log mounted
      × Chain (Provided k) default_devices mounted provided
      × Chain (Linked k) dev_symlinks provided after
unfolding mount_api_filesystems setup_device_nodes setup_dev_symlinks
mount_api_filesystems_complete k log after h =
    let (mounted, p, h') =
      >>-Returns k (each mount_api api_mounts) (setup_device_nodes >> setup_dev_symlinks) log h in
    let (provided, q, r) = >>-Returns k setup_device_nodes setup_dev_symlinks mounted h' in
    (
      mounted,
      provided,
      each-Chain (Mounted k) mount_api k (mount_api-Mounted k) api_mounts log p,
      each-Chain (Provided k) setup_device k (setup_device-Provided k) default_devices mounted q,
      each-Chain (Linked k) setup_link k (setup_link-Linked k) dev_symlinks provided r,
    )
