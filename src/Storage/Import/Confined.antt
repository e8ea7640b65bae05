-- ===== src/Storage/Import/Confined.antt =====
-- Which paths the extraction of an archive names to the kernel.
use husk.Base.{ℕ, ◌≡◌, refl, ◌⊎◌, inl, inr, Bool, true, false, List, [], ◌∷◌, ◌++◌, All}
use husk.Base.Bytes.{Str}
use husk.Base.Outcome.{Outcome, ok, err}
use husk.Base.Action.{Errno, Error, ◌>>◌}
use husk.Base.Paths.{dir, clean, is_rooted}
use husk.Kernel.{
  Kernel, Call, Sys, mkdir_all, create_file, copy_entry, remove, symlink, hard_link, mknod,
  mknod_block, mkfifo, lchown, chmod, invoke, tolerate,
}
use husk.Kernel.Only.{Extends, Only, same-Extends, bind-Only, lift-Only, call-Only, each-Only}
use husk.Storage.{safe_join}
use husk.Storage.Contained.{IsWithin, safe_join-IsWithin}
use husk.Storage.Import.{
  TypeFlag, type_dir, type_reg, type_symlink, type_link, type_char, type_block, type_fifo,
  type_other, Header, DirMeta, place, and_dir, extract_from, extract_tar,
}

-- A call that names only paths within `d`, but for the directory of a file and the text of a symlink.
abbrev pub Confined : Str → Call → Type 0
Confined d (mkdir_all p) = (t : Str) × IsWithin d t × ((p ≡ t) ⊎ (p ≡ dir t))
Confined d (create_file p m) = IsWithin d p
Confined d (copy_entry p) = IsWithin d p
Confined d (remove p) = IsWithin d p
Confined d (symlink text p) = IsWithin d p
Confined d (hard_link s p) = IsWithin d s × IsWithin d p
Confined d (mknod p m a b) = IsWithin d p
Confined d (mknod_block p m a b) = IsWithin d p
Confined d (mkfifo p m) = IsWithin d p
Confined d (lchown p u g) = IsWithin d p
Confined d (chmod p m) = IsWithin d p
Confined d _ = ⊥

-- The directories whose mode is set lie within `d`, the new one included.
and_dir-All :
    (d : Str) (flag : TypeFlag) (target : Str) (perm : ℕ) (dirs : List DirMeta)
    → IsWithin d target
    → All (λ (m : DirMeta). IsWithin d m.path) dirs
    → All (λ (m : DirMeta). IsWithin d m.path) (and_dir flag target perm dirs)
and_dir-All d type_dir target perm dirs w h = snoc dirs h
  where
    snoc :
        (dirs : List DirMeta)
        → All (λ (m : DirMeta). IsWithin d m.path) dirs
        → All
            (λ (m : DirMeta). IsWithin d m.path)
            (dirs ++ record { path = target; mode = perm } ∷ [])
    snoc [] h = (w, tt)
    snoc (x ∷ dirs) h = (h.0, snoc dirs h.1)
and_dir-All d type_reg target perm dirs w h = h
and_dir-All d type_symlink target perm dirs w h = h
and_dir-All d type_link target perm dirs w h = h
and_dir-All d type_char target perm dirs w h = h
and_dir-All d type_block target perm dirs w h = h
and_dir-All d type_fifo target perm dirs w h = h
and_dir-All d type_other target perm dirs w h = h

module _ (k : Kernel) (dest : Str) (rooted : is_rooted dest ≡ true) where
  abbrev Keeps : Sys (Unit {0}) → Type 0
  Keeps = Only (Confined (clean dest)) k

  one : (ignored : Errno → Bool) (c : Call) → Confined (clean dest) c → Keeps (tolerate ignored c)
  one = call-Only (Confined (clean dest)) k

  both : (m n : Sys (Unit {0})) → Keeps m → Keeps n → Keeps (m >> n)
  both m n hm hn = bind-Only (Confined (clean dest)) k m (λ _. n) hm (λ _. hn)

  place-Only :
      (target : Str) (hdr : Header) (flag : TypeFlag)
      → IsWithin (clean dest) target
      → Keeps (place dest target hdr flag)
  unfolding place
  place-Only target hdr type_dir w = one (λ _. false) (mkdir_all target) (target, w, inl refl)
  place-Only target hdr type_reg w =
      let m = invoke (mkdir_all (dir target)) in
      let c = invoke (create_file target hdr.perm) in
      let f = invoke (copy_entry target) in
      both m (c >> f) (one (λ _. false) (mkdir_all (dir target)) (target, w, inr refl)) (
        both c f (one (λ _. false) (create_file target hdr.perm) w)
          (one (λ _. false) (copy_entry target) w))
  place-Only target hdr type_symlink w =
      both (tolerate (λ _. true) (remove target)) (invoke (symlink hdr.linkname target))
        (one (λ _. true) (remove target) w) (one (λ _. false) (symlink hdr.linkname target) w)
  place-Only target hdr type_link w =
      let r = tolerate (λ _. true) (remove target) in
      lift-Only (Confined (clean dest)) k (safe_join dest hdr.linkname)
        (λ source. r >> invoke (hard_link source target))
        (λ source e. both r (invoke (hard_link source target)) (one (λ _. true) (remove target) w) (
          one (λ _. false) (hard_link source target)
            (safe_join-IsWithin dest hdr.linkname source rooted e, w)))
  place-Only target hdr type_char w =
      one (λ _. true) (mknod target hdr.mode hdr.dev_major hdr.dev_minor) w
  place-Only target hdr type_block w =
      one (λ _. true) (mknod_block target hdr.mode hdr.dev_major hdr.dev_minor) w
  place-Only target hdr type_fifo w = one (λ _. true) (mkfifo target hdr.mode) w
  place-Only target hdr type_other w = same-Extends (Confined (clean dest)) k

  dirs-Only :
      (dirs : List DirMeta)
      → All (λ (d : DirMeta). IsWithin (clean dest) d.path) dirs
      → All (λ (d : DirMeta). Keeps (invoke (chmod d.path d.mode))) dirs
  dirs-Only [] h = tt
  dirs-Only (d ∷ dirs) h = (one (λ _. false) (chmod d.path d.mode) h.0, dirs-Only dirs h.1)

  extract_from-Only :
      (entries : List (Outcome Error Header)) (dirs : List DirMeta)
      → All (λ (d : DirMeta). IsWithin (clean dest) d.path) dirs
      → Keeps (extract_from dest entries dirs)
  unfolding extract_from
  extract_from-Only [] dirs h =
      each-Only (Confined (clean dest)) k (λ (d : DirMeta). invoke (chmod d.path d.mode)) dirs
        (dirs-Only dirs h)
  extract_from-Only (err e ∷ rest) dirs h = same-Extends (Confined (clean dest)) k
  extract_from-Only (ok hdr ∷ rest) dirs h =
      let after =
        λ (target : Str). extract_from dest rest (and_dir hdr.typeflag target hdr.perm dirs) in
      let own = λ (target : Str). tolerate (λ _. true) (lchown target hdr.uid hdr.gid) in
      lift-Only (Confined (clean dest)) k (safe_join dest hdr.name)
        (λ target. place dest target hdr hdr.typeflag >> (own target >> after target))
        (λ target e.
          let w = safe_join-IsWithin dest hdr.name target rooted e in
          both (place dest target hdr hdr.typeflag) (own target >> after target)
            (place-Only target hdr hdr.typeflag w)
            (both (own target) (after target) (one (λ _. true) (lchown target hdr.uid hdr.gid) w) (
              extract_from-Only rest (and_dir hdr.typeflag target hdr.perm dirs)
                (and_dir-All (clean dest) hdr.typeflag target hdr.perm dirs w h))))

  -- If the directory to extract to is given by an absolute path: whatever an archive holds and wherever its
  -- extraction fails, every call that extractTar makes names only paths that lie, as texts, within the directory to extract to: the entries, the sources of hard
  -- links and the directories whose mode is set. The directory that is made for a file is that of such a
  -- path; what a symlink points to is not looked at.
  pub extract_tar-Confined :
      (entries : List (Outcome Error Header)) (log : List Call)
      → Extends (Confined (clean dest)) k log (extract_tar dest entries k log).1
  unfolding extract_tar
  extract_tar-Confined entries = extract_from-Only entries [] tt
