-- ===== src/Storage/Commit.antt =====
-- internal/storage/commit.go: a container's writable layer as a layer of a new image. What filepath.Walk
-- visits, and what lstat, readlink and the xattr calls answer for the source, are parameters.
pub mod Recorded
pub mod Marked
use husk.Base.{
  ℕ, ltb, ◌==◌, Bool, true, false, Option, none, some, List, [], ◌∷◌, ◌++◌, if◌then◌else◌,
}
use husk.Base.Bytes.{Str, codes, str_eq, end_field}
use husk.Base.Int.{ℤ, is_positive, is_negative}
use husk.Base.Outcome.{Outcome, ok, err}
use husk.Base.Action.{
  Errno, eperm, eacces, Error, errno, message, wrapped, pure, fail, lift, try, each, context, ◌>>=◌,
  ◌>>◌,
}
use husk.Base.Paths.{join}
use husk.Kernel.{
  Call, Sys, mkdir_all, symlink, mknod, mknod_block, open_read, create_file, copy_entry, chmod,
  mkdir_all_as, close, lchown, set_xattr, remove_all, invoke, tolerate, stat_file,
}
use husk.Storage.{upper_path, layer_path, put_image}

-- What the mode of a visited file says.
pub data FileKind : Type 0 where
  directory link char_device block_device regular other_kind : FileKind

-- The fields of *unix.Stat_t that are used.
pub record Owner : Type 0 where
  pub uid : ℕ
  pub gid : ℕ
  pub major : ℕ
  pub minor : ℕ

-- One call of the walk's function; `rel` is filepath.Rel(src, path).
pub record Visit : Type 0 where
  pub path : Str
  pub rel : Outcome Error Str
  pub kind : FileKind
  pub perm : ℕ
  pub problem : Option Errno

-- The source: the visits of the walk, os.Lstat, the assertion of Sys() to *unix.Stat_t, os.Readlink,
-- Llistxattr without and with a buffer, and Lgetxattr without and with one.
pub record Source : Type 0 where
  pub walk : Str → List Visit
  pub lstat : Str → Option Errno
  pub unix_stat : Str → Option Owner
  pub readlink : Str → Outcome Errno Str
  pub list_size : Str → Outcome Errno ℤ
  pub list_names : Str → Outcome Errno Str
  pub value_size : Str → Str → Outcome Errno ℤ
  pub value : Str → Str → Outcome Errno Str

-- splitNullTerminated; `word` is what stands since `start`, in reverse.
unfoldable pub split_from : Str → Str → List Str
split_from word [] = []
split_from word (c ∷ s) =
    if c == 0 then end_field word (split_from [] s) else split_from (c ∷ word) s

unfoldable pub split_null_terminated : Str → List Str
unfolding split_from
split_null_terminated s = split_from [] s

-- os.IsPermission
abbrev pub is_permission : Errno → Bool
is_permission eperm = true
is_permission eacces = true
is_permission _ = false

abbrev pub returned : {A : Type 0} → Outcome Errno A → Outcome Error A
returned (ok a) = ok a
returned (err e) = err (errno e)

-- defer f.Close()
abbrev pub closing : Str → Sys (Unit {0}) → Sys (Unit {0})
closing path m = try m >>= λ outcome. tolerate (λ _. true) (close path) >> lift outcome

-- copyFile
unfoldable pub copy_file : Str → Str → ℕ → Sys (Unit {0})
copy_file src dst mode = do
  invoke (open_read src)
  closing src (
      invoke (create_file dst mode)
      >> closing dst (invoke (copy_entry dst) >> invoke (chmod dst mode)))

abbrev pub chown_as : Option Owner → Str → Sys (Unit {0})
chown_as none dst = pure tt
chown_as (some o) dst = tolerate is_permission (lchown dst o.uid o.gid)

-- What is done when the layer cannot be finished.
abbrev pub or_discard : Str → Outcome Error (Unit {0}) → Sys (Unit {0})
or_discard dest (ok _) = pure tt
or_discard dest (err e) = tolerate (λ _. true) (remove_all dest) >> fail e

abbrev pub discarding : Str → Sys (Unit {0}) → Sys (Unit {0})
discarding dest m = try m >>= or_discard dest

abbrev pub writable : Outcome Errno Bool → Sys (Unit {0})
writable (ok _) = pure tt
writable (err e) = fail (wrapped "container has no writable layer" (errno e))

module _ (source : Source) where
  -- copyOwnership; a link is treated as every other file.
  unfoldable pub copy_ownership : Str → Str → Sys (Unit {0})
  copy_ownership src dst = elim (source.lstat src) [
    | some e ↦ fail (errno e)
    | none ↦ chown_as (source.unix_stat src) dst
  ]

  abbrev pub set_value : Outcome Errno Str → Str → Str → Sys (Unit {0})
  set_value (err e) dst name = pure tt
  set_value (ok v) dst name = tolerate (λ _. true) (set_xattr dst name v)

  -- One round of the loop of copyXattrs.
  unfoldable pub copy_xattr : Str → Str → Str → Sys (Unit {0})
  copy_xattr src dst name = elim (source.value_size src name) [
    | err e ↦ pure tt
    | ok n ↦ if is_negative n then pure tt else set_value (source.value src name) dst name
  ]

  abbrev pub copy_listed : Outcome Errno Str → Str → Str → Sys (Unit {0})
  copy_listed (err e) src dst = pure tt
  copy_listed (ok names) src dst = each (copy_xattr src dst) (split_null_terminated names)

  -- copyXattrs
  unfoldable pub copy_xattrs : Str → Str → Sys (Unit {0})
  unfolding copy_xattr
  copy_xattrs src dst = elim (source.list_size src) [
    | err e ↦ pure tt
    | ok n ↦ if is_positive n then copy_listed (source.list_names src) src dst else pure tt
  ]

  -- The end of the function for all but links and what is skipped.
  abbrev pub keep_attributes : Str → Str → Sys (Unit {0})
  keep_attributes src dst = copy_ownership src dst >> copy_xattrs src dst

  abbrev pub node : FileKind → Str → ℕ → Option Owner → Sys (Unit {0})
  node kind dst perm none = fail (message "cannot read device numbers")
  node char_device dst perm (some o) =
      context "recreate device node" (invoke (mknod dst perm o.major o.minor))
  node _ dst perm (some o) =
      context "recreate device node" (invoke (mknod_block dst perm o.major o.minor))

  -- The switch of copyTree.
  unfoldable pub replicate : FileKind → Visit → Str → Sys (Unit {0})
  unfolding copy_ownership copy_xattrs
  replicate directory v dst = invoke (mkdir_all_as dst v.perm) >> keep_attributes v.path dst
  replicate link v dst = do
    target ← lift (returned (source.readlink v.path))
    invoke (symlink target dst)
    copy_ownership v.path dst
  replicate char_device v dst =
      node char_device dst v.perm (source.unix_stat v.path) >> keep_attributes v.path dst
  replicate block_device v dst =
      node block_device dst v.perm (source.unix_stat v.path) >> keep_attributes v.path dst
  replicate regular v dst = copy_file v.path dst v.perm >> keep_attributes v.path dst
  replicate other_kind v dst = pure tt

  abbrev pub replicate_at : Visit → Str → Str → Sys (Unit {0})
  replicate_at v dst rel =
      if str_eq rel (codes ".") then pure tt else replicate v.kind v (join dst rel)

  -- The function of the walk.
  unfoldable pub visit : Str → Visit → Sys (Unit {0})
  unfolding replicate
  visit dst v = elim v.problem [
    | some e ↦ fail (errno e)
    | none ↦ lift v.rel >>= λ rel. replicate_at v dst rel
  ]

  -- copyTree
  unfoldable pub copy_tree : Str → Str → Sys (Unit {0})
  copy_tree src dst = each (visit dst) (source.walk src)

  -- Commit behind the search; `layer` is what NewLayerID gives.
  unfoldable pub record_layer : Str → Str → Str → List Str → Str → Sys Str
  unfolding copy_tree
  record_layer root id name base layer = do
    context "create layer" (invoke (mkdir_all (layer_path root layer)))
    discarding (layer_path root layer)
        (context "snapshot writable layer" (copy_tree (upper_path root id) (layer_path root layer)))
    discarding (layer_path root layer) (put_image root name (base ++ layer ∷ []))
    pure layer

  -- Commit
  unfoldable pub commit : Str → Str → Str → List Str → Str → Sys Str
  unfolding record_layer
  commit root id name base layer = do
    (stat_file (upper_path root id) >>= writable)
    record_layer root id name base layer
