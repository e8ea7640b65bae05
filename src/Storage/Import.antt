-- ===== src/Storage/Import.antt =====
-- internal/storage/import.go: the extraction of an archive. What tar.Reader.Next returns is given as a
-- list, which ends where Next returns io.EOF.
pub mod Confined
use husk.Base.{ℕ, Bool, true, false, List, [], ◌∷◌, ◌++◌}
use husk.Base.Bytes.{Str}
use husk.Base.Outcome.{Outcome, ok, err}
use husk.Base.Action.{Error, pure, fail, lift, each, ◌>>=◌, ◌>>◌}
use husk.Base.Paths.{dir}
use husk.Kernel.{
  Sys, mkdir_all, create_file, copy_entry, remove, symlink, hard_link, mknod, mknod_block, mkfifo,
  lchown, chmod, invoke, tolerate,
}
use husk.Storage.{safe_join}

-- The type flags that extractTar tells apart.
pub data TypeFlag : Type 0 where
  type_dir type_reg type_symlink type_link type_char type_block type_fifo type_other : TypeFlag

-- tar.Header; `perm` is Mode & ModePerm, and `mode` is Mode & 0o7777.
pub record Header : Type 0 where
  pub name : Str
  pub typeflag : TypeFlag
  pub linkname : Str
  pub perm : ℕ
  pub mode : ℕ
  pub dev_major : ℕ
  pub dev_minor : ℕ
  pub uid : ℕ
  pub gid : ℕ

-- type dirMeta
pub record DirMeta : Type 0 where
  pub path : Str
  pub mode : ℕ

-- The switch of extractTar, for the place of an entry.
unfoldable pub place : Str → Str → Header → TypeFlag → Sys (Unit {0})
place dest target hdr type_dir = invoke (mkdir_all target)
place dest target hdr type_reg = do
  invoke (mkdir_all (dir target))
  invoke (create_file target hdr.perm)
  invoke (copy_entry target)
place dest target hdr type_symlink = do
  tolerate (λ _. true) (remove target)
  invoke (symlink hdr.linkname target)
place dest target hdr type_link = do
  source ← lift (safe_join dest hdr.linkname)
  tolerate (λ _. true) (remove target)
  invoke (hard_link source target)
place dest target hdr type_char =
    tolerate (λ _. true) (mknod target hdr.mode hdr.dev_major hdr.dev_minor)
place dest target hdr type_block =
    tolerate (λ _. true) (mknod_block target hdr.mode hdr.dev_major hdr.dev_minor)
place dest target hdr type_fifo = tolerate (λ _. true) (mkfifo target hdr.mode)
place dest target hdr type_other = pure tt

abbrev pub and_dir : TypeFlag → Str → ℕ → List DirMeta → List DirMeta
and_dir type_dir target perm dirs = dirs ++ record { path = target; mode = perm } ∷ []
and_dir _ target perm dirs = dirs

-- The loop of extractTar, with the directories so far.
unfoldable pub extract_from : Str → List (Outcome Error Header) → List DirMeta → Sys (Unit {0})
unfolding place
extract_from dest [] dirs = each (λ (d : DirMeta). invoke (chmod d.path d.mode)) dirs
extract_from dest (err e ∷ rest) dirs = fail e
extract_from dest (ok hdr ∷ rest) dirs = do
  target ← lift (safe_join dest hdr.name)
  place dest target hdr hdr.typeflag
  tolerate (λ _. true) (lchown target hdr.uid hdr.gid)
  extract_from dest rest (and_dir hdr.typeflag target hdr.perm dirs)

-- extractTar
unfoldable pub extract_tar : Str → List (Outcome Error Header) → Sys (Unit {0})
unfolding extract_from
extract_tar dest entries = extract_from dest entries []
