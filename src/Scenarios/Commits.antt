-- ===== src/Scenarios/Commits.antt =====
-- A commit of a file with an opaque mark, and one of a device node.
use husk.Base.{some, ◌≡◌, ◌⊎◌, refl, none, List, [], ◌∷◌, ◌++◌, arith}
use husk.Base.Bytes.{Str, codes, str_eq, has_prefix}
use husk.Base.Int.{pos}
use husk.Base.Outcome.{ok, err}
use husk.Base.Action.{Errno, enoent, message, wrapped}
use husk.Kernel.{Call, mkdir_all, remove_all}
use husk.Kernel.Runs.{Returns}
use husk.Storage.{image_layers, layer_path, put_image}
use husk.Storage.Commit.{
  Source, FileKind, Visit, regular, char_device, copy_tree, copy_xattrs, copy_xattr, copy_file,
  copy_ownership, split_null_terminated, visit, replicate, record_layer, commit,
}
use husk.Storage.Commit.Recorded.{Committed, commit-image_layers, commit-discards}
use husk.Storage.Commit.Marked.{terminated}
use husk.Scenarios.Images.{kernel, contents-append}

abbrev visited : FileKind → Visit
visited kind = record {
  path = codes "/r/containers/c1/upper/f";
  rel = ok (codes "f");
  kind = kind;
  perm = 420;
  problem = none;
}

abbrev mark : Str
mark = codes "trusted.overlay.opaque"

abbrev source : FileKind → Source
source kind = record {
  walk = λ src. visited kind ∷ [];
  lstat = λ path. none;
  unix_stat = λ path. none;
  readlink = λ path. err enoent;
  list_size = λ path. ok (pos 23);
  list_names = λ path. ok (terminated (mark ∷ []));
  value_size = λ path name. ok (pos 1);
  value = λ path name. ok (codes "y");
}

abbrev made : List Call
made =
    (commit (source regular) (codes "/r") (codes "c1") (codes "new") (codes "l1" ∷ []) (codes "l2")
      kernel []).1

commit-image_layers_example :
    Committed
      (source regular)
      kernel
      (codes "/r")
      (codes "c1")
      (codes "new")
      (codes "l1" ∷ [])
      (codes "l2")
      []
      (codes "l2")
      made
    × Returns
        (image_layers (codes "/r") (codes "new"))
        kernel
        made
        (codes "l1" ∷ codes "l2" ∷ [])
        made
unfolding commit record_layer copy_tree visit replicate copy_file copy_ownership copy_xattrs
    copy_xattr split_null_terminated put_image str_eq has_prefix
commit-image_layers_example =
    commit-image_layers (source regular) kernel (codes "/r") (codes "c1") (codes "new")
      (codes "l1" ∷ []) (codes "l2")
      (λ log path text accepted. contents-append path (err enoent) log text) [] {made = codes "l2"}
      {after = made}
      (((refl, (refl, tt)), refl, omega arith), (((refl, (refl, tt)), refl, omega arith), tt)) refl

abbrev lost : List Call
lost =
    (commit (source char_device) (codes "/r") (codes "c1") (codes "new") [] (codes "l2") kernel
      []).1

commit-discards_example :
    (lost ≡ [])
    ⊎ (((lost ≡ mkdir_all (layer_path (codes "/r") (codes "l2")) ∷ [])
          × ((x : Errno) × (kernel.act [] (mkdir_all (layer_path (codes "/r") (codes "l2")))
                ≡ some x)))
        ⊎ ((mid : List Call) × (lost
              ≡ mid ++ remove_all (layer_path (codes "/r") (codes "l2")) ∷ [])))
unfolding commit record_layer copy_tree visit replicate str_eq
commit-discards_example =
    commit-discards (source char_device) kernel (codes "/r") (codes "c1") (codes "new") []
      (codes "l2") [] {e = wrapped "snapshot writable layer" (message "cannot read device numbers")}
      {after = lost} refl
