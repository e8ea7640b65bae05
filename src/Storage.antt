-- ===== src/Storage.antt =====
-- internal/storage/overlay.go: images as lists of layers, and the overlay that a container mounts.
pub mod Layers
pub mod Contained
pub mod Import
pub mod Commit
use husk.Base.{
  ◌≡◌, refl, ℕ, Bool, true, false, not, ◌&&◌, ◌||◌, Option, none, some, List, [], ◌∷◌, ◌++◌, map,
  if◌then◌else◌, ltb, any, contains, length,
}
use husk.Base.Bytes.{Str, codes, str_eq, trim_space, has_prefix, rev_onto}
use husk.Base.Paths.{join, clean, reversed, walk, enter}
use husk.Base.Split.{split, join_with, lines_of}
use husk.Base.Outcome.{Outcome, ok, err}
use husk.Base.Action.{
  Errno, einval, enoent, Error, errno, wrapped, message, pure, fail, lift, each, context, ◌>>=◌,
  ◌>>◌,
}
use husk.Kernel.{
  Kernel, Call, Sys, mount, unmount_detach, mkdir_all, remove_all, write_file, invoke, tolerate,
  read_file, stat_file,
}

-- type Store is its Root; NewStore
abbrev pub new_store : Str → Str
new_store [] = codes "/var/lib/husk"
new_store (c ∷ root) = c ∷ root

abbrev pub layers_dir : Str → Str
layers_dir root = join root (codes "layers")

abbrev pub images_dir : Str → Str
images_dir root = join root (codes "images")

abbrev pub containers_dir : Str → Str
containers_dir root = join root (codes "containers")

abbrev pub layer_path : Str → Str → Str
layer_path root id = join (layers_dir root) id

abbrev pub image_path : Str → Str → Str
image_path root name = join (images_dir root) name

abbrev pub container_dir : Str → Str → Str
container_dir root id = join (containers_dir root) id

abbrev pub merged_path : Str → Str → Str
merged_path root id = join (container_dir root id) (codes "merged")

abbrev pub upper_path : Str → Str → Str
upper_path root id = join (container_dir root id) (codes "upper")

abbrev pub work_path : Str → Str → Str
work_path root id = join (container_dir root id) (codes "work")

-- Init
unfoldable pub init : Str → Sys (Unit {0})
init root =
    each (λ d. context "create" (invoke (mkdir_all d)))
      (layers_dir root ∷ images_dir root ∷ containers_dir root ∷ [])

-- strings.ContainsAny(p, ":,")
abbrev pub has_delimiter : Str → Bool
has_delimiter p = contains p b':' || contains p b','

-- The loop of overlayOptions, from the last layer path down, with `lower` collected so far.
unfoldable pub lower_dirs : List Str → Outcome Error (List Str)
lower_dirs [] = ok []
lower_dirs (p ∷ above) =
    let rest = lower_dirs above in
    if has_delimiter p
    then err (message "layer path contains a delimiter overlayfs cannot escape")
    else elim rest [ ok lower ↦ ok (p ∷ lower) | err e ↦ err e ]

abbrev pub option_text : Str → Str → Outcome Error (List Str) → Outcome Error Str
option_text upper work (err e) = err e
option_text upper work (ok lower) = ok (
    codes "lowerdir="
    ++ (join_with b':' lower ++ (codes ",upperdir=" ++ (upper ++ (codes ",workdir=" ++ work)))))

-- overlayOptions
unfoldable pub overlay_options : List Str → Str → Str → Outcome Error Str
unfolding lower_dirs
overlay_options layer_paths upper work =
    option_text upper work (lower_dirs (reversed layer_paths []))

abbrev pub layer_found : Outcome Errno Bool → Sys (Unit {0})
layer_found (ok _) = pure tt
layer_found (err e) = context "layer" (fail (errno e))

abbrev pub look_for : Str → Sys (Unit {0})
look_for path = stat_file path >>= layer_found

abbrev pub some_layers : List Str → Sys (Unit {0})
some_layers [] = fail (message "no layers to mount")
some_layers (_ ∷ _) = pure tt

-- Mount
unfoldable pub mount_overlay : Str → Str → List Str → Sys Str
mount_overlay root id layers = do
  some_layers layers
  each (λ d. context "create" (invoke (mkdir_all d)))
      (upper_path root id ∷ work_path root id ∷ merged_path root id ∷ [])
  each look_for (map (layer_path root) layers)
  opts ←
      lift (overlay_options (map (layer_path root) layers) (upper_path root id) (work_path root id))
  context "mount overlay"
      (invoke (mount (codes "overlay") (merged_path root id) (codes "overlay") [] opts))
  pure (merged_path root id)

-- err == unix.EINVAL || os.IsNotExist(err)
abbrev pub not_mounted : Errno → Bool
not_mounted einval = true
not_mounted enoent = true
not_mounted _ = false

-- Unmount
unfoldable pub unmount : Str → Str → Sys (Unit {0})
unmount root id = context "unmount" (tolerate not_mounted (unmount_detach (merged_path root id)))

-- Remove
unfoldable pub remove : Str → Str → Sys (Unit {0})
remove root id = do
  unmount root id
  context "remove container storage" (invoke (remove_all (container_dir root id)))

-- The test of the loop of ImageLayers on a trimmed line.
abbrev pub is_layer : Str → Bool
is_layer l = not (str_eq l []) && not (has_prefix l (codes "#"))

abbrev pub cons_layer : Bool → Str → List Str → List Str
cons_layer true l rest = l ∷ rest
cons_layer false l rest = rest

-- bufio.Scanner holds at most 64 KiB of a line.
abbrev pub fits : Str → Bool
fits line = ltb (length line) 65536

-- The loop of ImageLayers: the layers, and whether the scanner met its end without an error.
unfoldable pub layers_in : List Str → List Str × Bool
layers_in [] = ([], true)
layers_in (line ∷ rest) =
    let (layers, whole) = layers_in rest in
    if fits line
    then (cons_layer (is_layer (trim_space line)) (trim_space line) layers, whole)
    else ([], false)

abbrev pub scanned : Outcome Errno Str → Outcome Error (List Str)
scanned (err e) = err (wrapped "image" (errno e))
scanned (ok text) =
    let (layers, whole) = layers_in (lines_of (split b'\n' text)) in
    if whole then ok layers else err (message "bufio.Scanner: token too long")

-- ImageLayers
unfoldable pub image_layers : Str → Str → Sys (List Str)
unfolding layers_in
image_layers root name = read_file (image_path root name) >>= λ text. lift (scanned text)

-- The text that PutImage writes.
unfoldable pub image_text : List Str → Str
image_text layers = join_with b'\n' layers ++ b'\n' ∷ []

-- PutImage
unfoldable pub put_image : Str → Str → List Str → Sys (Unit {0})
unfolding image_text
put_image root name layers = do
  invoke (mkdir_all (images_dir root))
  invoke (write_file (image_path root name) (image_text layers))

-- safeJoin of import.go
unfoldable pub safe_join : Str → Str → Outcome Error Str
safe_join dest name =
    if has_prefix (clean (join dest name) ++ codes "/") (clean dest ++ codes "/")
    then ok (join dest name)
    else err (message "archive entry escapes the extraction directory")

safe_join_inside : safe_join (codes "/l/1") (codes "usr/../bin/sh") ≡ ok (codes "/l/1/bin/sh")
unfolding safe_join join clean split walk enter join_with str_eq has_prefix
safe_join_inside = refl

safe_join_sibling :
    safe_join (codes "/l/1") (codes "../12/x")
    ≡ err (message "archive entry escapes the extraction directory")
unfolding safe_join join clean split walk enter join_with str_eq has_prefix
safe_join_sibling = refl
