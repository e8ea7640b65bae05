-- ===== src/Storage/Layers.antt =====
-- The lists of layers that internal/storage/overlay.go writes are read back, by itself and by the kernel.
use husk.Base.{
  ℕ, ◌<◌, Bool, true, false, ◌||◌, ◌≡◌, ◌≢◌, ◌⊎◌, inl, inr, refl, Bool-cases, List, [], ◌∷◌, ◌++◌,
  arith, contains, contains-append, any, All, length, some, none,
}
use husk.Base.Bytes.{Str, codes, str_eq, trim_space, is_space, cut}
use husk.Base.Split.{
  split, join_with, lines_of, Lacks, split-join_with, split-ended, lines_of-ended, cut-append,
}
use husk.Base.Outcome.{ok, err}
use husk.Base.Action.{Error, message}
use husk.Base.Numbers.{IsSolid, trim_space-solid}
use husk.Base.Words.{solid-Lacks}
use husk.Kernel.{Kernel, Call, mkdir_all, write_file, invoke}
use husk.Kernel.Runs.{Returns, >>-Returns, invoke-Returns}
use husk.Base.Paths.{reversed}
use husk.Storage.{
  has_delimiter, lower_dirs, option_text, overlay_options, is_layer, layers_in, scanned,
  image_layers, image_text, put_image, images_dir, image_path,
}

-- A layer id as husk makes them: no white space, not empty, no comment, and no longer than a line may be.
abbrev pub IsLayer : Str → Type 0
IsLayer l = IsSolid l × (is_layer l ≡ true) × (length l < 65536)

layers-Lacks : (c : ℕ) → is_space c ≡ true → (ls : List Str) → All IsLayer ls → All (Lacks c) ls
layers-Lacks c h [] p = tt
layers-Lacks c h (l ∷ ls) (this, rest) = (solid-Lacks c h l this.0, layers-Lacks c h ls rest)

layers_in-layers : (ls : List Str) → All IsLayer ls → layers_in ls ≡ (ls, true)
unfolding layers_in
layers_in-layers [] p = refl
layers_in-layers (l ∷ ls) (this, rest) =
    rw (trim_space-solid l this.0, layers_in-layers ls rest) (ground (arith, this))

scanned-image_text : (ls : List Str) → All IsLayer ls → scanned (ok (image_text ls)) ≡ ok ls
unfolding image_text layers_in lines_of split join_with str_eq trim_space
scanned-image_text [] p = refl
scanned-image_text (l ∷ ls) p =
    rw
      (
        split-ended b'\n' l ls (layers-Lacks b'\n' refl (l ∷ ls) p),
        lines_of-ended (l ∷ ls) (layers-Lacks 13 refl (l ∷ ls) p),
        layers_in-layers (l ∷ ls) p,
      )
      refl

module _ (k : Kernel)
    (persists : (log : List Call) (path text : Str)
      → k.act log (write_file path text) ≡ none
      → k.read (log ++ write_file path text ∷ []) path ≡ ok text) where
  -- Where a file that was written holds what was written: the layers that PutImage records for an image
  -- are those that ImageLayers returns for it, in order, if each of them is a layer id.
  pub put_image-image_layers :
      (root name : Str) (layers : List Str) (log after : List Call)
      → All IsLayer layers
      → Returns (put_image root name layers) k log tt after
      → Returns (image_layers root name) k after layers after
  unfolding put_image image_layers
  put_image-image_layers root name layers log after p h =
      let c = mkdir_all (images_dir root) in
      let w = write_file (image_path root name) (image_text layers) in
      let (mid, x, y) = >>-Returns k (invoke c) (invoke w) log h in
      let (l, a) = invoke-Returns w k mid y in
      rw (l, persists mid (image_path root name) (image_text layers) a, scanned-image_text layers p)
        refl

-- A layer path that the option string can hold.
abbrev pub IsClean : Str → Type 0
IsClean p = has_delimiter p ≡ false

lower_dirs-IsClean : (ps : List Str) → All IsClean ps → lower_dirs ps ≡ ok ps
unfolding lower_dirs
lower_dirs-IsClean [] h = refl
lower_dirs-IsClean (p ∷ ps) (this, rest) = rw (this, lower_dirs-IsClean ps rest) refl

any-reversed :
    (f : Str → Bool) (ps out : List Str) → any f (reversed ps out) ≡ (any f ps || any f out)
any-reversed f [] out = refl
any-reversed f (p ∷ ps) out = ground (arith, any-reversed f ps (p ∷ out))

All-IsClean : (ps : List Str) → any has_delimiter ps ≡ false → All IsClean ps
All-IsClean [] h = tt
All-IsClean (p ∷ ps) h = (ground arith, All-IsClean ps (ground arith))

lower_dirs-fails :
    (ps : List Str) → any has_delimiter ps ≡ true → (e : Error) × (lower_dirs ps ≡ err e)
unfolding lower_dirs
lower_dirs-fails [] h = absurd (cc h)
lower_dirs-fails (p ∷ ps) h = elim (Bool-cases (has_delimiter p)) [
  | inl here ↦ (message "layer path contains a delimiter overlayfs cannot escape", rw here refl)
  | inr later ↦ let (e, r) = lower_dirs-fails ps (ground arith) in (e, rw (later, r) refl)
]

clean-Lacks : (c : ℕ) → (c ≡ b':') ⊎ (c ≡ b',') → (p : Str) → IsClean p → Lacks c p
clean-Lacks c (inl e) p h = rw e (ground arith)
clean-Lacks c (inr e) p h = rw e (ground arith)

joined-Lacks : (ps : List Str) → All IsClean ps → contains (join_with b':' ps) b',' ≡ false
unfolding join_with
joined-Lacks [] h = refl
joined-Lacks (p ∷ []) h = clean-Lacks b',' (inr refl) p h.0
joined-Lacks (p ∷ q ∷ ps) h = ground (
  arith,
  contains-append p (b':' ∷ join_with b':' (q ∷ ps)) b',',
  clean-Lacks b',' (inr refl) p h.0,
  joined-Lacks (q ∷ ps) h.1,
)

colon-free : (ps : List Str) → All IsClean ps → All (Lacks b':') ps
colon-free [] h = tt
colon-free (p ∷ ps) h = (clean-Lacks b':' (inl refl) p h.0, colon-free ps h.1)

-- What is read from the options of an overlay: the layers of lowerdir, the topmost first, and the rest.
abbrev pub ReadsAs : Str → List Str → Str → Type 0
ReadsAs text layers rest =
    (lower : Str) × (cut b',' text ≡ some (codes "lowerdir=" ++ lower, rest))
    × (split b':' lower ≡ layers)

reads :
    (p : Str) (ps : List Str) (rest : Str)
    → All IsClean (p ∷ ps)
    → ReadsAs (codes "lowerdir=" ++ join_with b':' (p ∷ ps) ++ b',' ∷ rest) (p ∷ ps) rest
reads p ps rest h =
    let lower = join_with b':' (p ∷ ps) in
    (
      lower,
      cut-append b',' (codes "lowerdir=" ++ lower) rest (joined-Lacks (p ∷ ps) h),
      split-join_with b':' p ps (colon-free (p ∷ ps) h),
    )

reversed_filled : {A : Type 0} (xs : List A) (x : A) (out : List A) → reversed xs (x ∷ out) ≢ []
reversed_filled [] x out e = cc
reversed_filled (y ∷ xs) x out e = reversed_filled xs y (x ∷ out) e

-- overlayOptions refuses exactly the layer paths with a ':' or a ','; for all others, given base first,
-- the option string is read as a lowerdir of these paths with the topmost layer first, followed by the
-- upper and the work directory.
pub overlay_options_topmost_first :
    (p : Str) (ps : List Str) (upper work : Str)
    → ((any has_delimiter (p ∷ ps) ≡ true)
        × ((e : Error) × (overlay_options (p ∷ ps) upper work ≡ err e)))
      ⊎ ((any has_delimiter (p ∷ ps) ≡ false)
          × ((text : Str) × (overlay_options (p ∷ ps) upper work ≡ ok text)
              × ReadsAs text
                  (reversed (p ∷ ps) [])
                  (codes "upperdir=" ++ (upper ++ (codes ",workdir=" ++ work)))))
unfolding overlay_options
overlay_options_topmost_first p ps upper work = elim (Bool-cases (any has_delimiter (p ∷ ps))) [
  | inl found ↦
      let (e, r) =
        lower_dirs-fails (reversed (p ∷ ps) [])
          (ground (arith, any-reversed has_delimiter (p ∷ ps) [], found)) in
      inl (found, (e, rw r refl))
  | inr free ↦ inr (
    free,
    go (reversed (p ∷ ps) []) refl (
        All-IsClean (reversed (p ∷ ps) [])
          (ground (arith, any-reversed has_delimiter (p ∷ ps) [], free))),
  )
]
  where
    after : Str
    after = codes "upperdir=" ++ (upper ++ (codes ",workdir=" ++ work))

    go :
        (ls : List Str)
        → reversed (p ∷ ps) [] ≡ ls
        → All IsClean ls
        → (text : Str) × (option_text upper work (lower_dirs ls) ≡ ok text) × ReadsAs text ls after
    go [] e h = absurd (reversed_filled ps p [] e)
    go (q ∷ qs) e h = (
      codes "lowerdir=" ++ (join_with b':' (q ∷ qs) ++ b',' ∷ after),
      rw (lower_dirs-IsClean (q ∷ qs) h) refl,
      reads q qs after h,
    )
