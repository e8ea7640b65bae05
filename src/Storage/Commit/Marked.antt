-- ===== src/Storage/Commit/Marked.antt =====
-- The extended attributes of a committed file, the marks of overlayfs among them.
use husk.Base.{
  true, false, ◌≡◌, ◌∙◌, refl, ap, List, [], ◌∷◌, ◌++◌, All, map, arith, append-nil, append_assoc,
}
use husk.Base.Bytes.{Str, str_eq, rev_onto, end_field}
use husk.Base.Int.{ℤ, is_positive, is_negative}
use husk.Base.Split.{Lacks}
use husk.Base.Words.{end_field-word}
use husk.Base.Outcome.{ok}
use husk.Base.Action.{each, ◌>>◌}
use husk.Kernel.{Kernel, Call, Sys, set_xattr}
use husk.Storage.Commit.{Source, split_from, split_null_terminated, copy_xattr, copy_xattrs}

-- Names, each ended by a zero byte.
abbrev pub terminated : List Str → Str
terminated [] = []
terminated (n ∷ names) = n ++ 0 ∷ terminated names

-- A name has bytes, and no zero byte.
abbrev pub IsName : Str → Type 0
IsName n = (str_eq n [] ≡ false) × Lacks 0 n

split_from-name :
    (n word rest : Str)
    → Lacks 0 n
    → split_from word (n ++ 0 ∷ rest) ≡ end_field (rev_onto n word) (split_from [] rest)
unfolding split_from rev_onto
split_from-name [] word rest h = refl
split_from-name (c ∷ n) word rest h = ground (arith, split_from-name n (c ∷ word) rest)

pub split_null_terminated-names :
    (names : List Str) → All IsName names → split_null_terminated (terminated names) ≡ names
unfolding split_null_terminated
split_null_terminated-names [] h = refl
split_null_terminated-names (n ∷ names) ((nonempty, lacks), h) =
    split_from-name n [] (terminated names) lacks
    ∙ end_field-word n (split_from [] (terminated names)) nonempty
    ∙ ap (λ out. n ∷ out) (split_null_terminated-names names h)

module _ (source : Source) (src dst : Str) (k : Kernel) where
  -- An attribute that can be read.
  abbrev pub IsReadable : (Str → Str) → Str → Type 0
  IsReadable value name =
      ((n : ℤ) × (source.value_size src name ≡ ok n) × (is_negative n ≡ false))
      × (source.value src name ≡ ok (value name))

  copy_xattr-sets :
      (value : Str → Str) (name : Str) (rest : Sys (Unit {0})) (log : List Call)
      → IsReadable value name
      → (copy_xattr source src dst name >> rest) k log
        ≡ rest k (log ++ set_xattr dst name (value name) ∷ [])
  unfolding copy_xattr
  copy_xattr-sets value name rest log ((n, e, nonneg), f) =
      rw (e, copy_xattr) (rw (nonneg, f) (ground arith))

  each-sets :
      (value : Str → Str) (names : List Str) (log : List Call)
      → All (IsReadable value) names
      → each (copy_xattr source src dst) names k log
        ≡ (ok tt, log ++ map (λ name. set_xattr dst name (value name)) names)
  each-sets value [] log h = ground (arith, append-nil log)
  each-sets value (name ∷ names) log (h, hs) =
      copy_xattr-sets value name (each (copy_xattr source src dst) names) log h
      ∙ each-sets value names (log ++ set_xattr dst name (value name) ∷ []) hs
      ∙ ap (λ l. (ok tt, l)) (append_assoc log (set_xattr dst name (value name) ∷ []) _)

  -- If the attributes of a file can be listed and read, copyXattrs sets each of them on the copy, in order
  -- and with its value, and succeeds, whatever becomes of these calls.
  pub copy_xattrs-sets :
      (value : Str → Str) (names : List Str) (size : ℤ) (log : List Call)
      → source.list_size src ≡ ok size
      → is_positive size ≡ true
      → source.list_names src ≡ ok (terminated names)
      → All IsName names
      → All (IsReadable value) names
      → copy_xattrs source src dst k log
        ≡ (ok tt, log ++ map (λ name. set_xattr dst name (value name)) names)
  unfolding copy_xattrs
  copy_xattrs-sets value names size log e positive f named h =
      rw (e, copy_xattrs)
        (rw (positive, f, split_null_terminated-names names named) (each-sets value names log h))
