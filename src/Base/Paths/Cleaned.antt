-- ===== src/Base/Paths/Cleaned.antt =====
-- The parts of a rooted path that filepath.Clean returned.
use husk.Base.{◌≡◌, refl, Bool, true, false, List, [], ◌∷◌, arith, if◌then◌else◌, All}
use husk.Base.Bytes.{Str, codes, str_eq, has_str}
use husk.Base.Split.{split, join_with, Lacks, split-join_with, split-Lacks}
use husk.Base.Paths.{parts, is_rooted, ascend, enter, walk, reversed, clean}

-- A part that stands for a name: not empty, not "." and not "..", and without a slash.
abbrev pub IsName : Str → Type 0
IsName p =
    (str_eq p [] ≡ false)
    × (str_eq p (codes ".") ≡ false)
    × (str_eq p (codes "..") ≡ false)
    × Lacks b'/' p

ascend-IsName : (kept : List Str) → All IsName kept → All IsName (ascend true kept)
ascend-IsName [] h = h
ascend-IsName (p ∷ kept) h = h.1

enter-IsName :
    (kept : List Str) (p : Str) → All IsName kept → Lacks b'/' p → All IsName (enter true kept p)
unfolding enter
enter-IsName kept p h l =
    go (str_eq p []) (str_eq p (codes ".")) (str_eq p (codes "..")) refl refl refl
  where
    go :
        (a b c : Bool)
        → str_eq p [] ≡ a
        → str_eq p (codes ".") ≡ b
        → str_eq p (codes "..") ≡ c
        → All IsName
            (if a then kept else if b then kept else if c then ascend true kept else p ∷ kept)
    go true b c x y z = h
    go false true c x y z = h
    go false false true x y z = ascend-IsName kept h
    go false false false x y z = ((x, y, z, l), h)

walk-IsName :
    (ps kept : List Str) → All (Lacks b'/') ps → All IsName kept → All IsName (walk true kept ps)
unfolding walk
walk-IsName [] kept l h = h
walk-IsName (p ∷ ps) kept l h = walk-IsName ps (enter true kept p) l.1 (enter-IsName kept p h l.0)

reversed-All : (ps out : List Str) → All IsName ps → All IsName out → All IsName (reversed ps out)
reversed-All [] out h g = g
reversed-All (p ∷ ps) out h g = reversed-All ps (p ∷ out) h.1 (h.0, g)

-- Names are kept as they are.
walk-names : (ps kept : List Str) → All IsName ps → walk true kept ps ≡ reversed ps kept
unfolding walk enter
walk-names [] kept h = refl
walk-names (p ∷ ps) kept h = let (x, y, z, l) = h.0 in rw (x, y, z) (walk-names ps (p ∷ kept) h.1)

reversed-reversed : (ps out : List Str) → reversed (reversed ps out) [] ≡ reversed out ps
reversed-reversed [] out = refl
reversed-reversed (p ∷ ps) out = reversed-reversed ps (p ∷ out)

pub names-Lacks : (ps : List Str) → All IsName ps → All (Lacks b'/') ps
names-Lacks [] h = tt
names-Lacks (p ∷ ps) h = (h.0.3, names-Lacks ps h.1)

-- A rooted path that is clean: the names in it, from the root on.
pub clean-names :
    (s : Str)
    → is_rooted s ≡ true
    → (names : List Str) × All IsName names × (clean s ≡ b'/' ∷ join_with b'/' names)
unfolding clean
clean-names s rooted =
    let kept = walk true [] (parts s) in
    (
      reversed kept [],
      reversed-All kept [] (walk-IsName (parts s) [] (split-Lacks b'/' s) tt) tt,
      rw rooted refl,
    )

pub parts_rooted : (s : Str) → parts (b'/' ∷ s) ≡ [] ∷ parts s
unfolding split
parts_rooted s = ground arith

-- Clean does nothing to it.
pub clean_again :
    (names : List Str)
    → All IsName names
    → clean (b'/' ∷ join_with b'/' names) ≡ b'/' ∷ join_with b'/' names
unfolding clean walk enter join_with split str_eq
clean_again [] h = refl
clean_again (p ∷ ps) h =
    rw
      (
        split-join_with b'/' p ps (names-Lacks (p ∷ ps) h),
        walk-names (p ∷ ps) [] h,
        reversed-reversed (p ∷ ps) [],
      )
      refl

-- The parts of a clean rooted path.
pub clean-parts :
    (p : Str) (ps : List Str)
    → All IsName (p ∷ ps)
    → parts (b'/' ∷ join_with b'/' (p ∷ ps)) ≡ [] ∷ p ∷ ps
clean-parts p ps h =
    rw (parts_rooted (join_with b'/' (p ∷ ps)), split-join_with b'/' p ps (names-Lacks (p ∷ ps) h))
      refl

pub names-no_ascent : (ps : List Str) → All IsName ps → has_str ps (codes "..") ≡ false
names-no_ascent [] h = refl
names-no_ascent (p ∷ ps) h = ground (arith, h, names-no_ascent ps h.1)
