-- ===== src/Base/Split.antt =====
-- strings.Split and strings.Join around one byte, and bufio.ScanLines.
use husk.Base.{
  Bool, true, ℕ, false, some, ◌≡◌, refl, List, [], ◌∷◌, ◌++◌, arith, ◌==◌, if◌then◌else◌, contains,
  All, append_assoc,
}
use husk.Base.Bytes.{Str, cut}

abbrev pub onto : ℕ → List Str → List Str
onto c [] = (c ∷ []) ∷ []
onto c (p ∷ ps) = (c ∷ p) ∷ ps

-- strings.Split
unfoldable pub split : ℕ → Str → List Str
split sep [] = [] ∷ []
split sep (c ∷ s) = if c == sep then [] ∷ split sep s else onto c (split sep s)

-- strings.Join
unfoldable pub join_with : ℕ → List Str → Str
join_with sep [] = []
join_with sep (p ∷ []) = p
join_with sep (p ∷ q ∷ ps) = p ++ sep ∷ join_with sep (q ∷ ps)

-- One trailing '\r' is no part of a line.
unfoldable pub drop_cr : Str → Str
drop_cr [] = []
drop_cr (c ∷ []) = if c == 13 then [] else c ∷ []
drop_cr (c ∷ d ∷ s) = c ∷ drop_cr (d ∷ s)

-- The lines of a text, where an empty one behind the last '\n' does not count.
unfoldable pub lines_of : List Str → List Str
unfolding drop_cr
lines_of [] = []
lines_of ([] ∷ []) = []
lines_of ((c ∷ p) ∷ []) = drop_cr (c ∷ p) ∷ []
lines_of (p ∷ q ∷ ps) = drop_cr p ∷ lines_of (q ∷ ps)

abbrev pub Lacks : ℕ → Str → Type 0
Lacks sep s = contains s sep ≡ false

split-append : (sep : ℕ) (p s : Str) → Lacks sep p → split sep (p ++ sep ∷ s) ≡ p ∷ split sep s
unfolding split
split-append sep [] s h = ground arith
split-append sep (c ∷ p) s h = ground (arith, split-append sep p s)

split-single : (sep : ℕ) (p : Str) → Lacks sep p → split sep p ≡ p ∷ []
unfolding split
split-single sep [] h = refl
split-single sep (c ∷ p) h = ground (arith, split-single sep p)

-- What is joined is split again, if the separator occurs in no part.
pub split-join_with :
    (sep : ℕ) (p : Str) (ps : List Str)
    → All (Lacks sep) (p ∷ ps)
    → split sep (join_with sep (p ∷ ps)) ≡ p ∷ ps
unfolding join_with
split-join_with sep p [] h = split-single sep p h.0
split-join_with sep p (q ∷ ps) h =
    ground (arith, split-append sep p (join_with sep (q ∷ ps)) h.0, split-join_with sep q ps h.1)

split-empty : (sep : ℕ) → split sep [] ≡ [] ∷ []
unfolding split
split-empty sep = refl

-- The same where the separator and some more text follow.
pub split-join_more :
    (sep : ℕ) (p : Str) (ps : List Str) (s : Str)
    → All (Lacks sep) (p ∷ ps)
    → split sep (join_with sep (p ∷ ps) ++ sep ∷ s) ≡ (p ∷ ps) ++ split sep s
unfolding join_with
split-join_more sep p [] s h = split-append sep p s h.0
split-join_more sep p (q ∷ ps) s h =
    let rest = join_with sep (q ∷ ps) in
    ground (
      arith,
      append_assoc p (sep ∷ rest) (sep ∷ s),
      split-append sep p (rest ++ sep ∷ s) h.0,
      split-join_more sep q ps s h.1,
    )

pub split-ended :
    (sep : ℕ) (p : Str) (ps : List Str)
    → All (Lacks sep) (p ∷ ps)
    → split sep (join_with sep (p ∷ ps) ++ sep ∷ []) ≡ (p ∷ ps) ++ [] ∷ []
unfolding split
split-ended sep p ps h = split-join_more sep p ps [] h

onto-Lacks :
    (sep c : ℕ) (ps : List Str)
    → (c == sep) ≡ false
    → All (Lacks sep) ps
    → All (Lacks sep) (onto c ps)
onto-Lacks sep c [] h a = (ground arith, tt)
onto-Lacks sep c (p ∷ ps) h a = (ground (arith, a.0), a.1)

pub split-Lacks : (sep : ℕ) (s : Str) → All (Lacks sep) (split sep s)
unfolding split
split-Lacks sep [] = (refl, tt)
split-Lacks sep (c ∷ s) = go (c == sep) refl (split-Lacks sep s)
  where
    go :
        (b : Bool)
        → (c == sep) ≡ b
        → All (Lacks sep) (split sep s)
        → All (Lacks sep) (if b then [] ∷ split sep s else onto c (split sep s))
    go true e ih = (refl, ih)
    go false e ih = onto-Lacks sep c (split sep s) e ih

drop_cr-keeps : (s : Str) → Lacks 13 s → drop_cr s ≡ s
unfolding drop_cr
drop_cr-keeps [] h = refl
drop_cr-keeps (c ∷ []) h = ground arith
drop_cr-keeps (c ∷ d ∷ s) h = ground (arith, drop_cr-keeps (d ∷ s))

-- The lines of lines that were ended by '\n'.
pub lines_of-ended : (ps : List Str) → All (Lacks 13) ps → lines_of (ps ++ [] ∷ []) ≡ ps
unfolding lines_of
lines_of-ended [] h = refl
lines_of-ended ([] ∷ []) h = ground (arith, drop_cr-keeps [])
lines_of-ended ((c ∷ p) ∷ []) h = ground (arith, drop_cr-keeps (c ∷ p) h.0)
lines_of-ended (p ∷ q ∷ ps) h = ground (arith, drop_cr-keeps p h.0, lines_of-ended (q ∷ ps) h.1)

-- What is put together around the first separator is cut there.
pub cut-append : (c : ℕ) (p s : Str) → Lacks c p → cut c (p ++ c ∷ s) ≡ some (p, s)
unfolding cut
cut-append c [] s h = ground arith
cut-append c (x ∷ p) s h = ground (arith, cut-append c p s)
