-- ===== src/Storage/Contained.antt =====
-- What safeJoin accepts lies under its directory.
use husk.Base.{
  ℕ, ◌≡◌, ◌≢◌, refl, sym, ap, ◌∙◌, true, false, Bool-cases, inl, inr, List, [], ◌∷◌, ◌++◌, arith,
  All, append_assoc, ◌==◌,
}
use husk.Base.Bytes.{str_eq_refl, Str, codes, str_eq, has_str, has_prefix}
use husk.Base.Split.{onto, split, join_with, split-join_more}
use husk.Base.Outcome.{ok}
use husk.Base.Paths.{parts, is_rooted, clean, join}
use husk.Base.Paths.Cleaned.{
  IsName, clean-names, clean_again, clean-parts, parts_rooted, names-Lacks, names-no_ascent,
}
use husk.Storage.{safe_join}

has_prefix-rest : (s p : Str) → has_prefix s p ≡ true → (rest : Str) × (s ≡ p ++ rest)
unfolding has_prefix
has_prefix-rest s [] h = (s, refl)
has_prefix-rest [] (b ∷ p) h = absurd (cc h)
has_prefix-rest (a ∷ s) (b ∷ p) h =
    let (rest, e) = has_prefix-rest s p (ground arith) in
    let same : a ≡ b = ground arith in (rest, rw (same, e) refl)

-- What join gives for a rooted directory is the clean form of a rooted path.
join-rooted :
    (dest name : Str)
    → is_rooted dest ≡ true
    → (s : Str) × (is_rooted s ≡ true) × (join dest name ≡ clean s)
unfolding join
join-rooted [] name h = absurd (cc h)
join-rooted (c ∷ dest) [] h = (c ∷ dest, h, refl)
join-rooted (c ∷ dest) (d ∷ name) h = (c ∷ dest ++ b'/' ∷ d ∷ name, h, refl)

onto_filled : (c : ℕ) (ps : List Str) → onto c ps ≢ []
onto_filled c [] e = cc
onto_filled c (p ∷ ps) e = cc

split_filled : (sep : ℕ) (s : Str) → split sep s ≢ []
unfolding split
split_filled sep [] e = cc
split_filled sep (c ∷ s) e = elim (Bool-cases (c == sep)) [
  | inl here ↦ cc (rw here at e)
  | inr other ↦ onto_filled c (split sep s) (rw other at e)
]

-- The names of a path whose text, with a slash behind it, begins with that of another.
names-prefix :
    (ks es : List Str) (last : Str) (more : List Str)
    → more ≢ []
    → ks ++ last ∷ [] ≡ es ++ more
    → (rest : List Str) × (ks ≡ es ++ rest)
names-prefix ks [] last more filled e = (ks, refl)
names-prefix [] (x ∷ []) last more filled e = absurd (filled (cc e))
names-prefix [] (x ∷ y ∷ es) last more filled e = absurd (cc e)
names-prefix (k ∷ ks) (x ∷ es) last more filled e =
    let same : k ≡ x = cc in
    let (rest, r) = names-prefix ks es last more filled (cc e) in (rest, rw (same, r) refl)

-- The text of a clean rooted path with these names.
abbrev pub rooted_text : List Str → Str
rooted_text names = b'/' ∷ join_with b'/' names

parts-more :
    (p : Str) (ps : List Str) (more : Str)
    → All IsName (p ∷ ps)
    → parts (rooted_text (p ∷ ps) ++ b'/' ∷ more) ≡ [] ∷ (p ∷ ps) ++ parts more
parts-more p ps more h =
    parts_rooted (join_with b'/' (p ∷ ps) ++ b'/' ∷ more)
    ∙ ap (λ l. [] ∷ l) (split-join_more b'/' p ps more (names-Lacks (p ∷ ps) h))

parts_root : (more : Str) → parts (rooted_text [] ++ b'/' ∷ more) ≡ [] ∷ [] ∷ parts more
unfolding join_with split
parts_root more = refl

-- `t` is `d` or below it, without "..".
abbrev pub IsWithin : Str → Str → Type 0
IsWithin d t =
    (rest : List Str) × (parts t ≡ parts d ++ rest) × (has_str (parts t) (codes "..") ≡ false)

no_empty_name : (p : Str) → str_eq p [] ≡ false → p ≢ []
no_empty_name p h e = absurd (cc (sym (str_eq_refl []) ∙ rw e at h))

names-ascent :
    (k : Str) (ks : List Str)
    → All IsName (k ∷ ks)
    → has_str (parts (rooted_text (k ∷ ks))) (codes "..") ≡ false
unfolding str_eq
names-ascent k ks h = rw (clean-parts k ks h) (names-no_ascent (k ∷ ks) h)

within :
    (ks es : List Str) (more : Str)
    → All IsName ks
    → All IsName es
    → rooted_text ks ++ b'/' ∷ [] ≡ rooted_text es ++ b'/' ∷ more
    → IsWithin (rooted_text es) (rooted_text ks)
unfolding split join_with str_eq
within [] [] more hk he e = ([], refl, refl)
within (k ∷ ks) [] more hk he e =
    let both = sym (parts-more k ks [] hk) ∙ (ap parts e ∙ parts_root more) in
    let empty : k ≡ [] = cc in absurd (no_empty_name k hk.0.0 empty)
within [] (x ∷ es) more hk he e =
    let both = sym (parts_root []) ∙ (ap parts e ∙ parts-more x es more he) in
    let empty : x ≡ [] = cc in absurd (no_empty_name x he.0.0 empty)
within (k ∷ ks) (x ∷ es) more hk he e =
    let both : [] ∷ (k ∷ ks) ++ parts [] ≡ [] ∷ (x ∷ es) ++ parts more =
      sym (parts-more k ks [] hk) ∙ (ap parts e ∙ parts-more x es more he) in
    let same : (k ∷ ks) ++ [] ∷ [] ≡ (x ∷ es) ++ parts more = cc in
    let (rest, r) = names-prefix (k ∷ ks) (x ∷ es) [] (parts more) (split_filled b'/' more) same in
    (
      rest,
      clean-parts k ks hk ∙ (ap (λ l. [] ∷ l) r ∙ ap (λ l. l ++ rest) (sym (clean-parts x es he))),
      names-ascent k ks hk,
    )

-- A path that safeJoin returns for a rooted directory is that directory or lies below it, part by part,
-- and has no ".." in it, whatever the name of the archive's entry is.
pub safe_join-IsWithin :
    (dest name target : Str)
    → is_rooted dest ≡ true
    → safe_join dest name ≡ ok target
    → IsWithin (clean dest) target
unfolding safe_join
safe_join-IsWithin dest name target rooted h =
    let (s, rs, js) = join-rooted dest name rooted in
    let (ks, hk, ek) = clean-names s rs in
    let (es, he, ed) = clean-names dest rooted in
    let joined : join dest name ≡ rooted_text ks = js ∙ ek in
    elim (Bool-cases (has_prefix (clean (join dest name) ++ codes "/") (clean dest ++ codes "/"))) [
      | inr outside ↦ absurd (cc (rw outside at h))
      | inl inside ↦
          let accepted : join dest name ≡ target = cc (rw inside at h) in
          let prefixed = rw (joined, clean_again ks hk, ed) at inside in
          let (more, e) =
            has_prefix-rest (rooted_text ks ++ b'/' ∷ []) (rooted_text es ++ b'/' ∷ []) prefixed in
          rw (sym accepted, joined, ed)
            (within ks es more hk he (e ∙ append_assoc (rooted_text es) (b'/' ∷ []) more))
    ]
