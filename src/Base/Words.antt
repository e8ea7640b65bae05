-- ===== src/Base/Words.antt =====
-- strings.Fields on words that are put together with spaces.
use husk.Base.{ℕ, true, false, ◌≡◌, ◌∙◌, refl, sym, ap, List, [], ◌∷◌, ◌++◌, All, arith, append-nil}
use husk.Base.Bytes.{Str, str_eq, is_space, rev_onto, fields, fields_from, end_field}
use husk.Base.Split.{Lacks, join_with}
use husk.Base.Numbers.{IsSolid, rev_onto-involutive}

-- A word is not empty and has no white space.
abbrev pub IsWord : Str → Type 0
IsWord w = (str_eq w [] ≡ false) × IsSolid w

fields_from-solid :
    (w word rest : Str)
    → IsSolid w
    → fields_from word (w ++ rest) ≡ fields_from (rev_onto w word) rest
unfolding fields_from rev_onto
fields_from-solid [] word rest p = refl
fields_from-solid (x ∷ w) word rest (e, p) = ground (arith, fields_from-solid w (x ∷ word) rest p)

nil-str_eq : str_eq [] [] ≡ true
unfolding str_eq
nil-str_eq = refl

rev_onto-nil : rev_onto [] [] ≡ []
unfolding rev_onto
rev_onto-nil = refl

-- Only the empty text is the reversal of the empty one.
reversed-empty : (w : Str) → rev_onto w [] ≡ [] → str_eq w [] ≡ true
reversed-empty w e =
    let empty : w ≡ [] = sym (rev_onto-involutive w) ∙ ap (λ l. rev_onto l []) e ∙ rev_onto-nil in
    rw empty nil-str_eq

pub end_field-word :
    (w : Str) (out : List Str) → str_eq w [] ≡ false → end_field (rev_onto w []) out ≡ w ∷ out
end_field-word w out h = go (rev_onto w []) refl
  where
    go : (l : Str) → rev_onto w [] ≡ l → end_field l out ≡ w ∷ out
    go [] e = absurd (cc (h, reversed-empty w e))
    go (c ∷ l) e = ap (λ x. x ∷ out) (ap (λ x. rev_onto x []) (sym e) ∙ rev_onto-involutive w)

fields_from-end : (word : Str) → fields_from word [] ≡ end_field word []
unfolding fields_from
fields_from-end word = refl

fields_from-space :
    (word rest : Str) → fields_from word (32 ∷ rest) ≡ end_field word (fields_from [] rest)
unfolding fields_from
fields_from-space word rest = refl

-- The words are found again.
pub fields-join_with :
    (w : Str) (ws : List Str) → All IsWord (w ∷ ws) → fields (join_with 32 (w ∷ ws)) ≡ w ∷ ws
unfolding fields join_with
fields-join_with w [] ((n, p), _) =
    ap (fields_from []) (sym (append-nil w))
    ∙ fields_from-solid w [] [] p
    ∙ fields_from-end (rev_onto w [])
    ∙ end_field-word w [] n
fields-join_with w (v ∷ ws) ((n, p), ps) =
    let rest = join_with 32 (v ∷ ws) in
    fields_from-solid w [] (32 ∷ rest) p
    ∙ fields_from-space (rev_onto w []) rest
    ∙ end_field-word w (fields_from [] rest) n
    ∙ ap (λ out. w ∷ out) (fields-join_with v ws ps)

-- A text without white space has no line feed and no carriage return.
pub solid-Lacks : (c : ℕ) → is_space c ≡ true → (s : Str) → IsSolid s → Lacks c s
solid-Lacks c h [] s = refl
solid-Lacks c h (x ∷ l) (this, rest) = ground (arith, solid-Lacks c h l rest)
