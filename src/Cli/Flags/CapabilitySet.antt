-- ===== src/Cli/Flags/CapabilitySet.antt =====
-- The capabilities that resolveCapabilities keeps.
use husk.Base.{Bool, true, false, not, ◌&&◌, ◌||◌, ◌≡◌, ◌∙◌, refl, List, [], ◌∷◌, ◌++◌, arith}
use husk.Base.Bytes.{Str, str_eq, str_eq_sound, has_str, codes, has_prefix, to_upper, trim_space}
use husk.Cli.Flags.{normalise_cap, add_key, delete_key, add_keys, delete_keys, resolve_capabilities}

-- `x` spells the capability `c`: with the spaces around it cut off and in capitals it is `c`, which starts
-- with CAP_, or it does not start with CAP_ and is `c` without these letters.
abbrev pub spells : Str → Str → Bool
spells x c =
    let n = to_upper (trim_space x) in
    has_prefix c (codes "CAP_") && str_eq n c
    || not (has_prefix n (codes "CAP_")) && str_eq (codes "CAP_" ++ n) c

-- One of these flags spells the capability.
abbrev pub names : List Str → Str → Bool
names [] c = false
names (x ∷ xs) c = spells x c || names xs c

prefix_of_equal : (p n c : Str) → str_eq n c ≡ true → has_prefix n p ≡ has_prefix c p
prefix_of_equal p n c h = rw (str_eq_sound n c h) refl

normalise_cap-spells : (x c : Str) → str_eq (normalise_cap x) c ≡ spells x c
unfolding normalise_cap
normalise_cap-spells x c =
    let n = to_upper (trim_space x) in ground (arith, prefix_of_equal (codes "CAP_") n c)

has_str_sound : (xs : List Str) (s t : Str) → str_eq s t ≡ true → has_str xs t ≡ has_str xs s
has_str_sound xs s t h = rw (str_eq_sound s t h) refl

has-add_key :
    (c : Str) (keep : List Str) (s : Str)
    → has_str (add_key c keep) s ≡ (str_eq c s || has_str keep s)
has-add_key c keep s = ground (arith, has_str_sound keep c s)

eq_left : (x c s : Str) → str_eq x c ≡ true → str_eq x s ≡ str_eq c s
eq_left x c s h = rw (str_eq_sound x c h) refl

eq_right : (x c s : Str) → str_eq c s ≡ true → str_eq x s ≡ str_eq x c
eq_right x c s h = rw (str_eq_sound c s h) refl

has-delete_key :
    (c : Str) (keep : List Str) (s : Str)
    → has_str (delete_key c keep) s ≡ (not (str_eq c s) && has_str keep s)
unfolding delete_key
has-delete_key c [] s = ground arith
has-delete_key c (x ∷ keep) s =
    ground (arith, has-delete_key c keep s, eq_left x c s, eq_right x c s)

has-add_keys :
    (cs keep : List Str) (s : Str) → has_str (add_keys cs keep) s ≡ (names cs s || has_str keep s)
unfolding add_keys
has-add_keys [] keep s = refl
has-add_keys (c ∷ cs) keep s =
    has-add_keys cs (add_key (normalise_cap c) keep) s
    ∙ ground (arith, has-add_key (normalise_cap c) keep s, normalise_cap-spells c s)

has-delete_keys :
    (cs keep : List Str) (s : Str)
    → has_str (delete_keys cs keep) s ≡ (not (names cs s) && has_str keep s)
unfolding delete_keys
has-delete_keys [] keep s = refl
has-delete_keys (c ∷ cs) keep s =
    has-delete_keys cs (delete_key (normalise_cap c) keep) s
    ∙ ground (arith, has-delete_key (normalise_cap c) keep s, normalise_cap-spells c s)

-- A capability is kept exactly if a default or -cap-add names it and no -cap-drop does, with
-- or without CAP_ and in letters of either case, in any order, and whatever order Go's map is read in.
pub resolve_capabilities-member :
    (range : List Str → List Str) (defaults add drop : List Str)
    → ((keys : List Str) (s : Str) → has_str (range keys) s ≡ has_str keys s)
    → (s : Str)
    → has_str (resolve_capabilities range defaults add drop) s
      ≡ (not (names drop s) && (names add s || names defaults s))
unfolding resolve_capabilities
resolve_capabilities-member range defaults add drop order s =
    let kept = add_keys add (add_keys defaults []) in
    order (delete_keys drop kept) s
    ∙ has-delete_keys drop kept s
    ∙ ground (arith, has-add_keys add (add_keys defaults []) s, has-add_keys defaults [] s)
