-- ===== src/Base/Paths.antt =====
-- path/filepath on a POSIX system: Clean, Join, Dir and Abs.
pub mod Cleaned
use husk.Base.{ℕ, Bool, true, false, List, [], ◌∷◌, ◌++◌, refl, ◌≡◌, if◌then◌else◌, ◌==◌}
use husk.Base.Bytes.{Str, codes, str_eq, rev_onto}
use husk.Base.Split.{split, join_with}
use husk.Base.Outcome.{Outcome, ok, ◌>>=◌}
use husk.Base.Action.{Error}

-- The parts between the slashes.
abbrev pub parts : Str → List Str
parts s = split b'/' s

abbrev pub is_rooted : Str → Bool
is_rooted [] = false
is_rooted (c ∷ _) = c == b'/'

-- ".." on the parts kept so far, the last one first.
abbrev pub ascend : Bool → List Str → List Str
ascend true [] = []
ascend false [] = codes ".." ∷ []
ascend true (_ ∷ kept) = kept
ascend false (p ∷ kept) = if str_eq p (codes "..") then codes ".." ∷ p ∷ kept else kept

-- One part of a path, after those kept so far.
unfoldable pub enter : Bool → List Str → Str → List Str
enter rooted kept p =
    if str_eq p []
    then kept
    else if str_eq p (codes ".")
    then kept
    else if str_eq p (codes "..")
    then ascend rooted kept
    else p ∷ kept

unfoldable pub walk : Bool → List Str → List Str → List Str
walk rooted kept [] = kept
walk rooted kept (p ∷ ps) = walk rooted (enter rooted kept p) ps

abbrev pub reversed : {A : Type 0} → List A → List A → List A
reversed [] out = out
reversed (x ∷ xs) out = reversed xs (x ∷ out)

abbrev pub render : Bool → List Str → Str
render true kept = b'/' ∷ join_with b'/' (reversed kept [])
render false [] = codes "."
render false (p ∷ kept) = join_with b'/' (reversed (p ∷ kept) [])

-- filepath.Clean
unfoldable pub clean : Str → Str
clean s = render (is_rooted s) (walk (is_rooted s) [] (parts s))

-- filepath.Join of two elements
abbrev pub unclean_join : Str → Str → Str
unclean_join [] [] = []
unclean_join [] b = clean b
unclean_join a [] = clean a
unclean_join a b = clean (a ++ b'/' ∷ b)

unfoldable pub join : Str → Str → Str
join a b = unclean_join a b

-- The text up to its last slash, that one included.
abbrev pub directory : Str → Str → Str
directory read [] = []
directory read (c ∷ s) =
    if c == b'/' then rev_onto read (c ∷ directory [] s) else directory (c ∷ read) s

-- filepath.Dir
unfoldable pub dir : Str → Str
dir s = clean (directory [] s)

-- filepath.Abs, where os.Getwd answers `wd`.
unfoldable pub abs : Outcome Error Str → Str → Outcome Error Str
abs wd s = if is_rooted s then ok (clean s) else wd >>= λ d. ok (join d s)

clean_runs : clean (codes "/a//b/./../../../c/") ≡ codes "/c"
unfolding clean split walk enter join_with str_eq
clean_runs = refl

clean_relative : clean (codes "../a/../../b") ≡ codes "../../b"
unfolding clean split walk enter join_with str_eq
clean_relative = refl

join_runs : join (codes "/var/husk") (codes "../x") ≡ codes "/var/x"
unfolding join clean split walk enter join_with str_eq
join_runs = refl

dir_runs : dir (codes "/dev/pts/ptmx") ≡ codes "/dev/pts"
unfolding dir clean split walk enter join_with str_eq rev_onto
dir_runs = refl
