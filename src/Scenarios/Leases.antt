-- ===== src/Scenarios/Leases.antt =====
-- Leases in a directory that is a list of files, and a record store of the same kind.
use husk.Base.{
  ◌^◌, ◌-◌, ℕ, ◌≡◌, ◌≢◌, sym, refl, Bool, true, false, Option, none, some, List, [], ◌∷◌, any,
  arith, if◌then◌else◌, map, Bool-cases, inl, inr,
}
use husk.Base.Bytes.{Str, codes, str_eq, str_eq_sound, str_eq_refl}
use husk.Base.Outcome.{Outcome, ok, err}
use husk.Base.Action.{Errno, eexist, enoent}
use husk.Network.Ipam.{
  LeaseDir, Addresses, Subnet, Ipam, last_offset, allocate, lease_of, find_lease, claim, release,
  release_from,
}
use husk.Network.Ipam.Leases.{Lawful, allocate-keeps}
use husk.Network.Ipam.Lowest.{IsLowest, allocate-IsLowest}
use husk.Network.Ipam.Owner.{Readable, release-allocate}

-- The files of a directory, by name; the newest stands first.
abbrev pub Dir : Type 0
Dir = List (Str × Str)

abbrev pub look : Dir → Str → Option Str
look [] n = none
look ((m, s) ∷ d) n = if str_eq m n then some s else look d n

abbrev pub without : Str → Dir → Dir
without n [] = []
without n ((m, s) ∷ d) = if str_eq m n then without n d else (m, s) ∷ without n d

abbrev pub found : Option Str → Outcome Errno Str
found none = err enoent
found (some s) = ok s

abbrev pub opened : Str → Dir → Option Str → Option Errno × Dir
opened n d none = (none, (n, []) ∷ d)
opened n d (some s) = (some eexist, d)

abbrev files : LeaseDir Dir
files = record {
  mkdir_all = λ d. (none, d);
  entries = λ d. ok (map (λ (p : Str × Str). p.0) d);
  read = λ d n. found (look d n);
  create_excl = λ d n. opened n d (look d n);
  write = λ d n s. (none, (n, s) ∷ d);
  remove = λ d n. (none, without n d);
}

pub other_name : (n m : Str) → m ≢ n → str_eq n m ≡ false
other_name n m ne = elim (Bool-cases (str_eq n m)) [
  | inl e ↦ absurd (ne (sym (str_eq_sound n m e)))
  | inr e ↦ e
]

look-without : (d : Dir) (n : Str) → look (without n d) n ≡ none
look-without [] n = refl
look-without ((m, s) ∷ d) n = ground (arith, look-without d n)

eq_left : (x c s : Str) → str_eq x c ≡ true → str_eq x s ≡ str_eq c s
eq_left x c s h = rw (str_eq_sound x c h) refl

pub look-without-other : (d : Dir) (n m : Str) → m ≢ n → look (without n d) m ≡ look d m
look-without-other [] n m ne = refl
look-without-other ((x, s) ∷ d) n m ne =
    ground (arith, look-without-other d n m ne, other_name n m ne, eq_left x n m)

files-Lawful : Lawful files look
files-Lawful = record {
  read_ok = λ d n s e. ground arith;
  mkdir_keeps = λ d n. refl;
  create_ok = λ d n e. ground (arith, str_eq_refl n);
  create_err = λ d n x e. ground arith;
  create_exist = λ d n x e f. ground arith;
  create_keeps = λ d n m ne. ground (arith, other_name n m ne);
  write_ok = λ d n s e f. ground (arith, str_eq_refl n);
  write_keeps = λ d n s m ne. ground (arith, other_name n m ne);
  remove_ok = λ d n e. look-without d n;
  remove_keeps = λ d n m ne. look-without-other d n m ne;
}

eq_sym : (s t : Str) → str_eq s t ≡ true → str_eq t s ≡ true
eq_sym s t h = rw (str_eq_sound s t h) (str_eq_refl t)

look-listed :
    (d : Dir) (n s : Str)
    → look d n ≡ some s
    → any (str_eq n) (map (λ (p : Str × Str). p.0) d) ≡ true
look-listed [] n s h = cc
look-listed ((m, t) ∷ d) n s h = ground (arith, look-listed d n s, eq_sym m n)

-- Addresses are words, written as one digit.
abbrev words : Addresses ℕ
words = record { of_word = λ w. w; show = λ w. w ∷ []; parse = λ name. first name }
  where
    first : Str → Option ℕ
    first [] = none
    first (c ∷ s) = some c

-- 10.0.0.0/29 with one lease, of c1 at offset 2.
abbrev subnet : Subnet
subnet = record { ip = 64; ones = 29 }

abbrev ipam : Ipam
ipam = record { subnet = some subnet }

abbrev leased : Dir
leased = (66 ∷ [], codes "c1") ∷ []

abbrev id : Str
id = codes "c2"

abbrev afterwards : Dir
afterwards = (allocate files words ipam id leased).1

no_file : (n : Str) → look leased n ≢ some id
no_file n e = go (str_eq (66 ∷ []) n) e
  where
    go : (b : Bool) → (if b then some (codes "c1") else none) ≡ some (codes "c2") → ⊥
    go true h = ground arith
    go false h = cc

allocate-keeps_example : look (allocate files words ipam id leased).1 (66 ∷ []) ≡ some (codes "c1")
unfolding str_eq
allocate-keeps_example =
    allocate-keeps files words look files-Lawful ipam id leased (66 ∷ []) (codes "c1") refl

allocate-IsLowest_example :
    IsLowest files words look subnet id 2 (2 ^ (32 - subnet.ones) - 1) leased 67 afterwards
unfolding allocate str_eq lease_of find_lease claim last_offset
allocate-IsLowest_example =
    allocate-IsLowest files words look files-Lawful subnet id leased 67 refl refl refl

afterwards-Readable : Readable files look afterwards
afterwards-Readable = record {
  names = map (λ (p : Str × Str). p.0) afterwards;
  listed = refl;
  complete = λ n s e. look-listed afterwards n s e;
  reads = λ n s e. ground arith;
}

release-allocate_example :
    look (release files words id afterwards).1 (67 ∷ []) ≡ look leased (67 ∷ [])
unfolding allocate str_eq release lease_of find_lease claim last_offset release_from
release-allocate_example =
    release-allocate files words look files-Lawful subnet id leased 67 refl refl no_file refl
      afterwards-Readable refl (67 ∷ [])
