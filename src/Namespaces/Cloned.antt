-- ===== src/Namespaces/Cloned.antt =====
-- Which namespaces the flags of clone(2) ask for, and that the maps are passed on unchanged.
use husk.Base.{Bool, true, false, ◌||◌, ◌&&◌, ◌≡◌, refl, ap, List, [], ◌∷◌, ◌++◌, arith}
use husk.Container.{Namespaces, IdMap}
use husk.Namespaces.{
  CloneFlag, new_mount, new_pid, new_uts, new_ipc, new_net, new_user, new_cgroup, set_if,
  clone_flags, copied,
}

-- The field of a flag.
abbrev pub wants : Namespaces → CloneFlag → Bool
wants ns new_mount = ns.mount
wants ns new_pid = ns.pid
wants ns new_uts = ns.uts
wants ns new_ipc = ns.ipc
wants ns new_net = ns.net
wants ns new_user = ns.user
wants ns new_cgroup = ns.cgroup

abbrev pub same : CloneFlag → CloneFlag → Bool
same new_mount new_mount = true
same new_pid new_pid = true
same new_uts new_uts = true
same new_ipc new_ipc = true
same new_net new_net = true
same new_user new_user = true
same new_cgroup new_cgroup = true
same _ _ = false

abbrev pub has_flag : List CloneFlag → CloneFlag → Bool
has_flag [] f = false
has_flag (x ∷ xs) f = same x f || has_flag xs f

has_flag-append :
    (xs ys : List CloneFlag) (f : CloneFlag)
    → has_flag (xs ++ ys) f ≡ (has_flag xs f || has_flag ys f)
has_flag-append [] ys f = refl
has_flag-append (x ∷ xs) ys f = ground (arith, has_flag-append xs ys f)

has_flag-set_if :
    (b : Bool) (x : CloneFlag) (xs : List CloneFlag) (f : CloneFlag)
    → has_flag (set_if b x xs) f ≡ (has_flag xs f || (b && same x f))
has_flag-set_if true x xs f = ground (arith, has_flag-append xs (x ∷ []) f)
has_flag-set_if false x xs f = ground arith

ors :
    (ns : Namespaces) (f : CloneFlag)
    → (((((((false || (ns.mount && same new_mount f)) || (ns.pid && same new_pid f))
                || (ns.uts && same new_uts f))
              || (ns.ipc && same new_ipc f))
            || (ns.net && same new_net f))
          || (ns.user && same new_user f))
        || (ns.cgroup && same new_cgroup f))
      ≡ wants ns f
ors ns new_mount = ground arith
ors ns new_pid = ground arith
ors ns new_uts = ground arith
ors ns new_ipc = ground arith
ors ns new_net = ground arith
ors ns new_user = ground arith
ors ns new_cgroup = ground arith

-- A flag is asked for exactly if its namespace is.
pub clone_flags-wants : (ns : Namespaces) (f : CloneFlag) → has_flag (clone_flags ns) f ≡ wants ns f
unfolding clone_flags
clone_flags-wants ns f = simp (has_flag-set_if, ors ns f)

pub copied-same : (maps : List IdMap) → copied maps ≡ maps
unfolding copied
copied-same [] = refl
copied-same (m ∷ maps) = ap (λ rest. m ∷ rest) (copied-same maps)
