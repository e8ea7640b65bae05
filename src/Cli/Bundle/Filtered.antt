-- ===== src/Cli/Bundle/Filtered.antt =====
-- What the seccomp section of an OCI bundle does to husk's policy.
use husk.Base.{
  ℕ, ◌+◌, Bool, true, false, ◌≡◌, refl, Option, none, some, List, [], ◌∷◌, ◌++◌, All, All-append,
  length, length-append, arith, if◌then◌else◌,
}
use husk.Base.Bytes.{Str, str_eq}
use husk.Base.Outcome.{ok}
use husk.Container.{Config}
use husk.Security.Filter.{Denied}
use husk.Security.Filter.Decision.{denies}
use husk.Security.Policy.{default_denied, lookup_syscall}
use husk.Security.Apply.{extend_denied}
use husk.Security.Apply.Order.{extend_denied-from}
use husk.Cli.Bundle.Types.{SpecSyscall, SpecSeccomp, SpecLinux, SpecWords}
use husk.Cli.Bundle.Parts.{known_name, known_names, extra_denied_of, seccomp_from_spec}
use husk.Cli.Bundle.{Reader, linux_seccomp, seccomp_of, translated, load_bundle}
use husk.Cli.Bundle.Translated.{accepted}

module _ (nr : Str → ℕ) where
  -- A name that LookupSyscall finds.
  abbrev pub IsKnown : Str → Type 0
  IsKnown name = (n : ℕ) × (lookup_syscall nr name ≡ some n)

  known_name-Known : (name : Str) → All IsKnown (known_name (lookup_syscall nr name) name)
  known_name-Known name = go (lookup_syscall nr name) refl
    where
      go : (o : Option ℕ) → lookup_syscall nr name ≡ o → All IsKnown (known_name o name)
      go none e = tt
      go (some n) e = ((n, e), tt)

  known_names-Known : (names : List Str) → All IsKnown (known_names nr names)
  unfolding known_names
  known_names-Known [] = tt
  known_names-Known (name ∷ rest) =
      All-append IsKnown (known_name (lookup_syscall nr name) name) (known_names nr rest)
        (known_name-Known name) (known_names-Known rest)

  extra_denied_of-Known :
      (w : SpecWords) (calls : List SpecSyscall) → All IsKnown (extra_denied_of nr w calls)
  unfolding extra_denied_of
  extra_denied_of-Known w [] = tt
  extra_denied_of-Known w (sc ∷ rest) =
      go (str_eq sc.action w.act_allow) (extra_denied_of-Known w rest)
    where
      go :
          (b : Bool)
          → All IsKnown (extra_denied_of nr w rest)
          → All IsKnown (
              if b
              then extra_denied_of nr w rest
              else known_names nr sc.names ++ extra_denied_of nr w rest)
      go true ih = ih
      go false ih =
          All-append IsKnown (known_names nr sc.names) (extra_denied_of nr w rest)
            (known_names-Known sc.names) ih

  linux_seccomp-Known :
      (w : SpecWords) (o : Option SpecLinux) → All IsKnown (linux_seccomp nr w o).extra_denied
  unfolding seccomp_from_spec
  linux_seccomp-Known w none = tt
  linux_seccomp-Known w (some l) = go l.seccomp
    where
      go : (s : Option SpecSeccomp) → All IsKnown (seccomp_of nr w s).extra_denied
      go none = tt
      go (some s) = extra_denied_of-Known w s.syscalls

  -- With names that are known the loop over ExtraDenied adds one entry for each.
  extend_denied-Known :
      (extra : List Str) (denied : List Denied)
      → All IsKnown extra
      → (all : List Denied) × (extend_denied nr denied extra ≡ ok all)
        × (length all ≡ length denied + length extra)
  unfolding extend_denied
  extend_denied-Known [] denied a = (denied, refl, omega arith)
  extend_denied-Known (name ∷ rest) denied a =
      let (n, e) = a.0 in
      let entry = record { name = name; nr = n } ∷ [] in
      let (all, f, size) = extend_denied-Known rest (denied ++ entry) a.1 in
      (all, rw (e, extend_denied) f, omega (arith, size, length-append denied entry))

module _ {F : Type 0} (r : Reader F) (dir : Str) where
  -- Whatever seccomp section an accepted bundle has, the loop over ExtraDenied in Apply does not fail for
  -- what loadBundle made of it, and the policy that comes out denies exactly the calls of the default
  -- policy: the section can neither add a call nor take one away. The policy is longer by the number of
  -- names in ExtraDenied.
  pub load_bundle-seccomp :
      (cfg : Config F)
      → load_bundle r dir ≡ ok cfg
      → let extra = cfg.security.seccomp.extra_denied in
        (all : List Denied) × (extend_denied r.sys_nr (default_denied r.sys_nr) extra ≡ ok all)
        × (length all ≡ length (default_denied r.sys_nr) + length extra)
        × ((x : ℕ) → denies all x ≡ denies (default_denied r.sys_nr) x)
  unfolding translated
  load_bundle-seccomp cfg h =
      let (_, spec, _, _, _, _, _, _, _, e) = accepted r dir cfg h in
      let known : All (IsKnown r.sys_nr) cfg.security.seccomp.extra_denied =
        rw e (linux_seccomp-Known r.sys_nr r.words spec.linux) in
      let (all, f, size) =
        extend_denied-Known r.sys_nr cfg.security.seccomp.extra_denied (default_denied r.sys_nr)
          known in
      (
        all,
        f,
        size,
        extend_denied-from r.sys_nr (default_denied r.sys_nr) cfg.security.seccomp.extra_denied f
            (λ x. refl),
      )
