-- ===== src/Cli/Bundle/Translated.antt =====
-- When loadBundle accepts a bundle, and what becomes of its namespaces.
use husk.Base.{
  Bool, true, false, not, ◌&&◌, ◌||◌, ◌≡◌, refl, sym, ◌∙◌, ◌↔◌, ◌⊎◌, inl, inr, Bool-cases, Option,
  none, some, List, [], ◌∷◌, arith, if◌then◌else◌,
}
use husk.Base.Bytes.{Str, codes, str_eq, str_eq_sound}
use husk.Base.Paths.{join}
use husk.Base.Outcome.{Outcome, ok, err, bind-ok}
use husk.Base.Action.{Errno, Error}
use husk.Container.{Config, Namespaces}
use husk.Namespaces.{CloneFlag, new_mount, new_pid, new_uts, new_ipc, new_net, new_user, new_cgroup}
use husk.Namespaces.Cloned.{has_flag, wants, same, clone_flags-wants}
use husk.Runtime.Spawn.Clone.{build_cmd}
use husk.Cli.Bundle.Types.{Spec, SpecProcess, SpecLinux, SpecNamespace, SpecWords}
use husk.Cli.Bundle.Parts.{
  set_namespace, set_kind, kind_of, add_namespace, add_namespaces, namespaces_from_spec,
  no_namespaces,
}
use husk.Cli.Bundle.{
  Reader, contents, parsed, process_of, check_linux, check_process, refuse_sysctl, translated,
  load_bundle,
}

-- The names of the sysctls that a bundle asks for.
abbrev pub sysctls : Option SpecLinux → List Str
sysctls none = []
sysctls (some l) = l.sysctl

contents-ok : (o : Outcome Errno Str) (t : Str) → contents o ≡ ok t → o ≡ ok t
contents-ok (ok a) t h = cc
contents-ok (err e) t h = absurd (cc h)

parsed-ok : (o : Outcome Error Spec) (t : Spec) → parsed o ≡ ok t → o ≡ ok t
parsed-ok (ok a) t h = h
parsed-ok (err e) t h = absurd (cc h)

process_of-ok : (o : Option SpecProcess) (p : SpecProcess) → process_of o ≡ ok p → o ≡ some p
process_of-ok none p h = absurd (cc h)
process_of-ok (some q) p h = cc

refuse_sysctl-ok : (l : List Str) → refuse_sysctl l ≡ ok tt → l ≡ []
refuse_sysctl-ok [] h = refl
refuse_sysctl-ok (x ∷ l) h = absurd (cc h)

check_linux-ok : (o : Option SpecLinux) → check_linux o ≡ ok tt → sysctls o ≡ []
check_linux-ok none h = refl
check_linux-ok (some l) h = refuse_sysctl-ok l.sysctl h

check_process-ok :
    (p : SpecProcess) → check_process p ≡ ok tt → (p.apparmor_profile ≡ []) × (p.selinux_label ≡ [])
unfolding check_process
check_process-ok p h =
    ground (arith, str_eq_sound p.apparmor_profile [], str_eq_sound p.selinux_label [])

module _ {F : Type 0} (r : Reader F) (dir : Str) where
  -- What a bundle must be: a readable config.json with a process, and without what husk cannot keep.
  abbrev pub IsAcceptable : Config F → Type 0
  IsAcceptable cfg =
      (text : Str) × (spec : Spec) × (p : SpecProcess) × (r.read (join dir (codes "config.json"))
        ≡ ok text)
      × (r.decode text ≡ ok spec)
      × (spec.process ≡ some p)
      × (sysctls spec.linux ≡ [])
      × (p.apparmor_profile ≡ [])
      × (p.selinux_label ≡ [])
      × (cfg ≡ translated r dir spec p)

  pub accepted : (cfg : Config F) → load_bundle r dir ≡ ok cfg → IsAcceptable cfg
  unfolding load_bundle
  accepted cfg h =
      let (text, e1, h1) = bind-ok (contents (r.read (join dir (codes "config.json")))) _ cfg h in
      let (spec, e2, h2) = bind-ok (parsed (r.decode text)) _ cfg h1 in
      let (p, e3, h3) = bind-ok (process_of spec.process) _ cfg h2 in
      let (_, e4, h4) = bind-ok (check_linux spec.linux) _ cfg h3 in
      let (_, e5, h5) = bind-ok (check_process p) _ cfg h4 in
      let (apparmor, selinux) = check_process-ok p e5 in
      (
        text,
        spec,
        p,
        contents-ok _ text e1,
        parsed-ok _ spec e2,
        process_of-ok spec.process p e3,
        check_linux-ok spec.linux e4,
        apparmor,
        selinux,
        cc,
      )

  linux_passes : (o : Option SpecLinux) → sysctls o ≡ [] → check_linux o ≡ ok tt
  linux_passes none h = refl
  linux_passes (some l) h = rw h refl

  process_passes :
      (p : SpecProcess) → p.apparmor_profile ≡ [] → p.selinux_label ≡ [] → check_process p ≡ ok tt
  unfolding check_process str_eq
  process_passes p a s = rw a (rw s refl)

  -- loadBundle gives a description exactly if config.json can be read and decoded, has a process, and
  -- asks for no sysctl, no AppArmor profile and no SELinux label, and then it gives the translation.
  pub load_bundle-accepts : (cfg : Config F) → (load_bundle r dir ≡ ok cfg) ↔ IsAcceptable cfg
  unfolding load_bundle translated
  load_bundle-accepts cfg = (accepted cfg, back)
    where
      back : IsAcceptable cfg → load_bundle r dir ≡ ok cfg
      back (text, spec, p, e1, e2, e3, e4, e5, e6, e7) =
          rw (e1, e2, e3, linux_passes spec.linux e4, process_passes p e5 e6, e7) refl

set_namespace-wants :
    (x : CloneFlag) (ns : Namespaces) (f : CloneFlag)
    → wants (set_namespace x ns) f ≡ (wants ns f || same x f)
set_namespace-wants x ns f = ground arith

abbrev pub is_flag : Option CloneFlag → CloneFlag → Bool
is_flag none f = false
is_flag (some x) f = same x f

-- The runtime-spec's word for a kind of namespace.
abbrev pub word_of : SpecWords → CloneFlag → Str
word_of w new_mount = w.mount_namespace
word_of w new_pid = w.pid_namespace
word_of w new_uts = w.uts_namespace
word_of w new_ipc = w.ipc_namespace
word_of w new_net = w.network_namespace
word_of w new_user = w.user_namespace
word_of w new_cgroup = w.cgroup_namespace

-- The words for two kinds differ.
abbrev pub AreDistinct : SpecWords → Type 0
AreDistinct w = (f g : CloneFlag) → str_eq (word_of w f) (word_of w g) ≡ same f g

-- An entry of this kind without a path asks for a namespace.
abbrev pub asked : SpecWords → List SpecNamespace → CloneFlag → Bool
asked w [] f = false
asked w (n ∷ rest) f = str_eq n.path [] && str_eq n.kind (word_of w f) || asked w rest f

kind_cases :
    (w : SpecWords) (kind : Str)
    → ((g : CloneFlag) × (kind_of w kind ≡ some g) × (str_eq kind (word_of w g) ≡ true))
      ⊎ ((kind_of w kind ≡ none) × ((g : CloneFlag) → str_eq kind (word_of w g) ≡ false))
unfolding kind_of
kind_cases w kind = elim (Bool-cases (str_eq kind w.mount_namespace)) [
  | inl h ↦ inl (new_mount, rw (h) refl, h)
  | inr n0 ↦ elim (Bool-cases (str_eq kind w.pid_namespace)) [
    | inl h ↦ inl (new_pid, rw (n0, h) refl, h)
    | inr n1 ↦ elim (Bool-cases (str_eq kind w.uts_namespace)) [
      | inl h ↦ inl (new_uts, rw (n0, n1, h) refl, h)
      | inr n2 ↦ elim (Bool-cases (str_eq kind w.ipc_namespace)) [
        | inl h ↦ inl (new_ipc, rw (n0, n1, n2, h) refl, h)
        | inr n3 ↦ elim (Bool-cases (str_eq kind w.network_namespace)) [
          | inl h ↦ inl (new_net, rw (n0, n1, n2, n3, h) refl, h)
          | inr n4 ↦ elim (Bool-cases (str_eq kind w.user_namespace)) [
            | inl h ↦ inl (new_user, rw (n0, n1, n2, n3, n4, h) refl, h)
            | inr n5 ↦ elim (Bool-cases (str_eq kind w.cgroup_namespace)) [
              | inl h ↦ inl (new_cgroup, rw (n0, n1, n2, n3, n4, n5, h) refl, h)
              | inr n6 ↦ inr (
                rw (n0, n1, n2, n3, n4, n5, n6) refl,
                elim [
                  | new_mount ↦ n0
                  | new_pid ↦ n1
                  | new_uts ↦ n2
                  | new_ipc ↦ n3
                  | new_net ↦ n4
                  | new_user ↦ n5
                  | new_cgroup ↦ n6
                ],
              )
            ]
          ]
        ]
      ]
    ]
  ]
]

kind_of-word :
    (w : SpecWords) (kind : Str) (f : CloneFlag)
    → AreDistinct w
    → is_flag (kind_of w kind) f ≡ str_eq kind (word_of w f)
kind_of-word w kind f distinct = elim (kind_cases w kind) [
  | inl q ↦ let (g, e, at) = q in rw (e, str_eq_sound kind (word_of w g) at) (sym (distinct g f))
  | inr q ↦ rw (q.0, q.1 f) refl
]

set_kind-wants :
    (o : Option CloneFlag) (ns : Namespaces) (f : CloneFlag)
    → wants (set_kind o ns) f ≡ (wants ns f || is_flag o f)
set_kind-wants none ns f = ground arith
set_kind-wants (some x) ns f = set_namespace-wants x ns f

module _ (w : SpecWords) (distinct : AreDistinct w) where
  add_namespace-wants :
      (n : SpecNamespace) (ns : Namespaces) (f : CloneFlag)
      → wants (add_namespace w n ns) f
        ≡ (wants ns f || (str_eq n.path [] && str_eq n.kind (word_of w f)))
  unfolding add_namespace
  add_namespace-wants n ns f = rw (sym (kind_of-word w n.kind f distinct)) (go (str_eq n.path []))
    where
      go :
          (b : Bool)
          → wants (if not b then ns else set_kind (kind_of w n.kind) ns) f
            ≡ (wants ns f || (b && is_flag (kind_of w n.kind) f))
      go true = set_kind-wants (kind_of w n.kind) ns f
      go false = ground arith

  add_namespaces-wants :
      (l : List SpecNamespace) (ns : Namespaces) (f : CloneFlag)
      → wants (add_namespaces w l ns) f ≡ (wants ns f || asked w l f)
  unfolding add_namespaces
  add_namespaces-wants [] ns f = ground arith
  add_namespaces-wants (n ∷ l) ns f =
      add_namespaces-wants l (add_namespace w n ns) f ∙ ground (arith, add_namespace-wants n ns f)

none-wants : (f : CloneFlag) → wants no_namespaces f ≡ false
none-wants f = ground arith

module _ {F : Type 0} (r : Reader F) (dir : Str) where
  -- The init process of a bundle with a linux section is cloned into a new namespace of a kind exactly
  -- if that section has an entry with the word for this kind and without a path, whatever the order of the entries is, so
  -- that no namespace of a kind is new that the section does not list; the words of the runtime-spec for two kinds differ.
  pub load_bundle-namespaces :
      (text : Str) (spec : Spec) (l : SpecLinux) (environ : List Str) (sealed detached : Bool)
      (cfg : Config F)
      → AreDistinct r.words
      → r.read (join dir (codes "config.json")) ≡ ok text
      → r.decode text ≡ ok spec
      → spec.linux ≡ some l
      → load_bundle r dir ≡ ok cfg
      → (f : CloneFlag)
      → has_flag (build_cmd environ sealed detached cfg).cloned f ≡ asked r.words l.namespaces f
  unfolding build_cmd translated namespaces_from_spec
  load_bundle-namespaces text spec l environ sealed detached cfg distinct here decoded section h f =
      let (text', spec', p, e1, e2, _, _, _, _, e) = accepted r dir cfg h in
      let t : text' ≡ text = cc in
      let s : spec' ≡ spec = cc (rw t at e2) in
      let linux : cfg.namespaces ≡ add_namespaces r.words l.namespaces no_namespaces =
        rw e (rw (s, section) refl) in
      clone_flags-wants cfg.namespaces f
      ∙ rw linux (
          add_namespaces-wants r.words distinct l.namespaces no_namespaces f
          ∙ ground (arith, none-wants f))
