-- ===== src/Security/Apply/Order.antt =====
-- What a successful Apply has done, in which order, and which filter is in force afterwards.
use husk.Base.{
  ℕ, ◌≢◌, ◌⊎◌, ◌%◌, ◌^◌, ◌≡◌, refl, ap, ◌∙◌, Bool, true, false, ◌||◌, none, some, List, [], ◌∷◌,
  ◌++◌, append_assoc, arith, Option-cases, inl, inr, length,
}
use husk.Base.Bytes.{Str}
use husk.Base.Outcome.{Outcome, ok, err}
use husk.Container.{Security, SeccompConfig}
use husk.Kernel.{Kernel, Call, invoke, no_new_privs, seccomp_tsync}
use husk.Base.Action.{◌>>=◌, lift, pure, context}
use husk.Kernel.Runs.{Returns, invoked, lifted, >>-Returns, context-Returns, invoke-Returns}
use husk.Security.Filter.{SockFilter, FilterError, Denied, Program, build_filter}
use husk.Security.Filter.Machine.{Bpf, SeccompData}
use husk.Security.Filter.Decision.{denies, verdict, build_filter-verdict, build_filter-length}
use husk.Security.Policy.{default_denied, find_syscall, lookup_syscall}
use husk.Security.Capabilities.{default_capabilities, drop_capabilities}
use husk.Security.Apply.{
  restrict, install, extend_denied, action_of, as_error, apply_seccomp, or_default, apply,
}

denies-append :
    (xs ys : List Denied) (nr : ℕ) → denies (xs ++ ys) nr ≡ (denies xs nr || denies ys nr)
denies-append [] ys nr = refl
denies-append (x ∷ xs) ys nr = ground (arith, denies-append xs ys nr)

-- A number that the table gives for a name is one that the table denies.
find_syscall-denies :
    (ds : List Denied) (name : Str) (n : ℕ)
    → find_syscall ds name ≡ some n
    → denies ds (n % 2 ^ 32) ≡ true
unfolding find_syscall
find_syscall-denies [] name n h = cc
find_syscall-denies (d ∷ ds) name n h = ground (arith, find_syscall-denies ds name n)

-- An entry for a number that `base` denies adds nothing to a policy that agrees with `base`.
denies-known :
    (base denied : List Denied) (name : Str) (n y : ℕ)
    → denies base (n % 2 ^ 32) ≡ true
    → denies denied y ≡ denies base y
    → denies (denied ++ record { name = name; nr = n } ∷ []) y ≡ denies base y
denies-known base denied name n y h same =
    ground (arith, denies-append denied (record { name = name; nr = n } ∷ []) y)

-- The names in ExtraDenied resolve in the default table only, so they never change the policy.
pub extend_denied-from :
    (nr : Str → ℕ) (denied : List Denied) (extra : List Str) {all : List Denied}
    → extend_denied nr denied extra ≡ ok all
    → ((x : ℕ) → denies denied x ≡ denies (default_denied nr) x)
    → (x : ℕ) → denies all x ≡ denies (default_denied nr) x
unfolding extend_denied lookup_syscall
extend_denied-from nr denied [] h same x = ground (arith, same x)
extend_denied-from nr denied (name ∷ rest) {all} h same x =
    elim (Option-cases (lookup_syscall nr name)) [
      | inl unknown ↦ absurd (cc (rw (unknown, extend_denied) at h))
      | inr known ↦
          let (n, e) = known in
          extend_denied-from nr (denied ++ record { name = name; nr = n } ∷ []) rest
            (rw (e, extend_denied) at h)
            (λ y. denies-known (default_denied nr) denied name n y (known_number n e) (same y)) x
    ]
  where
    known_number :
        (n : ℕ) → lookup_syscall nr name ≡ some n → denies (default_denied nr) (n % 2 ^ 32) ≡ true
    known_number n e = find_syscall-denies (default_denied nr) name n e

install-Returns :
    (p : Program) (k : Kernel) (log : List Call) {after : List Call}
    → length p.instructions ≢ 0
    → Returns (install p) k log tt after
    → let c = seccomp_tsync (length p.instructions % 2 ^ 16) p.instructions in
      (after ≡ log ++ c ∷ []) × (k.act log c ≡ none)
unfolding install
install-Returns p k log {after} nonempty h = go p.instructions nonempty h
  where
    go :
        (is : List SockFilter)
        → length is ≢ 0
        → Returns (install (record p { instructions = is })) k log tt after
        → let c = seccomp_tsync (length is % 2 ^ 16) is in
          (after ≡ log ++ c ∷ []) × (k.act log c ≡ none)
    go [] n h = absurd (n refl)
    go (i ∷ is) n h =
        let c = seccomp_tsync (length (i ∷ is) % 2 ^ 16) (i ∷ is) in
        invoke-Returns c k log
          (context-Returns "seccomp(SET_MODE_FILTER, TSYNC)" (invoke c) k log h)

-- A program that BuildFilter returns is as its two theorems say.
as_error-ok : {A : Type 0} (r : Outcome FilterError A) {a : A} → as_error r ≡ ok a → r ≡ ok a
unfolding as_error
as_error-ok (ok b) h = cc
as_error-ok (err e) h = absurd (cc h)

-- The filter that `build_filter` returned, and what it decides.
built-verdict :
    (native action : ℕ) (denied : List Denied) (p : Program)
    → build_filter native denied action ≡ ok p
    → (length p.instructions ≢ 0)
      × (length p.instructions % 2 ^ 16 ≡ length p.instructions)
      × ((m : Bpf) (d : SeccompData)
          → m.run p.instructions 0 d ≡ some (verdict native denied action d))
built-verdict native action denied p h = elim (build_filter-length native action denied) [
  | inl long ↦ absurd (cc (h, long.1))
  | inr (short, (q, e, size, fits)) ↦
      let same : q ≡ p = cc (e, h) in
      let nonempty : length q.instructions ≢ 0 = omega (arith, size) in
      (
        rw same at nonempty,
        rw same at fits,
        λ m d.
            let (x, y, r) = build_filter-verdict m native action denied d short in
            let this : x ≡ p = cc (y, h) in rw this at r,
      )
]

apply_seccomp-Returns :
    (sec : SeccompConfig) (k : Kernel) (log : List Call) {after : List Call}
    → Returns (apply_seccomp sec) k log tt after
    → (p : Program) × (denied : List Denied) × (extend_denied k.sys_nr
          (default_denied k.sys_nr)
          sec.extra_denied
        ≡ ok denied)
      × (build_filter k.native_arch denied (action_of sec.action) ≡ ok p)
      × (after ≡ log ++ seccomp_tsync (length p.instructions) p.instructions ∷ [])
      × (k.act log (seccomp_tsync (length p.instructions) p.instructions) ≡ none)
unfolding apply_seccomp
apply_seccomp-Returns sec k log {after} h =
    let nr = k.sys_nr in
    let native = k.native_arch in
    let base = extend_denied nr (default_denied nr) sec.extra_denied in
    let action = action_of sec.action in
    let last = λ (p : Program). context "install seccomp filter" (install p) in
    let (denied, e, h1) =
      lifted base (λ ds. lift (as_error (build_filter native ds action)) >>= last) k log h in
    let (p, b, h2) = lifted (as_error (build_filter native denied action)) last k log h1 in
    let built = as_error-ok (build_filter native denied action) b in
    let (nonempty, fits, _) = built-verdict native action denied p built in
    let (a, c) =
      install-Returns p k log nonempty
        (context-Returns "install seccomp filter" (install p) k log h2) in
    (p, denied, e, built, rw fits at a, rw fits at c)

verdict_eq :
    (native action : ℕ) (d : SeccompData) (xs ys : List Denied)
    → denies xs d.nr ≡ denies ys d.nr
    → verdict native xs action d ≡ verdict native ys action d
verdict_eq native action d xs ys e = ground arith

restrict-on :
    (nnp enabled : Bool) (sec : SeccompConfig) (k : Kernel) (mid : List Call) {after : List Call}
    → enabled ≡ true
    → Returns (restrict nnp enabled sec) k mid tt after
    → (k.act mid no_new_privs ≡ none)
      × Returns (apply_seccomp sec) k (mid ++ no_new_privs ∷ []) tt after
unfolding restrict
restrict-on true true sec k mid on h =
    invoked k "PR_SET_NO_NEW_PRIVS" no_new_privs (apply_seccomp sec) mid h
restrict-on false true sec k mid on h =
    invoked k "PR_SET_NO_NEW_PRIVS" no_new_privs (apply_seccomp sec) mid h
restrict-on nnp false sec k mid on h = absurd (cc on)

restrict-off :
    (nnp enabled : Bool) (sec : SeccompConfig) (k : Kernel) (mid : List Call) {after : List Call}
    → enabled ≡ false
    → Returns (restrict nnp enabled sec) k mid tt after
    → ((nnp ≡ true) × (after ≡ mid ++ no_new_privs ∷ []) × (k.act mid no_new_privs ≡ none))
      ⊎ ((nnp ≡ false) × (after ≡ mid))
unfolding restrict
restrict-off true false sec k mid off h =
    let (set, r) = invoked k "PR_SET_NO_NEW_PRIVS" no_new_privs (pure tt) mid h in
    inl (refl, cc r, set)
restrict-off false false sec k mid off h = inr (refl, cc h)
restrict-off nnp true sec k mid off h = absurd (cc off)

-- The names that Apply keeps.
abbrev pub kept : Security → List Str
kept sec = or_default sec.capabilities default_capabilities

-- When Apply succeeds with seccomp enabled, its last two calls are the no_new_privs latch and the
-- installation of a filter, both accepted by the kernel and both after DropCapabilities has
-- returned; and on every machine with the laws of classic BPF the installed program decides as the
-- default policy does, whatever names ExtraDenied adds.
pub apply-enabled :
    (sec : Security) (k : Kernel) (log : List Call) {after : List Call}
    → sec.seccomp.enabled ≡ true
    → Returns (apply sec) k log tt after
    → (mid : List Call) × (p : Program) × Returns (drop_capabilities (kept sec)) k log tt mid
      × (after ≡ mid ++ no_new_privs ∷ seccomp_tsync (length p.instructions) p.instructions ∷ [])
      × (k.act mid no_new_privs ≡ none)
      × (k.act (mid ++ no_new_privs ∷ []) (seccomp_tsync (length p.instructions) p.instructions)
          ≡ none)
      × ((m : Bpf) (d : SeccompData)
          → m.run p.instructions 0 d
            ≡ some
                (verdict k.native_arch (default_denied k.sys_nr) (action_of sec.seccomp.action) d))
unfolding apply
apply-enabled sec k log {after} on h =
    let dropping = context "capabilities" (drop_capabilities (kept sec)) in
    let rest = restrict sec.no_new_privs sec.seccomp.enabled sec.seccomp in
    let (mid, d, h1) = >>-Returns k dropping rest log h in
    let (set, h2) = restrict-on sec.no_new_privs sec.seccomp.enabled sec.seccomp k mid on h1 in
    let (p, denied, ext, built, e, accepted) =
      apply_seccomp-Returns sec.seccomp k (mid ++ no_new_privs ∷ []) h2 in
    let (_, _, decides) =
      built-verdict k.native_arch (action_of sec.seccomp.action) denied p built in
    (
      mid,
      p,
      context-Returns "capabilities" (drop_capabilities (kept sec)) k log d,
      e ∙ append_assoc mid (no_new_privs ∷ []) _,
      set,
      accepted,
      λ m d.
          decides m d
          ∙ ap some (
              verdict_eq k.native_arch _ d denied (default_denied k.sys_nr) (
                extend_denied-from k.sys_nr (default_denied k.sys_nr) sec.seccomp.extra_denied ext
                  (λ x. refl) d.nr)),
    )

-- When Apply succeeds with seccomp disabled, it has made the calls of DropCapabilities and, exactly
-- if NoNewPrivs is set, the accepted call of the latch behind them; no filter is installed.
pub apply-disabled :
    (sec : Security) (k : Kernel) (log : List Call) {after : List Call}
    → sec.seccomp.enabled ≡ false
    → Returns (apply sec) k log tt after
    → (mid : List Call) × Returns (drop_capabilities (kept sec)) k log tt mid
      × (((sec.no_new_privs ≡ true)
            × (after ≡ mid ++ no_new_privs ∷ [])
            × (k.act mid no_new_privs ≡ none))
          ⊎ ((sec.no_new_privs ≡ false) × (after ≡ mid)))
unfolding apply
apply-disabled sec k log off h =
    let dropping = context "capabilities" (drop_capabilities (kept sec)) in
    let rest = restrict sec.no_new_privs sec.seccomp.enabled sec.seccomp in
    let (mid, d, h1) = >>-Returns k dropping rest log h in
    (
      mid,
      context-Returns "capabilities" (drop_capabilities (kept sec)) k log d,
      restrict-off sec.no_new_privs sec.seccomp.enabled sec.seccomp k mid off h1,
    )
