-- ===== src/Security/Filter/Decision.antt =====
-- What the program that BuildFilter assembles decides, on every machine with the BPF laws.
use husk.Base.{
  ℕ, suc, ◌+◌, ◌-◌, ◌%◌, ◌^◌, ◌≤◌, ◌<◌, ◌≡◌, refl, ap, ◌∙◌, Bool, false, ◌||◌, some, List, [], ◌∷◌,
  ◌++◌, arith, length, length-append, drop, leb, ltb, ◌==◌, le→ltb, ltb→lt, ltb→le, ◌⊎◌,
  if◌then◌else◌, inl, inr, Bool-cases,
}
use husk.Base.Outcome.{ok, err}
use husk.Security.Filter.{
  SockFilter, Denied, Program, policy_too_long, op_return, ret_allow, ret_kill_process,
  x32_syscall_bit, comparisons, prologue, epilogue, assemble, build_filter,
}
use husk.Security.Filter.Machine.{SeccompData, Bpf}

-- Does the policy name this system call? The filter sees the low 32 bits of a number.
abbrev pub denies : List Denied → ℕ → Bool
denies [] nr = false
denies (d ∷ rest) nr = nr == d.nr % 2 ^ 32 || denies rest nr

-- The action that the policy asks for.
abbrev pub verdict : ℕ → List Denied → ℕ → SeccompData → ℕ
verdict native denied action d =
    if d.arch == native
    then (if leb x32_syscall_bit d.nr
        then ret_kill_process
        else (if denies denied d.nr then action else ret_allow))
    else ret_kill_process

pub length-comparisons :
    (total i : ℕ) (ds : List Denied) → length (comparisons total i ds) ≡ length ds
unfolding comparisons
length-comparisons total i [] = refl
length-comparisons total i (d ∷ ds) = ap suc (length-comparisons total (i + 1) ds)

-- Past all comparisons and the allow instruction stands the deny instruction.
drop-epilogue :
    (total i action : ℕ) (ds : List Denied)
    → drop (suc (length ds)) (comparisons total i ds ++ epilogue action)
      ≡ record { code = op_return; jt = 0; jf = 0; k = action } ∷ []
unfolding comparisons epilogue
drop-epilogue total i action [] = refl
drop-epilogue total i action (d ∷ ds) = drop-epilogue total (i + 1) action ds

module _ (m : Bpf) where
  open m use {run, run_load, run_jump_equal, run_jump_ge, run_return}

  run-comparisons :
      (total i action nr : ℕ) (ds : List Denied) (d : SeccompData)
      → i + length ds ≡ total
      → total ≤ 250
      → run (comparisons total i ds ++ epilogue action) nr d
        ≡ some (if denies ds nr then action else ret_allow)
  unfolding comparisons
  run-comparisons total i action nr [] d e h = unfold epilogue in run_return 0 0 ret_allow nr _ d
  run-comparisons total i action nr (x ∷ ds) d e h =
      let far : (total - i - 1 + 1) % 2 ^ 8 ≡ suc (length ds) = omega arith in
      run_jump_equal _ 0 (x.nr % 2 ^ 32) nr _ d ∙ (elim (Bool-cases (nr == x.nr % 2 ^ 32)) [
        | inl hit ↦
            rw (hit, far, drop-epilogue total (i + 1) action ds) (run_return 0 0 action nr [] d)
        | inr miss ↦ rw miss (run-comparisons total (i + 1) action nr ds d (omega arith) h)
      ])

  run-prologue :
      (native : ℕ) (rest : List SockFilter) (d : SeccompData)
      → run (prologue native ++ rest) 0 d ≡ (
          if d.arch == native
          then (if leb x32_syscall_bit d.nr then some ret_kill_process else run rest d.nr d)
          else some ret_kill_process)
  unfolding prologue
  run-prologue native rest d =
      run_load 0 0 4 0 _ d
      ∙ run_jump_equal 1 0 native d.arch _ d
      ∙ (elim (Bool-cases (d.arch == native)) [
        | inl same ↦
            rw same
              (run_load 0 0 0 d.arch _ d ∙ run_jump_ge 0 1 x32_syscall_bit d.nr _ d ∙ x32 d.nr)
        | inr other ↦ rw other (run_return 0 0 ret_kill_process d.arch _ d)
      ])
    where
      x32 :
          (nr : ℕ)
          → run
              (drop
                (if leb x32_syscall_bit nr then 0 else 1)
                (record { code = op_return; jt = 0; jf = 0; k = ret_kill_process } ∷ rest))
              nr
              d
            ≡ (if leb x32_syscall_bit nr then some ret_kill_process else run rest nr d)
      x32 nr = elim (Bool-cases (leb x32_syscall_bit nr)) [
        | inl high ↦ rw high (run_return 0 0 ret_kill_process nr rest d)
        | inr low ↦ rw low
      ]

  -- For a policy of at most 250 entries BuildFilter returns a program, and on every machine with
  -- the laws of classic BPF that program kills a call of a foreign ABI or with the x32 bit, takes
  -- the policy's action on every call that the policy names, and allows every other call.
  pub build_filter-verdict :
      (native action : ℕ) (denied : List Denied) (d : SeccompData)
      → length denied ≤ 250
      → (p : Program) × (build_filter native denied action ≡ ok p)
        × (run p.instructions 0 d ≡ some (verdict native denied action d))
  unfolding build_filter
  build_filter-verdict native action denied d h = (
    assemble native denied action,
    rw (le→ltb 250 (length denied) h),
    run-prologue native _ d ∙ decide_call,
  )
    where
      decide_call :
          (if d.arch == native
            then (if leb x32_syscall_bit d.nr
                then some ret_kill_process
                else run (comparisons (length denied) 0 denied ++ epilogue action) d.nr d)
            else some ret_kill_process)
          ≡ some (verdict native denied action d)
      decide_call =
          rw (run-comparisons (length denied) 0 action d.nr denied d (omega arith) h) (ground arith)

-- BuildFilter refuses exactly the policies of more than 250 entries, with their length in the
-- error; every other policy gives a program that is eight instructions longer than the policy, so
-- its length survives the conversion to uint16 in Install.
pub build_filter-length :
    (native action : ℕ) (denied : List Denied)
    → ((250 < length denied)
        × (build_filter native denied action ≡ err (policy_too_long (length denied))))
      ⊎ ((length denied ≤ 250)
          × ((p : Program) × (build_filter native denied action ≡ ok p)
              × (length p.instructions ≡ length denied + 8)
              × (length p.instructions % 2 ^ 16 ≡ length p.instructions)))
unfolding build_filter prologue epilogue
build_filter-length native action denied = elim (Bool-cases (ltb 250 (length denied))) [
  | inl long ↦ inl (ltb→lt 250 _ long, rw long)
  | inr short ↦ inr (
    ltb→le 250 _ short,
    (
      assemble native denied action,
      rw short,
      size,
      ground (arith, size, ltb→le 250 (length denied)),
    ),
  )
]
  where
    size :
        length (prologue native ++ (comparisons (length denied) 0 denied ++ epilogue action))
        ≡ length denied + 8
    size = omega (
      arith,
      length-append (comparisons (length denied) 0 denied) (epilogue action),
      length-comparisons (length denied) 0 denied,
    )
