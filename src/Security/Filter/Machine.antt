-- ===== src/Security/Filter/Machine.antt =====
-- The kernel's classic-BPF machine, as internal/security/seccomp.go relies on it. The machine is
-- not husk's code, so it is an interface: its laws are the documented meaning of the four
-- instructions that husk emits. `reference` is one machine that satisfies them.
use husk.Base.{
  ℕ, zero, suc, ◌≡◌, refl, Option, none, some, List, [], ◌∷◌, drop, leb, ◌==◌, if◌then◌else◌,
}
use husk.Security.Filter.{
  SockFilter, op_load_word, op_jump_equal, op_jump_ge, op_return, offset_syscall_nr, offset_arch,
}

-- struct seccomp_data: the two words that the filter reads.
pub record SeccompData : Type 0 where
  pub nr : ℕ
  pub arch : ℕ

-- A 32-bit load from the input block.
abbrev pub word : SeccompData → ℕ → ℕ
word d k = if k == offset_arch then d.arch else if k == offset_syscall_nr then d.nr else 0

-- `run program accumulator data`: the action returned; `none` where the program falls off its end.
pub record Bpf : Type 0 where
  pub run : List SockFilter → ℕ → SeccompData → Option ℕ
  pub run_load :
      (jt jf k a : ℕ) (rest : List SockFilter) (d : SeccompData)
      → run (record { code = op_load_word; jt = jt; jf = jf; k = k } ∷ rest) a d
        ≡ run rest (word d k) d
  pub run_jump_equal :
      (jt jf k a : ℕ) (rest : List SockFilter) (d : SeccompData)
      → run (record { code = op_jump_equal; jt = jt; jf = jf; k = k } ∷ rest) a d
        ≡ run (drop (if a == k then jt else jf) rest) a d
  pub run_jump_ge :
      (jt jf k a : ℕ) (rest : List SockFilter) (d : SeccompData)
      → run (record { code = op_jump_ge; jt = jt; jf = jf; k = k } ∷ rest) a d
        ≡ run (drop (if leb k a then jt else jf) rest) a d
  pub run_return :
      (jt jf k a : ℕ) (rest : List SockFilter) (d : SeccompData)
      → run (record { code = op_return; jt = jt; jf = jf; k = k } ∷ rest) a d ≡ some k

-- The machine that skips `skip` instructions and goes on.
step_from : ℕ → List SockFilter → ℕ → SeccompData → Option ℕ
step_from skip [] a d = none
step_from (suc skip) (i ∷ rest) a d = step_from skip rest a d
step_from zero (i ∷ rest) a d =
    let loaded = step_from zero rest (word d i.k) d in
    let equal = step_from (if a == i.k then i.jt else i.jf) rest a d in
    let above = step_from (if leb i.k a then i.jt else i.jf) rest a d in
    if i.code == op_load_word
    then loaded
    else if i.code == op_jump_equal
    then equal
    else if i.code == op_jump_ge
    then above
    else if i.code == op_return
    then some i.k
    else none

step_from-drop :
    (n : ℕ) (p : List SockFilter) (a : ℕ) (d : SeccompData)
    → step_from n p a d ≡ step_from zero (drop n p) a d
unfolding step_from
step_from-drop zero p a d = refl
step_from-drop (suc n) [] a d = refl
step_from-drop (suc n) (i ∷ p) a d = step_from-drop n p a d

-- A machine that satisfies the laws, so that the theorems over `Bpf` have an instance that runs.
unfoldable pub reference : Bpf
unfolding step_from step_from-drop
reference = record {
  run = step_from zero;
  run_load = λ jt jf k a rest d. refl;
  run_jump_equal = λ jt jf k a rest d. step_from-drop (if a == k then jt else jf) rest a d;
  run_jump_ge = λ jt jf k a rest d. step_from-drop (if leb k a then jt else jf) rest a d;
  run_return = λ jt jf k a rest d. refl;
}
