-- ===== src/Security/Filter.antt =====
-- internal/security/seccomp.go: the classic-BPF program that filters system calls.
-- The instruction format and the input block are the kernel's; `SockFilter` has the fields of
-- unix.SockFilter, and a word of 32 or 8 bits keeps its wrap-around written out.
pub mod Machine
pub mod Decision
use Prim.Native.Nat.{bit_or, bit_and}
use husk.Base.{ℕ, suc, ◌+◌, ◌-◌, ◌%◌, ◌^◌, List, [], ◌∷◌, ◌++◌, String, ltb, length, if◌then◌else◌}
use husk.Base.Bytes.{Str}
use husk.Base.Outcome.{Outcome, ok, err}

pub record SockFilter : Type 0 where
  pub code : ℕ  -- uint16
  pub jt : ℕ  -- uint8
  pub jf : ℕ  -- uint8
  pub k : ℕ  -- uint32

-- const bpfLD … opReturn
abbrev pub bpf_ld : ℕ
bpf_ld = 0x00

abbrev pub bpf_jmp : ℕ
bpf_jmp = 0x05

abbrev pub bpf_ret : ℕ
bpf_ret = 0x06

abbrev pub bpf_w : ℕ
bpf_w = 0x00

abbrev pub bpf_abs : ℕ
bpf_abs = 0x20

abbrev pub bpf_jeq : ℕ
bpf_jeq = 0x10

abbrev pub bpf_jge : ℕ
bpf_jge = 0x30

abbrev pub bpf_k : ℕ
bpf_k = 0x00

abbrev pub op_load_word : ℕ
op_load_word = bit_or (bit_or bpf_ld bpf_w) bpf_abs

abbrev pub op_jump_equal : ℕ
op_jump_equal = bit_or (bit_or bpf_jmp bpf_jeq) bpf_k

abbrev pub op_jump_ge : ℕ
op_jump_ge = bit_or (bit_or bpf_jmp bpf_jge) bpf_k

abbrev pub op_return : ℕ
op_return = bit_or bpf_ret bpf_k

abbrev pub offset_syscall_nr : ℕ
offset_syscall_nr = 0

abbrev pub offset_arch : ℕ
offset_arch = 4

abbrev pub ret_kill_process : ℕ
ret_kill_process = 0x80000000

abbrev pub ret_errno : ℕ
ret_errno = 0x00050000

abbrev pub ret_allow : ℕ
ret_allow = 0x7fff0000

abbrev pub x32_syscall_bit : ℕ
x32_syscall_bit = 0x40000000

-- type Denied
pub record Denied : Type 0 where
  pub name : Str
  pub nr : ℕ

-- type Program
pub record Program : Type 0 where
  pub instructions : List SockFilter
  pub denied : List Denied
  pub action : ℕ

-- "policy of %d syscalls exceeds the 8-bit BPF jump range"
pub data FilterError : Type 0 where
  policy_too_long : ℕ → FilterError

-- The loop over `denied`: one comparison for each entry, `total` is len(denied).
unfoldable pub comparisons : ℕ → ℕ → List Denied → List SockFilter
comparisons total i [] = []
comparisons total i (d ∷ rest) =
    record { code = op_jump_equal; jt = (total - i - 1 + 1) % 2 ^ 8; jf = 0; k = d.nr % 2 ^ 32 }
    ∷ comparisons total (i + 1) rest

-- The six instructions before the comparisons; `native` is nativeArch.
unfoldable pub prologue : ℕ → List SockFilter
prologue native =
    record { code = op_load_word; jt = 0; jf = 0; k = offset_arch }
    ∷ record { code = op_jump_equal; jt = 1; jf = 0; k = native }
    ∷ record { code = op_return; jt = 0; jf = 0; k = ret_kill_process }
    ∷ record { code = op_load_word; jt = 0; jf = 0; k = offset_syscall_nr }
    ∷ record { code = op_jump_ge; jt = 0; jf = 1; k = x32_syscall_bit }
    ∷ record { code = op_return; jt = 0; jf = 0; k = ret_kill_process }
    ∷ []

-- The two instructions behind them.
unfoldable pub epilogue : ℕ → List SockFilter
epilogue action =
    record { code = op_return; jt = 0; jf = 0; k = ret_allow }
    ∷ record { code = op_return; jt = 0; jf = 0; k = action }
    ∷ []

-- The program literal at the end of BuildFilter.
unfoldable pub assemble : ℕ → List Denied → ℕ → Program
assemble native denied action = record {
  instructions = prologue native ++ (comparisons (length denied) 0 denied ++ epilogue action);
  denied = denied;
  action = action;
}

-- BuildFilter
unfoldable pub build_filter : ℕ → List Denied → ℕ → Outcome FilterError Program
unfolding assemble
build_filter native denied action =
    if ltb 250 (length denied)
    then err (policy_too_long (length denied))
    else ok (assemble native denied action)

-- ActionErrno and ActionKill
unfoldable pub action_errno : ℕ → ℕ
action_errno errno = bit_or ret_errno (bit_and (errno % 2 ^ 32) 0x0000ffff)

unfoldable pub action_kill : ℕ
action_kill = ret_kill_process
