-- ===== src/Security/Capabilities.antt =====
-- internal/security/capabilities.go: which capabilities a container keeps, and the system calls
-- that drop the others.
pub mod Trace
pub mod Answered
pub mod Exact
use Prim.Native.Nat.{bit_or}
use husk.Base.{
  ℕ, zero, suc, ◌+◌, ◌-◌, ◌*◌, ◌/◌, ◌%◌, ◌^◌, Bool, true, false, ◌&&◌, ◌||◌, Option, none, some,
  List, [], ◌∷◌, ◌++◌, contains, leb, ltb, ◌==◌, if◌then◌else◌,
}
use husk.Base.Bytes.{Str, codes, str_eq, to_upper, trim_space, has_prefix}
use husk.Base.Outcome.{Outcome, ok, err}
use husk.Kernel.{
  Kernel, Call, Sys, ambient_clear, bounding_drop, capset, ambient_raise, read_file, tolerate,
  invoke,
}
use husk.Base.Action.{Errno, Error, eperm, einval, message, pure, lift, asks, ◌>>=◌, ◌>>◌, context}

-- DefaultCapabilities
abbrev pub default_capabilities : List Str
default_capabilities =
    codes "CAP_CHOWN"
    ∷ codes "CAP_DAC_OVERRIDE"
    ∷ codes "CAP_FSETID"
    ∷ codes "CAP_FOWNER"
    ∷ codes "CAP_MKNOD"
    ∷ codes "CAP_SETGID"
    ∷ codes "CAP_SETUID"
    ∷ codes "CAP_SETFCAP"
    ∷ codes "CAP_SETPCAP"
    ∷ codes "CAP_NET_BIND_SERVICE"
    ∷ codes "CAP_KILL"
    ∷ codes "CAP_AUDIT_WRITE"
    ∷ []

-- The keys of capabilityByName; the value of each is the constant of package unix of that name.
abbrev pub capability_names : List Str
capability_names =
    codes "CAP_CHOWN"
    ∷ codes "CAP_DAC_OVERRIDE"
    ∷ codes "CAP_DAC_READ_SEARCH"
    ∷ codes "CAP_FOWNER"
    ∷ codes "CAP_FSETID"
    ∷ codes "CAP_KILL"
    ∷ codes "CAP_SETGID"
    ∷ codes "CAP_SETUID"
    ∷ codes "CAP_SETPCAP"
    ∷ codes "CAP_LINUX_IMMUTABLE"
    ∷ codes "CAP_NET_BIND_SERVICE"
    ∷ codes "CAP_NET_BROADCAST"
    ∷ codes "CAP_NET_ADMIN"
    ∷ codes "CAP_NET_RAW"
    ∷ codes "CAP_IPC_LOCK"
    ∷ codes "CAP_IPC_OWNER"
    ∷ codes "CAP_SYS_MODULE"
    ∷ codes "CAP_SYS_RAWIO"
    ∷ codes "CAP_SYS_CHROOT"
    ∷ codes "CAP_SYS_PTRACE"
    ∷ codes "CAP_SYS_PACCT"
    ∷ codes "CAP_SYS_ADMIN"
    ∷ codes "CAP_SYS_BOOT"
    ∷ codes "CAP_SYS_NICE"
    ∷ codes "CAP_SYS_RESOURCE"
    ∷ codes "CAP_SYS_TIME"
    ∷ codes "CAP_SYS_TTY_CONFIG"
    ∷ codes "CAP_MKNOD"
    ∷ codes "CAP_LEASE"
    ∷ codes "CAP_AUDIT_WRITE"
    ∷ codes "CAP_AUDIT_CONTROL"
    ∷ codes "CAP_SETFCAP"
    ∷ codes "CAP_MAC_OVERRIDE"
    ∷ codes "CAP_MAC_ADMIN"
    ∷ codes "CAP_SYSLOG"
    ∷ codes "CAP_WAKE_ALARM"
    ∷ codes "CAP_BLOCK_SUSPEND"
    ∷ codes "CAP_AUDIT_READ"
    ∷ codes "CAP_PERFMON"
    ∷ codes "CAP_BPF"
    ∷ codes "CAP_CHECKPOINT_RESTORE"
    ∷ []

pub has_name : List Str → Str → Bool
has_name [] n = false
has_name (m ∷ rest) n = str_eq m n || has_name rest n

-- "CAP_" is put in front of a name that lacks it.
unfoldable pub normalise_cap : Str → Str
unfolding to_upper trim_space has_prefix
normalise_cap name =
    let n = to_upper (trim_space name) in
    if has_prefix n (codes "CAP_") then n else codes "CAP_" ++ n

-- LookupCapability; `number` gives the constants of package unix.
unfoldable pub lookup_capability : (Str → ℕ) → Str → Option ℕ
unfolding has_name normalise_cap
lookup_capability number name =
    let n = normalise_cap name in if has_name capability_names n then some (number n) else none

-- A map from capabilities to `true` has its keys in the order of their first insertion.
unfoldable pub add_key : List ℕ → ℕ → List ℕ
add_key keys c = if contains keys c then keys else keys ++ c ∷ []

-- The first loop of DropCapabilities.
unfoldable pub wanted_from : (Str → ℕ) → List ℕ → List Str → Outcome Error (List ℕ)
wanted_from number keys [] = ok keys
wanted_from number keys (name ∷ rest) = elim (lookup_capability number name) [
  | none ↦ err (message "unknown capability")
  | some c ↦ wanted_from number (add_key keys c) rest
]

-- The decimal digits at the front of a text, as fmt.Sscanf reads them with %d.
leading_digits : Str → Str
leading_digits [] = []
leading_digits (c ∷ s) =
    let rest = leading_digits s in if leb b'0' c && leb c b'9' then c ∷ rest else []

digits_value : ℕ → Str → ℕ
digits_value n [] = n
digits_value n (c ∷ s) = digits_value (n * 10 + (c - b'0')) s

in_uintptr : ℕ → Option ℕ
in_uintptr v = if ltb v (2 ^ 64) then some v else none

unfoldable pub scan_uintptr : Str → Option ℕ
unfolding leading_digits digits_value in_uintptr
scan_uintptr s = elim (leading_digits s) [
  | [] ↦ none
  | c ∷ rest ↦ in_uintptr (digits_value 0 (c ∷ rest))
]

-- The value that lastCap makes of what it read; 40 is its floor.
unfoldable pub last_of : Outcome Errno Str → ℕ
unfolding scan_uintptr trim_space
last_of (err e) = 40
last_of (ok text) = elim (scan_uintptr (trim_space text)) [ none ↦ 40 | some v ↦ v ]

-- lastCap
unfoldable pub last_cap : Sys ℕ
unfolding last_of
last_cap = do text ← read_file (codes "/proc/sys/kernel/cap_last_cap"); pure (last_of text)

abbrev pub is_einval : Errno → Bool
is_einval einval = true
is_einval _ = false

abbrev pub is_einval_or_eperm : Errno → Bool
is_einval_or_eperm einval = true
is_einval_or_eperm eperm = true
is_einval_or_eperm _ = false

-- Step 2 of DropCapabilities: `rounds` counts the capabilities from `c` to the last one.
unfoldable pub shrink_bounding : List ℕ → ℕ → ℕ → Sys (Unit {0})
shrink_bounding wanted zero c = pure tt
shrink_bounding wanted (suc rounds) c =
    let rest = shrink_bounding wanted rounds (c + 1) in
    if contains wanted c
    then rest
    else (context "drop bounding capability" (tolerate is_einval_or_eperm (bounding_drop c))
        >> rest)

-- mask[c>>5] |= 1 << (c & 31), for the word of index `index`.
unfoldable pub mask_word : ℕ → ℕ → List ℕ → ℕ
mask_word index mask [] = mask
mask_word index mask (c ∷ rest) =
    mask_word index (if c / 32 == index then bit_or mask (2 ^ (c % 32)) else mask) rest

-- Step 4 of DropCapabilities.
unfoldable pub raise_ambient : List ℕ → Sys (Unit {0})
raise_ambient [] = pure tt
raise_ambient (c ∷ rest) =
    context "raise ambient capability" (tolerate is_einval_or_eperm (ambient_raise c))
    >> raise_ambient rest

-- Steps 1 to 4 of DropCapabilities.
unfoldable pub drop_to : List ℕ → Sys (Unit {0})
unfolding last_cap
drop_to wanted = do
  context "clear ambient set" (tolerate is_einval ambient_clear)
  last ← last_cap
  shrink_bounding wanted (suc last) 0
  context "capset" (invoke (capset (mask_word 0 0 wanted) (mask_word 1 0 wanted)))
  order ← asks (λ k. k.range wanted)
  raise_ambient order

-- DropCapabilities
unfoldable pub drop_capabilities : List Str → Sys (Unit {0})
drop_capabilities keep = do
  number ← asks (λ k. k.cap_nr)
  wanted ← lift (wanted_from number [] keep)
  drop_to wanted
