-- ===== src/Cli/Flags.antt =====
-- internal/cli/flags.go: the values of the flags of `run` and `create`.
pub mod Memory
pub mod CapabilitySet
use husk.Base.{
  ℕ, suc, ◌^◌, Bool, true, false, ◌||◌, Option, none, some, List, [], ◌∷◌, ◌++◌, ◌==◌,
  if◌then◌else◌, map,
}
use husk.Base.Bytes.{
  Str, codes, str_eq, equal_fold, has_prefix, to_upper, trim_space, rev_onto, cut, has_str,
}
use husk.Base.Int.{ℤ, pos, negsuc, mul64, parse_int}
use husk.Base.Outcome.{Outcome, ok, err, ◌>>=◌}
use husk.Base.Action.{Error, message, wrapped}
use husk.Container.{PortMapping}

-- The multiplier of a suffix.
unfoldable pub suffix : ℕ → Option ℕ
suffix c =
    if c == b'K' || c == b'k'
    then some (2 ^ 10)
    else (if c == b'M' || c == b'm'
        then some (2 ^ 20)
        else (if c == b'G' || c == b'g' then some (2 ^ 30) else none))

abbrev pub take_suffix : Option ℕ → Str → Str → ℕ × Str
take_suffix none s init = (1, s)
take_suffix (some mult) s init = (mult, init)

-- The switch of parseMemory, on the text and its reversal.
abbrev pub scaled : Str → Str → ℕ × Str
scaled s [] = (1, s)
scaled s (c ∷ r) = take_suffix (suffix c) s (rev_onto r [])

abbrev pub times : Option ℤ → ℕ → Outcome Error ℤ
times none mult = err (wrapped "invalid memory value" (message "ParseInt"))
times (some v) mult = ok (mul64 v mult)

-- parseMemory behind TrimSpace
unfoldable pub parse_trimmed : Str → Outcome Error ℤ
parse_trimmed s = let (mult, digits) = scaled s (rev_onto s []) in times (parse_int digits) mult

-- parseMemory
unfoldable pub parse_memory : Str → Outcome Error ℤ
unfolding parse_trimmed
parse_memory s = if str_eq s [] then ok (pos 0) else parse_trimmed (trim_space s)

abbrev pub given : Outcome Error ℤ → Outcome Error (Option ℤ)
given (ok v) = ok (some v)
given (err e) = err (wrapped "memory-swap" e)

-- parseSwap
unfoldable pub parse_swap : Str → Outcome Error (Option ℤ)
parse_swap text =
    let s = trim_space text in
    if str_eq s []
    then ok none
    else (if equal_fold s (codes "max") || str_eq s (codes "-1")
        then ok (some (negsuc 0))
        else given (parse_memory s))

-- The part of a port in front of "/", and the protocol.
abbrev pub with_protocol : Str → Option (Str × Str) → Str × Str
with_protocol spec none = (spec, codes "tcp")
with_protocol spec (some p) = p

abbrev pub mapping : Str → Option ℤ → Option ℤ → Outcome Error PortMapping
mapping proto none ctr = err (message "invalid host port")
mapping proto (some host) none = err (message "invalid container port")
mapping proto (some host) (some ctr) =
    ok (record { host_port = host; container_port = ctr; protocol = proto; host_ip = [] })

abbrev pub ports_of : Str → Option (Str × Str) → Outcome Error PortMapping
ports_of proto none = err (message "must be HOST:CONTAINER")
ports_of proto (some (host, ctr)) = mapping proto (parse_int host) (parse_int ctr)

-- One round of the loop of parsePorts.
unfoldable pub parse_port : Str → Outcome Error PortMapping
parse_port spec =
    let (ports, proto) = with_protocol spec (cut b'/' spec) in ports_of proto (cut b':' ports)

-- parsePorts
unfoldable pub parse_ports : List Str → Outcome Error (List PortMapping)
parse_ports [] = ok []
parse_ports (spec ∷ specs) = do p ← parse_port spec; rest ← parse_ports specs; ok (p ∷ rest)

-- normaliseCap
unfoldable pub normalise_cap : Str → Str
normalise_cap name =
    let n = to_upper (trim_space name) in
    if has_prefix n (codes "CAP_") then n else codes "CAP_" ++ n

-- keep[c] = true
abbrev pub add_key : Str → List Str → List Str
add_key c keep = if has_str keep c then keep else c ∷ keep

-- delete(keep, c)
unfoldable pub delete_key : Str → List Str → List Str
delete_key c [] = []
delete_key c (x ∷ keep) = let rest = delete_key c keep in if str_eq x c then rest else x ∷ rest

unfoldable pub add_keys : List Str → List Str → List Str
add_keys [] keep = keep
add_keys (c ∷ cs) keep = add_keys cs (add_key (normalise_cap c) keep)

unfoldable pub delete_keys : List Str → List Str → List Str
unfolding delete_key
delete_keys [] keep = keep
delete_keys (c ∷ cs) keep = delete_keys cs (delete_key (normalise_cap c) keep)

-- resolveCapabilities; `range` is the order in which Go goes through a map with these keys.
unfoldable pub resolve_capabilities :
    (List Str → List Str) → List Str → List Str → List Str → List Str
resolve_capabilities range defaults add drop =
    range (delete_keys drop (add_keys add (add_keys defaults [])))
