-- ===== src/Cli/Lifecycle/Signals.antt =====
-- parseSignal of internal/cli/lifecycle.go, for names in ASCII. The numbers unix.SIG* are a parameter.
use husk.Base.{Option, none, some, List, [], ◌∷◌, ◌++◌, if◌then◌else◌}
use husk.Base.Bytes.{Str, codes, has_str, has_prefix, to_upper}
use husk.Base.Int.{ℤ, parse_int}

-- The keys of the map.
abbrev pub signal_names : List Str
signal_names =
    codes "SIGHUP"
    ∷ codes "SIGINT"
    ∷ codes "SIGQUIT"
    ∷ codes "SIGKILL"
    ∷ codes "SIGUSR1"
    ∷ codes "SIGUSR2"
    ∷ codes "SIGTERM"
    ∷ codes "SIGSTOP"
    ∷ codes "SIGCONT"
    ∷ codes "SIGWINCH"
    ∷ codes "SIGABRT"
    ∷ []

-- The name in capitals, with SIG in front.
abbrev pub full_name : Str → Str
full_name name = if has_prefix name (codes "SIG") then name else codes "SIG" ++ name

abbrev pub named : (Str → ℤ) → Str → Option ℤ
named number name = if has_str signal_names name then some (number name) else none

abbrev pub unless_number : Option ℤ → Option ℤ → Option ℤ
unless_number (some n) other = some n
unless_number none other = other

-- parseSignal; `none` is "unknown signal".
unfoldable pub parse_signal : (Str → ℤ) → Str → Option ℤ
parse_signal number s = unless_number (parse_int s) (named number (full_name (to_upper s)))
