-- ===== src/Scenarios/Commands.antt =====
-- Runs of the commands of internal/cli.
use husk.Base.{
  ℕ, zero, suc, ◌+◌, ◌*◌, ◌/◌, ◌^◌, ◌≤◌, some, ◌<◌, ◌≡◌, refl, true, inl, not, ◌&&◌, ◌||◌, none,
  List, [], ◌∷◌, ◌++◌, arith,
}
use husk.Base.Bytes.{Str, codes, has_str}
use husk.Base.Int.{pos, format_int}
use husk.Base.Outcome.{ok}
use husk.Cli.Lifecycle.Guards.{IsQuiet, IsAlive}
use husk.Runtime.{
  Host, Status, running, kill_all, remove_state, destroy_cgroup, detach_network, byte, empty,
  FifoRead,
}
use husk.Runtime.Launch.{teardown}
use husk.State.{State, refresh, refreshed}
use husk.Cli.Flags.{parse_memory, resolve_capabilities}
use husk.Cli.Flags.Memory.{mega, parse_memory-exact}
use husk.Cli.Flags.CapabilitySet.{names, resolve_capabilities-member}
use husk.Cli.Observe.{human_bytes, byte_at}
use husk.Cli.Observe.Scaled.{human_bytes-scales}
use husk.Cli.Lifecycle.{await_fifo_byte, delete_command, clean}
use husk.Cli.Lifecycle.Guards.{await_fifo_byte-arrives, delete_command_complete}
use husk.Scenarios.Launching.{network_of}

-- 256M, and 17179869184G, which is 2^64 bytes.
parse_memory-exact_example :
    parse_memory (format_int (pos 256) ++ b'M' ∷ []) ≡ ok (pos (256 * 1048576))
parse_memory-exact_example = parse_memory-exact 256 b'M' 1048576 (omega arith) mega

abbrev none_added : List Str
none_added = []

resolve_capabilities-member_example :
    has_str
      (resolve_capabilities (λ keys. keys) (codes "CAP_KILL" ∷ []) none_added (codes "kill" ∷ []))
      (codes "CAP_KILL")
    ≡ (not (names (codes "kill" ∷ []) (codes "CAP_KILL"))
        && (names none_added (codes "CAP_KILL")
            || names (codes "CAP_KILL" ∷ []) (codes "CAP_KILL")))
resolve_capabilities-member_example =
    resolve_capabilities-member (λ keys. keys) (codes "CAP_KILL" ∷ []) none_added
      (codes "kill" ∷ []) (λ keys s. refl) (codes "CAP_KILL")

-- The byte comes at the second read.
abbrev second : ℕ → FifoRead
second zero = empty
second (suc n) = byte

abbrev host : Host
host = record {
  act = λ log s. none;
  is_dir = λ log path. ok true;
  image_layers = λ log name. ok [];
  attached = λ log. network_of;
  wait = λ log. ok 0;
  probe = λ log n pid. none;
  fifo = λ log n. second n;
  processes = λ log n. ok [];
}

abbrev recorded : Status → State (Unit {0})
recorded status = record {
  oci_version = [];
  id = codes "c1";
  status = status;
  pid = pos 7;
  bundle = [];
  annotations = [];
  created_at = [];
  config = none;
  image = [];
  layers = [];
  cgroup_dir = [];
  exit_code = pos 0;
}

await_fifo_byte-arrives_example : await_fifo_byte 5 0 (pos 7) host [] ≡ ok tt
await_fifo_byte-arrives_example =
    await_fifo_byte-arrives 5 1 0 (pos 7) host [] (omega arith) quiet refl
  where
    quiet : (k : ℕ) → k < 1 → IsQuiet (host.fifo [] (k + 0)) × IsAlive host [] (pos 7) (k + 0)
    quiet k lt = let first : k ≡ 0 = omega (arith, lt) in rw first (inl refl, refl)

delete_command_complete_example :
    (delete_command 5 true (ok (recorded running)) host []).1
    ≡ remove_state ∷ destroy_cgroup ∷ kill_all ∷ detach_network ∷ kill_all ∷ []
unfolding delete_command refresh refreshed clean teardown
delete_command_complete_example = delete_command_complete (recorded running) host [] 5 true refl

-- The ratio without its digit behind the point.
abbrev whole_ratio : ℕ → ℕ → Str
whole_ratio b div = format_int (pos (b / div))

human_bytes-scales_example :
    (div : ℕ) × (exp : ℕ) × (letter : ℕ) × (human_bytes whole_ratio (pos 5242880)
      ≡ some (whole_ratio 5242880 div ++ letter ∷ []))
    × (byte_at (codes "KMGTPE") exp ≡ some letter)
    × (div ≡ 1024 ^ suc exp)
    × (div ≤ 5242880)
    × (5242880 < 1024 * div)
human_bytes-scales_example = human_bytes-scales whole_ratio 5242880 (omega arith) (omega arith)
