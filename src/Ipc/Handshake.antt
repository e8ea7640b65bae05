-- ===== src/Ipc/Handshake.antt =====
-- The two processes of a start, one step at a time: Handle.handshake and start of
-- internal/spawn/spawn.go on one side, Run of internal/initproc/initproc.go on the other. Which
-- process moves next, and whether what it tries succeeds, is up to a list of moves.
pub mod Queue
pub mod Guarded
pub mod Live
pub mod Measure
pub mod Progress
use husk.Base.{ℕ, Bool, true, false, List, [], ◌∷◌, ◌++◌, if◌then◌else◌}
use husk.Base.Bytes.{Str}
use husk.Base.Outcome.{Outcome, ok, err}
use husk.Base.Action.{Error, message}
use husk.Ipc.{
  Message, signal, failure, with_body, await_json, stage_config, stage_child_booted,
  stage_parent_ready, stage_child_jailed,
}

-- Where the runtime is: before each of its operations, returned with a container, or on its error
-- path, before and behind the kill of the child.
pub data Parent : Type 0 where
  sending_config awaiting_booted furnishing releasing awaiting_jailed started failing closed :
      Parent

-- Where the init process is.
pub data Child : Type 0 where
  receiving_config booting awaiting_ready jailing reporting holding launching running dead : Child

-- `furnished`: opts.Setup returned without an error; `jailed`: setup did.
pub record System : Type 0 where
  pub parent : Parent
  pub child : Child
  pub to_child : List Message
  pub to_parent : List Message
  pub furnished : Bool
  pub jailed : Bool

abbrev pub begin : System
begin = record {
  parent = sending_config;
  child = receiving_config;
  to_child = [];
  to_parent = [];
  furnished = false;
  jailed = false;
}

-- What a read of the pipe comes to; on an empty pipe it blocks until the other end is closed.
pub data Reading : Type 0 where
  blocked : Reading
  accepted : List Message → Reading
  refused : Reading

-- json.Unmarshal of a body, which the move decides.
abbrev pub decoded : Bool → Str → Outcome Error (Unit {0})
decoded true body = ok tt
decoded false body = err (message "decode body")

abbrev pub judged : Outcome Error (Unit {0}) → List Message → Reading
judged (ok _) rest = accepted rest
judged (err _) rest = refused

unfoldable pub receive : Bool → Bool → Str → List Message → Reading
receive closed_end decodes want [] = if closed_end then refused else blocked
receive closed_end decodes want (m ∷ rest) = judged (await_json (decoded decodes) want (ok m)) rest

abbrev pub is_dead : Child → Bool
is_dead dead = true
is_dead _ = false

abbrev pub is_closed : Parent → Bool
is_closed closed = true
is_closed _ = false

abbrev pub parent_at : System → Parent → System
parent_at s p = record s { parent = p }

abbrev pub child_at : System → Child → System
child_at s c = record s { child = c }

abbrev pub tell_child : System → Message → System
tell_child s m = record s { to_child = s.to_child ++ m ∷ [] }

abbrev pub tell_parent : System → Message → System
tell_parent s m = record s { to_parent = s.to_parent ++ m ∷ [] }

-- The runtime behind a read, with the place where it goes on.
abbrev pub parent_read : System → Parent → Reading → System
parent_read s next blocked = s
parent_read s next (accepted rest) = record s { parent = next; to_parent = rest }
parent_read s next refused = parent_at s failing

abbrev pub child_read : System → Child → Reading → System
child_read s next blocked = s
child_read s next (accepted rest) = record s { child = next; to_child = rest }
child_read s next refused = child_at s dead

-- One operation of the runtime.
unfoldable pub parent_step : Bool → Parent → System → System
unfolding receive
parent_step true sending_config s =
    tell_child (parent_at s awaiting_booted) (with_body stage_config [])
parent_step worked awaiting_booted s =
    parent_read s furnishing (receive (is_dead s.child) true stage_child_booted s.to_parent)
parent_step true furnishing s = record s { parent = releasing; furnished = true }
parent_step false furnishing s = tell_child (parent_at s failing) (failure [])
parent_step true releasing s =
    tell_child (parent_at s awaiting_jailed) (with_body stage_parent_ready [])
parent_step worked awaiting_jailed s =
    parent_read s started (receive (is_dead s.child) true stage_child_jailed s.to_parent)
parent_step worked failing s = record s { parent = closed; child = dead }
parent_step worked started s = s
parent_step worked closed s = s
parent_step false sending_config s = parent_at s failing
parent_step false releasing s = parent_at s failing

-- One operation of the init process; `hold` is cfg.AwaitStart.
unfoldable pub child_step : Bool → Bool → Child → System → System
unfolding receive
child_step hold worked receiving_config s =
    child_read s booting (receive (is_closed s.parent) worked stage_config s.to_child)
child_step hold true booting s = tell_parent (child_at s awaiting_ready) (signal stage_child_booted)
child_step hold worked awaiting_ready s =
    child_read s jailing (receive (is_closed s.parent) worked stage_parent_ready s.to_child)
child_step hold true jailing s = record s { child = reporting; jailed = true }
child_step hold false jailing s = tell_parent (child_at s dead) (failure [])
child_step true true reporting s = tell_parent (child_at s holding) (signal stage_child_jailed)
child_step false true reporting s = tell_parent (child_at s launching) (signal stage_child_jailed)
child_step hold true holding s = child_at s launching
child_step hold true launching s = child_at s running
child_step hold worked running s = s
child_step hold worked dead s = s
child_step hold false booting s = child_at s dead
child_step hold false reporting s = child_at s dead
child_step hold false holding s = child_at s dead
child_step hold false launching s = child_at s dead

-- Who moves, and whether it succeeds; the init process may also be killed at any time.
pub data Move : Type 0 where
  parent_runs : Bool → Move
  child_runs : Bool → Move
  child_killed : Move

unfoldable pub step : Bool → Move → System → System
unfolding parent_step child_step
step hold (parent_runs worked) s = parent_step worked s.parent s
step hold (child_runs worked) s = child_step hold worked s.child s
step hold child_killed s = child_at s dead

unfoldable pub run : Bool → List Move → System → System
unfolding step
run hold [] s = s
run hold (m ∷ moves) s = run hold moves (step hold m s)
