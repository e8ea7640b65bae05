-- ===== src/Ipc.antt =====
-- internal/ipc/sync.go: the messages between the runtime and the init process. A channel carries
-- `Message` values, and encoding/json is the parameter that reads a body.
pub mod Handshake
use husk.Base.{Bool, true, false, not, List, [], ◌∷◌, if◌then◌else◌}
use husk.Base.Bytes.{Str, codes, str_eq}
use husk.Base.Outcome.{Outcome, ok, err}
use husk.Base.Action.{Error, message, wrapped}

abbrev pub stage_config : Str
stage_config = codes "config"

abbrev pub stage_child_booted : Str
stage_child_booted = codes "child-booted"

abbrev pub stage_parent_ready : Str
stage_parent_ready = codes "parent-ready"

abbrev pub stage_child_jailed : Str
stage_child_jailed = codes "child-jailed"

abbrev pub stage_error : Str
stage_error = codes "error"

-- type message
pub record Message : Type 0 where
  pub stage : Str
  pub payload : Str
  pub body : Str

-- The messages that Signal, Fail and SendJSON encode.
abbrev pub signal : Str → Message
signal stage = record { stage = stage; payload = []; body = [] }

abbrev pub failure : Str → Message
failure text = record { stage = stage_error; payload = text; body = [] }

abbrev pub with_body : Str → Str → Message
with_body stage body = record { stage = stage; payload = []; body = body }

-- AwaitJSON on what Decode returned; `read` decodes the body.
unfoldable pub await_json :
    {A : Type 0} → (Str → Outcome Error A) → Str → Outcome Error Message → Outcome Error A
await_json read want (err e) = err (wrapped "waiting for stage" e)
await_json read want (ok m) =
    if str_eq m.stage stage_error
    then err (message "peer failed before stage")
    else if not (str_eq m.stage want)
    then err (message "handshake out of order")
    else read m.body

-- Await
unfoldable pub await : Str → Outcome Error Message → Outcome Error (Unit {0})
unfolding await_json
await want got = await_json (λ _. ok tt) want got
