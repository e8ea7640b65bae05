-- ===== src/State.antt =====
-- internal/state/state.go: the record of a container that outlives each command. The file system is
-- a state `D` with the operations that the store calls on it.
pub mod Atomic
pub mod Refreshed
use husk.Base.{
  ℕ, Bool, true, false, ◌||◌, ◌&&◌, not, Option, none, some, List, [], ◌∷◌, ◌++◌, if◌then◌else◌,
}
use husk.Base.Bytes.{Str, codes, str_eq}
use husk.Base.Int.{ℤ, is_positive}
use husk.Base.Outcome.{Outcome, ok, err}
use husk.Base.Action.{Errno, eexist, Error, errno, wrapped, message}
use husk.Container.{Config}
use husk.Runtime.{Status, creating, created, running, stopped}

-- State. Created is the text of a time.Time, and the map of annotations a list of pairs.
pub record State (F : Type 0) : Type 0 where
  pub oci_version : Str
  pub id : Str
  pub status : Status
  pub pid : ℤ
  pub bundle : Str
  pub annotations : List (Str × Str)
  pub created_at : Str
  pub config : Option (Config F)
  pub image : Str
  pub layers : List Str
  pub cgroup_dir : Str
  pub exit_code : ℤ

-- The operations of packages os and unix that the store calls.
pub record StateFs (D : Type 0) : Type 0 where
  pub mkdir_all : D → Str → Option Errno × D
  pub mkdir : D → Str → Option Errno × D
  pub mkfifo : D → Str → Option Errno × D
  -- os.CreateTemp(dir, ".state-*.json"), with the name that it chose
  pub create_temp : D → Str → Outcome Errno Str × D
  pub write : D → Str → Str → Option Errno × D
  pub sync : D → Str → Option Errno × D
  pub close : D → Str → Option Errno × D
  pub rename : D → Str → Str → Option Errno × D
  pub remove : D → Str → Option Errno × D

abbrev pub exists : Errno → Bool
exists eexist = true
exists _ = false

abbrev pub result : Option Errno → Outcome Error (Unit {0})
result none = ok tt
result (some e) = err (errno e)

module _ {D : Type 0} (fs : StateFs D) where
  abbrev pub made : {A : Type 0} → A → Option Errno × D → Outcome Error A × D
  made a (none, d) = (ok a, d)
  made a (some e, d) = (
    err (
        if exists e
        then message "container already exists"
        else wrapped "create state dir" (errno e)),
    d,
  )

  abbrev pub create_in : Str → Option Errno × D → Outcome Error (Unit {0}) × D
  create_in dir (none, d) = made tt (fs.mkdir d dir)
  create_in dir (some e, d) = (err (wrapped "create state root" (errno e)), d)

  -- Store.Create, for the root and the container's directory.
  unfoldable pub create : Str → Str → D → Outcome Error (Unit {0}) × D
  create root dir d = create_in dir (fs.mkdir_all d root)

  abbrev pub fifo_result : Option Errno × D → Outcome Error (Unit {0}) × D
  fifo_result (none, d) = (ok tt, d)
  fifo_result (some e, d) =
      (if exists e then ok tt else err (wrapped "create exec fifo" (errno e)), d)

  -- Store.MakeFifo
  unfoldable pub make_fifo : Str → D → Outcome Error (Unit {0}) × D
  make_fifo path d = fifo_result (fs.mkfifo d path)

  -- A result, and every state that the store went through, the last one first.
  abbrev pub Run : Type 0
  Run = Outcome Error (Unit {0}) × List D

  -- `defer os.Remove(tmp.Name())`
  abbrev pub deferred : Str → Outcome Error (Unit {0}) → D → List D → Run
  deferred tmp r d past = (r, (fs.remove d tmp).1 ∷ d ∷ past)

  abbrev pub renamed : Str → List D → Option Errno × D → Run
  renamed tmp past (o, d) = deferred tmp (result o) d past

  abbrev pub closed : Str → Str → List D → Option Errno × D → Run
  closed target tmp past (none, d) = renamed tmp (d ∷ past) (fs.rename d tmp target)
  closed target tmp past (some e, d) = deferred tmp (err (errno e)) d past

  -- tmp.Close() on the way out with an error.
  abbrev pub abandoned : Str → Errno → List D → D → Run
  abandoned tmp e past d = deferred tmp (err (errno e)) (fs.close d tmp).1 (d ∷ past)

  abbrev pub synced : Str → Str → List D → Option Errno × D → Run
  synced target tmp past (none, d) = closed target tmp (d ∷ past) (fs.close d tmp)
  synced target tmp past (some e, d) = abandoned tmp e past d

  abbrev pub written : Str → Str → List D → Option Errno × D → Run
  written target tmp past (none, d) = synced target tmp (d ∷ past) (fs.sync d tmp)
  written target tmp past (some e, d) = abandoned tmp e past d

  abbrev pub temporary : Str → Str → List D → Outcome Errno Str × D → Run
  temporary target text past (err e, d) = (err (wrapped "create temp state" (errno e)), d ∷ past)
  temporary target text past (ok tmp, d) = written target tmp (d ∷ past) (fs.write d tmp text)

  -- Store.Save behind MarshalIndent, which gave `text`.
  unfoldable pub save_text : Str → Str → Str → D → Run
  save_text dir target text d = temporary target text (d ∷ []) (fs.create_temp d dir)

-- OCIVersion
abbrev pub husk_version : Str
husk_version = codes "1.2.0"

-- The version that Save fills in.
unfoldable pub with_version : {F : Type 0} → State F → State F
with_version st = if str_eq st.oci_version [] then record st { oci_version = husk_version } else st

module _ {D F : Type 0} (fs : StateFs D) (marshal : State F → Outcome Errno Str) where
  abbrev pub save_marshalled : Str → Str → Outcome Errno Str → D → Run fs
  save_marshalled dir target (ok text) d = save_text fs dir target text d
  save_marshalled dir target (err e) d = (err (errno e), d ∷ [])

  -- Store.Save, for the container's directory and its state.json; `marshal` is json.MarshalIndent.
  unfoldable pub save : Str → Str → State F → D → Run fs
  save dir target st d = save_marshalled dir target (marshal (with_version st)) d

-- Whether a status asks for a process.
abbrev pub is_live : Status → Bool
is_live running = true
is_live created = true
is_live _ = false

abbrev pub gone : Option Errno → Bool
gone none = false
gone (some e) = true

-- The status after Refresh; `probe` is the answer to kill(pid, 0).
unfoldable pub refreshed : Status → ℤ → Option Errno → Status
refreshed status pid probe =
    if not (is_live status)
    then status
    else (if not (is_positive pid) then stopped else (if gone probe then stopped else status))

-- Refresh
unfoldable pub refresh : {F : Type 0} → State F → Option Errno → State F
refresh st probe = record st { status = refreshed st.status st.pid probe }
