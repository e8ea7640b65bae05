-- ===== src/Mounts/Masks/Covered.antt =====
-- Which paths a successful run of internal/mounts/mask.go has covered, and how.
use husk.Base.{◌≡◌, ◌⊎◌, Bool, true, false, none, some, List, [], ◌∷◌, ◌++◌}
use husk.Base.Bytes.{Str}
use husk.Base.Outcome.{Outcome, ok, err}
use husk.Base.Action.{Errno, enoent, eperm, eacces}
use husk.Kernel.{Kernel, Call}
use husk.Kernel.Chain.{Chain}
use husk.Mounts.{bind_call, remount_call}
use husk.Mounts.Masks.{empty_call, null_call}

-- The errors that are let pass.
abbrev pub IsDenied : Errno → Type 0
IsDenied e = (e ≡ eperm) ⊎ (e ≡ eacces)

-- What hides a path: the path is not there, or one mount covers it. Only the bind of /dev/null over a
-- file may be refused, with EPERM or EACCES.
pub data Masked (k : Kernel) (path : Str) (log after : List Call) : Type 0 where
  missing : k.stat log path ≡ err enoent → after ≡ log → Masked k path log after
  emptied :
      k.stat log path ≡ ok true
      → k.act log (empty_call path) ≡ none
      → after ≡ log ++ empty_call path ∷ []
      → Masked k path log after
  nulled :
      k.stat log path ≡ ok false
      → k.act log (null_call path) ≡ none
      → after ≡ log ++ null_call path ∷ []
      → Masked k path log after
  refused :
      (e : Errno)
      → k.stat log path ≡ ok false
      → k.act log (null_call path) ≡ some e
      → IsDenied e
      → after ≡ log ++ null_call path ∷ []
      → Masked k path log after

-- What makes a path read-only: it is not there, or it is bound onto itself and then remounted. Either
-- mount may be refused, with EPERM or EACCES.
pub data Sealed (k : Kernel) (path : Str) (log after : List Call) : Type 0 where
  gone : k.stat log path ≡ err enoent → after ≡ log → Sealed k path log after
  unbound :
      (is_dir : Bool) (e : Errno)
      → k.stat log path ≡ ok is_dir
      → k.act log (bind_call path path) ≡ some e
      → IsDenied e
      → after ≡ log ++ bind_call path path ∷ []
      → Sealed k path log after
  remounted :
      (is_dir : Bool)
      → k.stat log path ≡ ok is_dir
      → k.act log (bind_call path path) ≡ none
      → k.act (log ++ bind_call path path ∷ []) (remount_call path) ≡ none
      → after ≡ (log ++ bind_call path path ∷ []) ++ remount_call path ∷ []
      → Sealed k path log after
  unsealed :
      (is_dir : Bool) (e : Errno)
      → k.stat log path ≡ ok is_dir
      → k.act log (bind_call path path) ≡ none
      → k.act (log ++ bind_call path path ∷ []) (remount_call path) ≡ some e
      → IsDenied e
      → after ≡ (log ++ bind_call path path ∷ []) ++ remount_call path ∷ []
      → Sealed k path log after
