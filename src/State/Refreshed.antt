-- ===== src/State/Refreshed.antt =====
-- What Refresh believes of a record.
use husk.Base.{Bool, ◌&&◌, not, ◌≡◌, refl, Option, arith, if◌then◌else◌}
use husk.Base.Int.{is_positive}
use husk.Base.Action.{Errno}
use husk.Runtime.{Status, creating, created, running, stopped}
use husk.State.{State, refresh, refreshed, is_live, gone}

-- After Refresh the record claims a process exactly if it did before, the recorded number can be
-- one, and signal 0 could be sent to it.
pub refresh-live :
    {F : Type 0} (st : State F) (probe : Option Errno)
    → is_live (refresh st probe).status
      ≡ (is_live st.status && (is_positive st.pid && not (gone probe)))
unfolding refresh refreshed
refresh-live st probe = go st.status (is_positive st.pid) (gone probe)
  where
    go :
        (s : Status) (p g : Bool)
        → is_live
            (if not (is_live s) then s else (if not p then stopped else (if g then stopped else s)))
          ≡ (is_live s && (p && not g))
    go creating p g = refl
    go stopped p g = refl
    go created p g = ground arith
    go running p g = ground arith

-- A second Refresh with the same answer changes nothing.
pub refresh-idempotent :
    {F : Type 0} (st : State F) (probe : Option Errno)
    → (refresh (refresh st probe) probe).status ≡ (refresh st probe).status
unfolding refresh refreshed
refresh-idempotent st probe = go st.status (is_positive st.pid) (gone probe)
  where
    once : Bool → Bool → Status → Status
    once p g s =
        if not (is_live s) then s else (if not p then stopped else (if g then stopped else s))

    go : (s : Status) (p g : Bool) → once p g (once p g s) ≡ once p g s
    go creating p g = refl
    go stopped p g = refl
    go created p g = ground arith
    go running p g = ground arith
