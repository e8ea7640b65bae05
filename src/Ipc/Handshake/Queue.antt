-- ===== src/Ipc/Handshake/Queue.antt =====
-- The messages that a pipe holds, and what reading one of them tells.
use husk.Base.{
  ◌≡◌, refl, sym, Bool, true, false, not, ◌||◌, List, [], ◌∷◌, ◌++◌, arith, if◌then◌else◌,
}
use husk.Base.Bytes.{Str, str_eq}
use husk.Base.Outcome.{err}
use husk.Base.Action.{message}
use husk.Ipc.{
  Message, await_json, stage_config, stage_child_booted, stage_parent_ready, stage_child_jailed,
  stage_error,
}
use husk.Ipc.Handshake.{accepted, decoded, judged, receive}

-- A message of this stage is in the queue.
abbrev pub holds : Str → List Message → Bool
holds stage [] = false
holds stage (m ∷ rest) = str_eq m.stage stage || holds stage rest

pub holds-append :
    (stage : Str) (q : List Message) (m : Message)
    → holds stage (q ++ m ∷ []) ≡ (holds stage q || str_eq m.stage stage)
holds-append stage [] m = ground arith
holds-append stage (x ∷ q) m = ground (arith, holds-append stage q m)

-- If `a` then `b`.
abbrev pub implies : Bool → Bool → Bool
implies a b = not a || b

weaken : (a b : Bool) → implies a (b || a) ≡ true
weaken a b = ground arith

-- An accepted message stood first, with the stage that was awaited, and the rest is left.
pub receive-accepted :
    (end_closed decodes : Bool) (want : Str) (q : List Message) {rest : List Message}
    → receive end_closed decodes want q ≡ accepted rest
    → (holds want q ≡ true) × ((stage : Str) → implies (holds stage rest) (holds stage q) ≡ true)
unfolding receive await_json
receive-accepted true decodes want [] h = absurd (cc h)
receive-accepted false decodes want [] h = absurd (cc h)
receive-accepted end_closed decodes want (m ∷ q) {rest} h =
    let (e, same) = first (str_eq m.stage stage_error) (str_eq m.stage want) decodes refl h in
    (rw e refl, λ stage. rw (sym same) (weaken (holds stage q) (str_eq m.stage stage)))
  where
    first :
        (is_error is_wanted decodes : Bool)
        → str_eq m.stage want ≡ is_wanted
        → judged
            (if is_error
              then err (message "peer failed before stage")
              else if not is_wanted
              then err (message "handshake out of order")
              else decoded decodes m.body)
            q
          ≡ accepted rest
        → (str_eq m.stage want ≡ true) × (q ≡ rest)
    first true w d e h = absurd (cc h)
    first false false d e h = absurd (cc h)
    first false true true e h = (e, cc h)
    first false true false e h = absurd (cc h)

-- The stages differ from those that the invariant is about.
pub config_not_ready : str_eq stage_config stage_parent_ready ≡ false
unfolding str_eq
config_not_ready = refl

pub error_not_ready : str_eq stage_error stage_parent_ready ≡ false
unfolding str_eq
error_not_ready = refl

pub booted_not_jailed : str_eq stage_child_booted stage_child_jailed ≡ false
unfolding str_eq
booted_not_jailed = refl

pub error_not_jailed : str_eq stage_error stage_child_jailed ≡ false
unfolding str_eq
error_not_jailed = refl
