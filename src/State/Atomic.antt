-- ===== src/State/Atomic.antt =====
-- Whoever reads state.json while Save runs, or after it was cut short, sees a whole record.
use husk.Base.{◌≡◌, ◌≢◌, ◌∙◌, refl, ◌⊎◌, inl, inr, Option, none, some, List, [], ◌∷◌, All}
use husk.Base.Bytes.{Str}
use husk.Base.Outcome.{Outcome, ok, err}
use husk.Base.Action.{Errno, Error, errno}
use husk.State.{
  StateFs, State, Run, deferred, renamed, closed, abandoned, synced, written, temporary, save_text,
  save, with_version,
}

-- The files of a state, what POSIX says the operations do to them, and that os.CreateTemp never
-- picks the path `target`.
pub record LawfulFs {D : Type 0} (fs : StateFs D) (file : D → Str → Option Str) (target : Str)
    : Type 0 where
  pub temp_name : (d : D) (dir tmp : Str) → (fs.create_temp d dir).0 ≡ ok tmp → target ≢ tmp
  pub temp_empty :
      (d : D) (dir tmp : Str)
      → (fs.create_temp d dir).0 ≡ ok tmp
      → file (fs.create_temp d dir).1 tmp ≡ some []
  pub temp_keeps : (d : D) (dir : Str) → file (fs.create_temp d dir).1 target ≡ file d target
  pub write_ok :
      (d : D) (n text : Str)
      → file d n ≡ some []
      → (fs.write d n text).0 ≡ none
      → file (fs.write d n text).1 n ≡ some text
  pub write_keeps : (d : D) (n text m : Str) → m ≢ n → file (fs.write d n text).1 m ≡ file d m
  pub sync_keeps : (d : D) (n m : Str) → file (fs.sync d n).1 m ≡ file d m
  pub close_keeps : (d : D) (n m : Str) → file (fs.close d n).1 m ≡ file d m
  pub rename_ok :
      (d : D) (n m : Str) → (fs.rename d n m).0 ≡ none → file (fs.rename d n m).1 m ≡ file d n
  pub rename_err :
      (d : D) (n m : Str) (e : Errno)
      → (fs.rename d n m).0 ≡ some e
      → file (fs.rename d n m).1 m ≡ file d m
  pub remove_keeps : (d : D) (n m : Str) → m ≢ n → file (fs.remove d n).1 m ≡ file d m

-- The state that a run ends in.
abbrev pub final : {D : Type 0} → D → List D → D
final d [] = d
final d (x ∷ past) = x

module _ {D : Type 0} (file : D → Str → Option Str) (target : Str) (old : Option Str)
    (text : Str) where
  -- The file holds the old record, or the new one.
  abbrev pub IsWhole : D → Type 0
  IsWhole d = (file d target ≡ old) ⊎ (file d target ≡ some text)

  -- After a success the new record, after an error the old one.
  abbrev pub Matches : Outcome Error (Unit {0}) → D → Type 0
  Matches (ok _) d = file d target ≡ some text
  Matches (err e) d = file d target ≡ old

module _ {D : Type 0} (fs : StateFs D) (file : D → Str → Option Str) (target : Str)
    (laws : LawfulFs fs file target) (old : Option Str) (text : Str) where
  abbrev pub IsSound : D → Run fs → Type 0
  IsSound d (r, past) =
      All (IsWhole file target old text) past × Matches file target old text r (final d past)

  whole :
      (r : Outcome Error (Unit {0})) (d : D)
      → Matches file target old text r d
      → IsWhole file target old text d
  whole (ok x) d m = inr m
  whole (err e) d m = inl m

  same_file :
      (r : Outcome Error (Unit {0})) (d e : D)
      → file e target ≡ file d target
      → Matches file target old text r d
      → Matches file target old text r e
  same_file (ok x) d e s m = s ∙ m
  same_file (err x) d e s m = s ∙ m

  module _ (tmp : Str) (other : target ≢ tmp) (start : D) where
    deferred-IsSound :
        (r : Outcome Error (Unit {0})) (d : D) (past : List D)
        → Matches file target old text r d
        → All (IsWhole file target old text) past
        → IsSound start (deferred fs tmp r d past)
    deferred-IsSound r d past m p =
        let kept = same_file r d (fs.remove d tmp).1 (laws.remove_keeps d tmp target other) m in
        ((whole r (fs.remove d tmp).1 kept, (whole r d m, p)), kept)

    abandoned-IsSound :
        (e : Errno) (past : List D) (d : D)
        → file d target ≡ old
        → All (IsWhole file target old text) past
        → IsSound start (abandoned fs tmp e past d)
    abandoned-IsSound e past d s p =
        deferred-IsSound (err (errno e)) (fs.close d tmp).1 (d ∷ past)
          (laws.close_keeps d tmp target ∙ s) (inl s, p)

    renamed-IsSound :
        (past : List D) (d : D)
        → file d target ≡ old
        → file d tmp ≡ some text
        → All (IsWhole file target old text) past
        → IsSound start (renamed fs tmp past (fs.rename d tmp target))
    renamed-IsSound past d s t p =
        go (fs.rename d tmp target) (laws.rename_ok d tmp target) (laws.rename_err d tmp target)
      where
        go :
            (q : Option Errno × D)
            → (q.0 ≡ none → file q.1 target ≡ file d tmp)
            → ((e : Errno) → q.0 ≡ some e → file q.1 target ≡ file d target)
            → IsSound start (renamed fs tmp past q)
        go (none, x) f g = deferred-IsSound (ok tt) x past (f refl ∙ t) p
        go (some e, x) f g = deferred-IsSound (err (errno e)) x past (g e refl ∙ s) p

    closed-IsSound :
        (past : List D) (q : Option Errno × D)
        → file q.1 target ≡ old
        → file q.1 tmp ≡ some text
        → All (IsWhole file target old text) past
        → IsSound start (closed fs target tmp past q)
    closed-IsSound past (none, d) s t p = renamed-IsSound (d ∷ past) d s t (inl s, p)
    closed-IsSound past (some e, d) s t p = deferred-IsSound (err (errno e)) d past s p

    synced-IsSound :
        (past : List D) (q : Option Errno × D)
        → file q.1 target ≡ old
        → file q.1 tmp ≡ some text
        → All (IsWhole file target old text) past
        → IsSound start (synced fs target tmp past q)
    synced-IsSound past (none, d) s t p =
        closed-IsSound (d ∷ past) (fs.close d tmp) (laws.close_keeps d tmp target ∙ s)
          (laws.close_keeps d tmp tmp ∙ t) (inl s, p)
    synced-IsSound past (some e, d) s t p = abandoned-IsSound e past d s p

    written-IsSound :
        (past : List D) (q : Option Errno × D)
        → file q.1 target ≡ old
        → (q.0 ≡ none → file q.1 tmp ≡ some text)
        → All (IsWhole file target old text) past
        → IsSound start (written fs target tmp past q)
    written-IsSound past (none, d) s t p =
        synced-IsSound (d ∷ past) (fs.sync d tmp) (laws.sync_keeps d tmp target ∙ s)
          (laws.sync_keeps d tmp tmp ∙ t refl) (inl s, p)
    written-IsSound past (some e, d) s t p = abandoned-IsSound e past d s p

  temporary-IsSound :
      (start : D) (past : List D) (q : Outcome Errno Str × D)
      → file q.1 target ≡ old
      → ((tmp : Str) → q.0 ≡ ok tmp → (target ≢ tmp) × (file q.1 tmp ≡ some []))
      → All (IsWhole file target old text) past
      → IsSound start (temporary fs target text past q)
  temporary-IsSound start past (err e, d) s t p = ((inl s, p), s)
  temporary-IsSound start past (ok tmp, d) s t p =
      let (other, empty) = t tmp refl in
      written-IsSound tmp other start (d ∷ past) (fs.write d tmp text)
        (laws.write_keeps d tmp text target other ∙ s) (laws.write_ok d tmp text empty) (inl s, p)

module _ {D F : Type 0} (fs : StateFs D) (marshal : State F → Outcome Errno Str)
    (file : D → Str → Option Str) (target : Str) (laws : LawfulFs fs file target) where
  -- In every state that Save goes through, whatever fails, state.json holds the record that it held
  -- before or the whole new one; it ends with the new one if Save succeeds, and with the old one if
  -- Save fails.
  pub save-atomic :
      (dir : Str) (st : State F) (d : D) (text : Str)
      → marshal (with_version st) ≡ ok text
      → IsSound fs file target laws (file d target) text d (save fs marshal dir target st d)
  unfolding save save_text
  save-atomic dir st d text m = rw m (
      temporary-IsSound fs file target laws (file d target) text d (d ∷ []) (fs.create_temp d dir)
        (laws.temp_keeps d dir) (λ tmp e. (laws.temp_name d dir tmp e, laws.temp_empty d dir tmp e))
        (inl refl, tt))
