-- ===== src/Storage/Commit/Recorded.antt =====
-- A commit puts its layer on top of the layers of the image, or takes it away again.
use husk.Base.{Bool, true, ◌≡◌, ◌⊎◌, inl, inr, none, some, List, [], ◌∷◌, ◌++◌, All, arith}
use husk.Base.Bytes.{Str}
use husk.Base.Outcome.{Outcome, ok, err}
use husk.Base.Action.{Errno, Error, fail, pure, context, continue, ◌>>=◌, ◌>>◌}
use husk.Kernel.{Kernel, Call, Sys, mkdir_all, remove_all, write_file, invoke, stat_file, tolerate}
use husk.Kernel.Runs.{Returns, >>-Returns, context-Returns, invoked}
use husk.Kernel.Fails.{bind-Fails, call-Fails}
use husk.Storage.{upper_path, layer_path, put_image, image_layers}
use husk.Storage.Layers.{IsLayer, put_image-image_layers}
use husk.Storage.Commit.{Source, or_discard, discarding, writable, copy_tree, record_layer, commit}

module _ (k : Kernel) (dest : Str) where
  discarded :
      {A : Type 0} (x : Error) (log : List Call)
      → (tolerate (λ _. true) (remove_all dest) >> fail {A = A} x) k log
        ≡ (err x, log ++ remove_all dest ∷ [])
  discarded x log = ground arith

  discarding-Returns :
      (m : Sys (Unit {0})) (log : List Call) {after : List Call}
      → Returns (discarding dest m) k log tt after
      → Returns m k log tt after
  discarding-Returns m log {after} h = go (m k log) h
    where
      go :
          (r : Outcome Error (Unit {0}) × List Call)
          → continue (ok r.0, r.1) (or_discard dest) k ≡ (ok tt, after)
          → r ≡ (ok tt, after)
      go (ok x, mid) e = cc
      go (err x, mid) e = absurd (cc (discarded {A = Unit {0}} x mid, e))

  discarding-Fails :
      (m : Sys (Unit {0})) (log : List Call) {e : Error} {after : List Call}
      → discarding dest m k log ≡ (err e, after)
      → (mid : List Call) × (after ≡ mid ++ remove_all dest ∷ [])
  discarding-Fails m log {e} {after} h = go (m k log) h
    where
      go :
          (r : Outcome Error (Unit {0}) × List Call)
          → continue (ok r.0, r.1) (or_discard dest) k ≡ (err e, after)
          → (mid : List Call) × (after ≡ mid ++ remove_all dest ∷ [])
      go (ok x, mid) f = absurd (cc f)
      go (err x, mid) f = (mid, cc (discarded {A = Unit {0}} x mid, f))

pure-Returns :
    (k : Kernel) (layer : Str) (log : List Call) {made : Str} {after : List Call}
    → Returns (pure layer) k log made after
    → (made ≡ layer) × (log ≡ after)
pure-Returns k layer log h = (cc, cc)

-- The search for the upper directory records nothing.
found-log :
    (k : Kernel) (o : Outcome Errno Bool) (log : List Call) {after : List Call}
    → Returns (writable o) k log tt after
    → after ≡ log
found-log k (ok x) log h = cc
found-log k (err x) log h = absurd (cc h)

module _ (source : Source) (k : Kernel) (root id name : Str) (base : List Str) (layer : Str) where
  -- What a commit that succeeds has done behind the search.
  abbrev pub Committed : List Call → Str → List Call → Type 0
  Committed log made after =
      (copied : List Call) × (k.act log (mkdir_all (layer_path root layer)) ≡ none)
      × Returns (copy_tree source (upper_path root id) (layer_path root layer)) k
          (log ++ mkdir_all (layer_path root layer) ∷ []) tt copied
      × Returns (put_image root name (base ++ layer ∷ [])) k copied tt after
      × (made ≡ layer)

  record_layer-Committed :
      (log : List Call) {made : Str} {after : List Call}
      → Returns (record_layer source root id name base layer) k log made after
      → Committed log made after
  unfolding record_layer
  record_layer-Committed log {made} {after} h =
      let dest = layer_path root layer in
      let tree = copy_tree source (upper_path root id) dest in
      let copy = context "snapshot writable layer" tree in
      let put = put_image root name (base ++ layer ∷ []) in
      let last = discarding dest put >> pure layer in
      let made_log = log ++ mkdir_all dest ∷ [] in
      let (a, h₂) =
        invoked k "create layer" (mkdir_all dest) (discarding dest copy >> last) log h in
      let (copied, c, h₃) = >>-Returns k (discarding dest copy) last made_log h₂ in
      let (end, r, h₄) = >>-Returns k (discarding dest put) (pure layer) copied h₃ in
      let (same, stop) = pure-Returns k layer end h₄ in
      (
        copied,
        a,
        context-Returns "snapshot writable layer" tree k made_log
            (discarding-Returns k dest copy made_log c),
        rw stop at (discarding-Returns k dest put copied r),
        same,
      )

  commit-Committed :
      (log : List Call) {made : Str} {after : List Call}
      → Returns (commit source root id name base layer) k log made after
      → Committed log made after
  unfolding commit
  commit-Committed log {made} {after} h =
      let looking = stat_file (upper_path root id) >>= writable in
      let (mid, p, h₁) = >>-Returns k looking (record_layer source root id name base layer) log h in
      let same : mid ≡ log = found-log k (k.stat log (upper_path root id)) log p in
      record_layer-Committed log (rw same at h₁)

  -- If Commit succeeds, the layer's directory was made, copyTree and then PutImage returned without an error,
  -- and Commit returned the layer's id; and where a file that was written holds what was written, the image then has the layers of the base
  -- image, in order, and the new one on top, if each of them is a layer id.
  pub commit-image_layers :
      (persists : (log : List Call) (path text : Str)
        → k.act log (write_file path text) ≡ none
        → k.read (log ++ write_file path text ∷ []) path ≡ ok text)
      (log : List Call) {made : Str} {after : List Call}
      → All IsLayer (base ++ layer ∷ [])
      → Returns (commit source root id name base layer) k log made after
      → Committed log made after
        × Returns (image_layers root name) k after (base ++ made ∷ []) after
  commit-image_layers persists log {made} {after} ids h =
      let done = commit-Committed log h in
      let (copied, _, _, put, same) = done in
      let read =
        put_image-image_layers k persists root name (base ++ layer ∷ []) copied after ids put in
      (done, rw same read)

  recording :
      (log : List Call) {e : Error} {after : List Call}
      → record_layer source root id name base layer k log ≡ (err e, after)
      → ((after ≡ log ++ mkdir_all (layer_path root layer) ∷ [])
          × ((x : Errno) × (k.act log (mkdir_all (layer_path root layer)) ≡ some x)))
        ⊎ ((mid : List Call) × (after ≡ mid ++ remove_all (layer_path root layer) ∷ []))
  unfolding record_layer
  recording log {e} {after} h =
      let dest = layer_path root layer in
      let copy = context "snapshot writable layer" (copy_tree source (upper_path root id) dest) in
      let put = put_image root name (base ++ layer ∷ []) in
      elim (bind-Fails k (context "create layer" (invoke (mkdir_all dest))) _ log h) [
        | inl q ↦ inl (call-Fails k "create layer" (mkdir_all dest) log q)
        | inr q ↦ elim (bind-Fails k (discarding dest copy) _ _ q.3) [
          | inl f ↦ inr (discarding-Fails k dest copy _ f)
          | inr f ↦ elim (bind-Fails k (discarding dest put) _ _ f.3) [
            | inl g ↦ inr (discarding-Fails k dest put _ g)
            | inr g ↦ absurd (cc g.3)
          ]
        ]
      ]

  -- If Commit fails, it has made no call at all, or only the one that was to make the directory, which
  -- was refused, or the last thing that it did was to call for the removal of the directory.
  pub commit-discards :
      (log : List Call) {e : Error} {after : List Call}
      → commit source root id name base layer k log ≡ (err e, after)
      → (after ≡ log)
        ⊎ (((after ≡ log ++ mkdir_all (layer_path root layer) ∷ [])
              × ((x : Errno) × (k.act log (mkdir_all (layer_path root layer)) ≡ some x)))
            ⊎ ((mid : List Call) × (after ≡ mid ++ remove_all (layer_path root layer) ∷ [])))
  unfolding commit
  commit-discards log {e} {after} h =
      let looking = stat_file (upper_path root id) >>= writable in
      elim (bind-Fails k looking _ log h) [
        | inl q ↦ inl (lost (k.stat log (upper_path root id)) q)
        | inr q ↦
            let (_, mid, p, rest) = q in
            let same : mid ≡ log = found-log k (k.stat log (upper_path root id)) log p in
            inr (recording log (rw same at rest))
      ]
    where
      lost : (o : Outcome Errno Bool) → writable o k log ≡ (err e, after) → after ≡ log
      lost (ok x) q = absurd (cc q)
      lost (err x) q = cc
