-- ===== src/Cli/Exec/Looked.antt =====
-- Which namespace files exec keeps open.
use husk.Base.{
  ℕ, Bool, true, false, ◌≡◌, ◌≢◌, ◌⊎◌, ◌∙◌, refl, sym, Option, none, some, List, [], ◌∷◌, ◌++◌,
  append-nil, append_assoc, arith,
}
use husk.Base.Bytes.{Str, codes, str_eq}
use husk.Base.Int.{ℤ, format_int}
use husk.Base.Outcome.{Outcome, ok, err}
use husk.Base.Action.{Errno, enoent, Error, ◌>>◌}
use husk.Kernel.{Kernel, Call, Sys, open_read, close}
use husk.Kernel.Runs.{Returns}
use husk.Cli.Exec.{World, same_namespace, compared, sorted_out, opened, open_each, ignore_close}

-- The file of a namespace of a process.
abbrev pub ns_file : ℤ → Str → Str
ns_file pid ns = codes "/proc/" ++ (format_int pid ++ (codes "/ns/" ++ ns))

module _ (w : World) (pid : ℤ) (k : Kernel) where
  -- Stat gives one device and one inode for the namespace of the process and for husk's own, or not both.
  abbrev pub SameFile : List Call → Str → Type 0
  SameFile log ns =
      (device inode : ℕ) × (w.inode log (ns_file pid ns) ≡ ok (device, inode))
      × (w.inode log (codes "/proc/self/ns/" ++ ns) ≡ ok (device, inode))

  abbrev pub OtherFile : List Call → Str → Type 0
  OtherFile log ns =
      (device inode own_device own_inode : ℕ) × (w.inode log (ns_file pid ns) ≡ ok (device, inode))
      × (w.inode log (codes "/proc/self/ns/" ++ ns) ≡ ok (own_device, own_inode))
      × ((device ≢ own_device) ⊎ (inode ≢ own_inode))

  same_namespace-SameFile :
      (log : List Call) (ns : Str) → same_namespace w pid log ns ≡ ok true → SameFile log ns
  unfolding same_namespace
  same_namespace-SameFile log ns h =
      go (w.inode log (ns_file pid ns)) (w.inode log (codes "/proc/self/ns/" ++ ns)) refl refl h
    where
      go :
          (t s : Outcome Errno (ℕ × ℕ))
          → w.inode log (ns_file pid ns) ≡ t
          → w.inode log (codes "/proc/self/ns/" ++ ns) ≡ s
          → compared t s ≡ ok true
          → SameFile log ns
      go (ok (d, i)) (ok (e, j)) x y q =
          let dev : e ≡ d = ground arith in
          let ino : j ≡ i = ground arith in (d, i, x, rw (dev, ino) at y)
      go (ok (d, i)) (err b) x y q = absurd (cc q)
      go (err a) s x y q = absurd (cc q)

  same_namespace-OtherFile :
      (log : List Call) (ns : Str) → same_namespace w pid log ns ≡ ok false → OtherFile log ns
  unfolding same_namespace
  same_namespace-OtherFile log ns h =
      go (w.inode log (ns_file pid ns)) (w.inode log (codes "/proc/self/ns/" ++ ns)) refl refl h
    where
      go :
          (t s : Outcome Errno (ℕ × ℕ))
          → w.inode log (ns_file pid ns) ≡ t
          → w.inode log (codes "/proc/self/ns/" ++ ns) ≡ s
          → compared t s ≡ ok false
          → OtherFile log ns
      go (ok (d, i)) (ok (e, j)) x y q = (d, i, e, j, x, y, ground arith)
      go (ok (d, i)) (err b) x y q = absurd (cc q)
      go (err a) s x y q = absurd (cc q)

  -- The files of the namespaces in the first list were looked at between two logs, and those of the second
  -- stay open: they can be opened, differ from husk's own, and are none of a user namespace. What does not
  -- exist is passed over, and what husk shares is closed again.
  pub data Looked : List Str → List Str → List Call → List Call → Type 0 where
    finished : {log : List Call} → Looked [] [] log log
    absent :
        {ns : Str} {rest held : List Str} {log after : List Call}
        → k.act log (open_read (ns_file pid ns)) ≡ some enoent
        → Looked rest held (log ++ open_read (ns_file pid ns) ∷ []) after
        → Looked (ns ∷ rest) held log after
    shared :
        {ns : Str} {rest held : List Str} {log after : List Call}
        → k.act log (open_read (ns_file pid ns)) ≡ none
        → SameFile (log ++ open_read (ns_file pid ns) ∷ []) ns
        → Looked rest held
            ((log ++ open_read (ns_file pid ns) ∷ []) ++ close (ns_file pid ns) ∷ [])
            after
        → Looked (ns ∷ rest) held log after
    differs :
        {ns : Str} {rest held : List Str} {log after : List Call}
        → k.act log (open_read (ns_file pid ns)) ≡ none
        → OtherFile (log ++ open_read (ns_file pid ns) ∷ []) ns
        → str_eq ns (codes "user") ≡ false
        → Looked rest held (log ++ open_read (ns_file pid ns) ∷ []) after
        → Looked (ns ∷ rest) (ns ∷ held) log after

  -- What the loop gives behind some rounds.
  abbrev pub Found : List Str → List Str → List Str → List Call → List Call → Type 0
  Found rest fds held log after =
      (more : List Str) × (held ≡ fds ++ more) × Looked rest more log after

  pub ignore_close-runs :
      {A : Type 0} (path : Str) (m : Sys A) (log : List Call)
      → (ignore_close path >> m) k log ≡ m k (log ++ close path ∷ [])
  ignore_close-runs path m log = ground arith

  pub ignore_close-alone :
      (path : Str) (log : List Call) → ignore_close path k log ≡ (ok tt, log ++ close path ∷ [])
  ignore_close-alone path log = ground arith

  -- The rounds behind the first, for any descriptors and log.
  abbrev pub Hypothesis : List Str → Type 0
  Hypothesis rest =
      (fds held : List Str) (log after : List Call)
      → Returns (open_each w pid rest fds) k log (held, ok tt) after
      → Found rest fds held log after

  sorted_out-Found :
      (ns : Str) (rest fds held : List Str) (log after : List Call)
      → Hypothesis rest
      → k.act log (open_read (ns_file pid ns)) ≡ none
      → (o : Outcome Error Bool) (user : Bool)
      → same_namespace w pid (log ++ open_read (ns_file pid ns) ∷ []) ns ≡ o
      → str_eq ns (codes "user") ≡ user
      → Returns
          (sorted_out w pid o user ns fds (open_each w pid rest))
          k
          (log ++ open_read (ns_file pid ns) ∷ [])
          (held, ok tt)
          after
      → Found (ns ∷ rest) fds held log after
  sorted_out-Found ns rest fds held log after ih here (err e) user same who h =
      absurd (cc (ignore_close-runs (ns_file pid ns) _ _, h))
  sorted_out-Found ns rest fds held log after ih here (ok true) user same who h =
      let path = ns_file pid ns in
      let opened_log = log ++ open_read path ∷ [] in
      let (more, e, l) =
        ih fds held (opened_log ++ close path ∷ []) after
          (sym (ignore_close-runs path (open_each w pid rest fds) opened_log) ∙ h) in
      (more, e, shared here (same_namespace-SameFile _ ns same) l)
  sorted_out-Found ns rest fds held log after ih here (ok false) true same who h =
      absurd (cc (ignore_close-runs (ns_file pid ns) _ _, h))
  sorted_out-Found ns rest fds held log after ih here (ok false) false same who h =
      let (more, e, l) =
        ih (fds ++ ns ∷ []) held (log ++ open_read (ns_file pid ns) ∷ []) after h in
      (
        ns ∷ more,
        e ∙ append_assoc fds (ns ∷ []) more,
        differs here (same_namespace-OtherFile _ ns same) who l,
      )

  opened-Found :
      (ns : Str) (rest fds held : List Str) (log after : List Call)
      → Hypothesis rest
      → (answer : Option Errno) → k.act log (open_read (ns_file pid ns)) ≡ answer
      → Returns
          (opened w pid answer ns fds (open_each w pid rest))
          k
          (log ++ open_read (ns_file pid ns) ∷ [])
          (held, ok tt)
          after
      → Found (ns ∷ rest) fds held log after
  unfolding opened
  opened-Found ns rest fds held log after ih none e h =
      sorted_out-Found ns rest fds held log after ih e _ _ refl refl h
  opened-Found ns rest fds held log after ih (some enoent) e h =
      let (more, r, l) = ih fds held (log ++ open_read (ns_file pid ns) ∷ []) after h in
      (more, r, absent e l)
  opened-Found ns rest fds held log after ih (some e) _ h = absurd (cc h)

  pub open_each-Found : (xs : List Str) → Hypothesis xs
  unfolding open_each
  open_each-Found [] fds held log after h =
      let same_log : after ≡ log = cc in
      let same_fds : held ≡ fds = cc in rw same_log ([], same_fds ∙ sym (append-nil fds), finished)
  open_each-Found (ns ∷ rest) fds held log after h =
      opened-Found ns rest fds held log after (open_each-Found rest) _ refl h
