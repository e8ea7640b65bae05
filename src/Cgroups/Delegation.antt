-- ===== src/Cgroups/Delegation.antt =====
-- The delegation of controllers, and the killing of a whole cgroup.
use husk.Base.{
  Bool, true, false, ◌&&◌, ◌≡◌, ◌∙◌, sym, refl, none, some, List, [], ◌∷◌, ◌++◌, String, map,
  append_assoc, append-nil, arith, if◌then◌else◌,
}
use husk.Base.Bytes.{Str, codes, has_str, fields}
use husk.Base.Int.{ℤ}
use husk.Base.Outcome.{Outcome, ok, err}
use husk.Base.Action.{Errno, enoent, context, relabel, continue, ◌>>=◌}
use husk.Kernel.{Kernel, Call, Sys, open_write, write_string, kill, is_not_exist}
use husk.Kernel.Runs.{Returns, >>-Returns, >>=-Returns, context-Returns}
use husk.Cgroups.{
  Manager, required_controllers, write_file, in_fields, read_list, enable_one, enable_each,
  all_delegated, enable_controllers, processes, pids_of, kill_each, kill_iteratively, kill_all,
}

-- The controllers that are not available.
abbrev pub lacking : List Str → List Str → List Str
lacking available [] = []
lacking available (c ∷ cs) =
    if has_str available c then lacking available cs else c ∷ lacking available cs

-- The calls that enable the available ones that are not enabled yet.
abbrev pub grants : Str → List Str → List Str → List Str → List Call
grants control available enabled [] = []
grants control available enabled (c ∷ cs) =
    if has_str available c && (if has_str enabled c then false else true)
    then open_write control ∷ write_string control (b'+' ∷ c) ∷ grants control available enabled cs
    else grants control available enabled cs

module _ (k : Kernel) where
  write_file-Returns :
      (path text : Str) (log : List Call) {after : List Call}
      → Returns (write_file path text) k log tt after
      → after ≡ log ++ open_write path ∷ write_string path text ∷ []
  unfolding write_file
  write_file-Returns path text log h =
      ground (arith, append_assoc log (open_write path ∷ []) (write_string path text ∷ []))

  module _ (control : Str) (available enabled : List Str) where
    enable_each-Returns :
        (cs missing : List Str) (log : List Call) {out : List Str} {after : List Call}
        → Returns (enable_each control available enabled cs missing) k log out after
        → (out ≡ missing ++ lacking available cs)
          × (after ≡ log ++ grants control available enabled cs)
    unfolding enable_each
    enable_each-Returns [] missing log h =
        (ground (arith, append-nil missing), ground (arith, append-nil log))
    enable_each-Returns (c ∷ cs) missing log {out} {after} h =
        go (has_str available c) (has_str enabled c) (λ ms l r. enable_each-Returns cs ms l r) h
      where
        granted : List Call
        granted = open_write control ∷ write_string control (b'+' ∷ c) ∷ []

        go :
            (a e : Bool)
            → ((ms : List Str) (l : List Call)
                → Returns (enable_each control available enabled cs ms) k l out after
                → (out ≡ ms ++ lacking available cs)
                  × (after ≡ l ++ grants control available enabled cs))
            → Returns
                (enable_one a e control c (enable_each control available enabled cs) missing)
                k
                log
                out
                after
            → (out ≡ missing ++ (if a then lacking available cs else c ∷ lacking available cs))
              × (after
                  ≡ log
                    ++ (if a && (if e then false else true)
                        then open_write control
                          ∷ write_string control (b'+' ∷ c)
                          ∷ grants control available enabled cs
                        else grants control available enabled cs))
        go false e ih r =
            let (o, a) = ih (missing ++ c ∷ []) log r in
            (o ∙ append_assoc missing (c ∷ []) (lacking available cs), a)
        go true true ih r = ih missing log r
        go true false ih r =
            let (mid, p, q) =
              >>-Returns k (context "enable controller" (write_file control (b'+' ∷ c)))
                (enable_each control available enabled cs missing) log r in
            let at =
              write_file-Returns control (b'+' ∷ c) log
                (context-Returns "enable controller" (write_file control (b'+' ∷ c)) k log p) in
            let (o, a) = ih missing mid q in
            (o, a ∙ rw at (append_assoc log granted (grants control available enabled cs)))

  listed :
      {B : Type 0} (label : String) (path : Str) (f : List Str → Sys B) (log : List Call) {b : B}
      {after : List Call}
      → Returns (context label (read_list path) >>= f) k log b after
      → (text : Str) × (k.read log path ≡ ok text) × Returns (f (fields text)) k log b after
  unfolding read_list
  listed label path f log {b} {after} h = go (k.read log path) h
    where
      go :
          (r : Outcome Errno Str)
          → continue (relabel label (in_fields r k log)) f k ≡ (ok b, after)
          → (text : Str) × (r ≡ ok text) × Returns (f (fields text)) k log b after
      go (ok text) r = (text, refl, r)
      go (err e) r = absurd (cc r)

  all_delegated-Returns :
      (missing : List Str) (log : List Call) {after : List Call}
      → Returns (all_delegated missing) k log tt after
      → (missing ≡ []) × (after ≡ log)
  all_delegated-Returns [] log h = (refl, ground arith)
  all_delegated-Returns (c ∷ cs) log h = absurd (cc h)

  -- If enableControllers succeeds at `dir`, cgroup.controllers listed every controller that husk
  -- requires, and what was written is exactly "+name" for those that cgroup.subtree_control did not
  -- list yet.
  pub enable_controllers-delegated :
      (m : Manager) (dir : Str) (log : List Call) {after : List Call}
      → Returns (enable_controllers m dir) k log tt after
      → (have : Str) × (on : Str) × (k.read log (m.join dir (codes "cgroup.controllers")) ≡ ok have)
        × (k.read log (m.join dir (codes "cgroup.subtree_control")) ≡ ok on)
        × (lacking (fields have) required_controllers ≡ [])
        × (after
            ≡ log
              ++ grants
                  (m.join dir (codes "cgroup.subtree_control"))
                  (fields have)
                  (fields on)
                  required_controllers)
  unfolding enable_controllers
  enable_controllers-delegated m dir log h =
      let control = m.join dir (codes "cgroup.subtree_control") in
      let (have, r1, q1) =
        listed "read cgroup.controllers" (m.join dir (codes "cgroup.controllers")) _ log h in
      let (on, r2, q2) = listed "read cgroup.subtree_control" control _ log q1 in
      let (missing, l3, p3, q3) =
        >>=-Returns all_delegated k
          (enable_each control (fields have) (fields on) required_controllers []) log q2 in
      let (out, at3) =
        enable_each-Returns control (fields have) (fields on) required_controllers [] log p3 in
      let (none_missing, at4) = all_delegated-Returns missing l3 q3 in
      (have, on, r1, r2, sym out ∙ none_missing, at4 ∙ at3)

module _ (k : Kernel) (m : Manager) where
  abbrev kill_file : Str
  kill_file = m.join m.path (codes "cgroup.kill")

  kill_each-all :
      (pids : List ℤ) (log : List Call)
      → kill_each pids k log ≡ (ok tt, log ++ map (λ pid. kill pid 9) pids)
  unfolding kill_each
  kill_each-all [] log = ground (arith, append-nil log)
  kill_each-all (pid ∷ pids) log = ground (
    arith,
    kill_each-all pids (log ++ kill pid 9 ∷ []),
    append_assoc log (kill pid 9 ∷ []) (map (λ p. kill p 9) pids),
  )

  -- Where cgroup.kill can be written, KillAll signals no process by its number.
  pub kill_all-atomic :
      (log : List Call)
      → k.act log (open_write kill_file) ≡ none
      → k.act (log ++ open_write kill_file ∷ []) (write_string kill_file (codes "1")) ≡ none
      → kill_all m k log
        ≡ (ok tt, log ++ open_write kill_file ∷ write_string kill_file (codes "1") ∷ [])
  unfolding kill_all write_file
  kill_all-atomic log opened wrote =
      rw (opened, wrote)
        (ground (
          arith,
          append_assoc log (open_write kill_file ∷ []) (write_string kill_file (codes "1") ∷ []),
        ))

  -- On a kernel without cgroup.kill, KillAll sends SIGKILL to every process that cgroup.procs lists,
  -- whatever becomes of the signals to the others, and succeeds.
  pub kill_all-fallback :
      (log : List Call) (text : Str)
      → k.act log (open_write kill_file) ≡ some enoent
      → k.read (log ++ open_write kill_file ∷ []) (m.join m.path (codes "cgroup.procs")) ≡ ok text
      → kill_all m k log ≡ (
        ok tt,
        (log ++ open_write kill_file ∷ []) ++ map (λ pid. kill pid 9) (pids_of (fields text)),
      )
  unfolding kill_all write_file kill_iteratively processes is_not_exist
  kill_all-fallback log text missing listing =
      rw (missing, listing)
        (kill_each-all (pids_of (fields text)) (log ++ open_write kill_file ∷ []))
