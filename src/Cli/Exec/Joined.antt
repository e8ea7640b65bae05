-- ===== src/Cli/Exec/Joined.antt =====
-- Which namespaces exec joins, and when it starts its process.
use husk.Base.{
  Bool, true, false, ◌≡◌, ◌∙◌, refl, sym, ap, List, [], ◌∷◌, ◌++◌, append-nil, map, append_assoc,
  arith, if◌then◌else◌,
}
use husk.Base.Bytes.{Str, codes, has_str}
use husk.Base.Int.{ℤ, format_int}
use husk.Base.Outcome.{Outcome, ok, err}
use husk.Base.Action.{Error, message, pure, fail, context, each, continue, ◌>>=◌, ◌>>◌}
use husk.Kernel.{
  Kernel, Call, Sys, close, open_write, write_string, unshare_fs, setns, start_process, invoke,
}
use husk.Kernel.Runs.{Returns, >>-Returns, >>=-Returns, invoked}
use husk.Kernel.Chain.{Chain, Accepted, done, next}
use husk.Runtime.{Status, running}
use husk.Cli.Exec.{
  order, Ending, returned, exits, World, Request, open_each, ignore_close, join_one, place, waited,
  enter, enter_cgroup, close_each, go_on, is_running, exec_command, environment, directory_of,
  deferred, unless_exited,
}
use husk.Cli.Exec.Looked.{Looked, ns_file, ignore_close-runs, ignore_close-alone, open_each-Found}

module _ (w : World) (pid : ℤ) (k : Kernel) where
  -- The calls that join the namespaces in `fds`, in the order of the list.
  abbrev pub joins : List Str → List Str → List Call
  joins fds [] = []
  joins fds (ns ∷ rest) =
      let more = joins fds rest in if has_str fds ns then setns (ns_file pid ns) ∷ more else more

  each-joins :
      (fds xs : List Str) (log : List Call) {after : List Call}
      → Returns (each (join_one w pid fds) xs) k log tt after
      → Chain (Accepted k) (joins fds xs) log after
  unfolding join_one
  each-joins fds [] log {after} h = let e : after ≡ log = cc in rw e done
  each-joins fds (ns ∷ rest) log {after} h =
      go (has_str fds ns) h (λ mid r. each-joins fds rest mid r)
    where
      go :
          (b : Bool)
          → Returns
              ((if b then context "setns" (invoke (setns (ns_file pid ns))) else pure tt)
                >> each (join_one w pid fds) rest)
              k
              log
              tt
              after
          → ((mid : List Call)
              → Returns (each (join_one w pid fds) rest) k mid tt after
              → Chain (Accepted k) (joins fds rest) mid after)
          → Chain
              (Accepted k)
              (if b then setns (ns_file pid ns) ∷ joins fds rest else joins fds rest)
              log
              after
      go true r ih =
          let c = setns (ns_file pid ns) in
          let (yes', rest_r) = invoked k "setns" c (each (join_one w pid fds) rest) log r in
          next (refl, yes') (ih (log ++ c ∷ []) rest_r)
      go false r ih = ih log r

  Chain-append :
      {xs ys : List Call} {l m n : List Call}
      → Chain (Accepted k) xs l m
      → Chain (Accepted k) ys m n
      → Chain (Accepted k) (xs ++ ys) l n
  Chain-append done d = d
  Chain-append (next r c) d = next r (Chain-append c d)

  -- What a deferred function records behind a function that ended so.
  abbrev pub closing : Ending → List Call → List Call
  closing returned calls = calls
  closing (exits v) calls = []

  closing-append :
      (end : Ending) (xs ys : List Call) → closing end (xs ++ ys) ≡ closing end xs ++ closing end ys
  closing-append returned xs ys = refl
  closing-append (exits v) xs ys = refl

  deferred-Returns :
      (cleanup : Sys (Unit {0})) (m : Sys Ending) (calls : List Call) (log : List Call)
      {end : Ending} {after : List Call}
      → ((mid : List Call) → cleanup k mid ≡ (ok tt, mid ++ calls))
      → Returns (deferred cleanup m) k log end after
      → (mid : List Call) × Returns m k log end mid × (after ≡ mid ++ closing end calls)
  deferred-Returns cleanup m calls log {end} {after} runs h = go (m k log) h
    where
      cleaned : (mid : List Call) → (cleanup >> pure returned) k mid ≡ (ok returned, mid ++ calls)
      cleaned mid = rw (runs mid) refl

      cleaned_err :
          (x : Error) (mid : List Call)
          → unless_exited cleanup (err x) k mid ≡ (err x, mid ++ calls)
      cleaned_err x mid = rw (runs mid) refl

      go :
          (p : Outcome Error Ending × List Call)
          → continue (ok p.0, p.1) (unless_exited cleanup) k ≡ (ok end, after)
          → (mid : List Call) × (p ≡ (ok end, mid)) × (after ≡ mid ++ closing end calls)
      go (ok returned, mid) e =
          let f : ◌≡◌ {A = Outcome Error Ending × List Call} (ok returned, mid ++ calls)
              (ok end, after) =
            sym (cleaned mid) ∙ e in
          let s : end ≡ returned = cc in (mid, cc, rw s cc)
      go (ok (exits v), mid) e = let s : end ≡ exits v = cc in (mid, cc, rw s (cc (append-nil mid)))
      go (err x, mid) e = absurd (cc (cleaned_err x mid, e))

  -- The calls behind the loop that opens the namespace files, up to the start of the process.
  abbrev pub entering : Request → List Str → List Call
  entering r held =
      open_write w.procs
      ∷ unshare_fs
      ∷ (joins held order ++ start_process r.args (environment r) (directory_of r.workdir) ∷ [])

  close_each-runs :
      (held : List Str) (log : List Call)
      → close_each w pid held k log ≡ (ok tt, log ++ map (λ ns. close (ns_file pid ns)) held)
  close_each-runs [] log = ground (arith, append-nil log)
  close_each-runs (ns ∷ held) log =
      let path = ns_file pid ns in
      ignore_close-runs w pid k path (close_each w pid held) log
      ∙ close_each-runs held (log ++ close path ∷ [])
      ∙ ap (λ l. (ok tt, l)) (append_assoc log (close path ∷ []) _)

  -- Whatever becomes of the write, the wait follows it.
  placed :
      (log : List Call) {end : Ending} {after : List Call}
      → Returns (place w pid >> waited w pid) k log end after
      → after ≡ log ++ write_string w.procs (format_int (w.child log)) ∷ []
  unfolding place
  placed log h = ground arith

  enter-Returns :
      (r : Request) (held : List Str) (log : List Call) {end : Ending} {after : List Call}
      → Returns (enter w pid r held) k log end after
      → (started : List Call) × Chain
          (Accepted k)
          (unshare_fs
            ∷ (joins held order
                ++ start_process r.args (environment r) (directory_of r.workdir) ∷ []))
          log
          started
        × (after ≡ started ++ write_string w.procs (format_int (w.child started)) ∷ [])
  unfolding enter place
  enter-Returns r held log {end} {after} h =
      let start = start_process r.args (environment r) (directory_of r.workdir) in
      let tail = place w pid >> waited w pid in
      let (a, h₁) =
        invoked k "unshare CLONE_FS" unshare_fs
          (each (join_one w pid held) order >> (context "exec" (invoke start) >> tail)) log h in
      let (mid, joined, h₂) =
        >>-Returns k (each (join_one w pid held) order) (context "exec" (invoke start) >> tail)
          (log ++ unshare_fs ∷ []) h₁ in
      let (b, h₃) = invoked k "exec" start tail mid h₂ in
      let started = mid ++ start ∷ [] in
      (
        started,
        next (refl, a)
            (Chain-append (each-joins held order (log ++ unshare_fs ∷ []) joined)
              (next (refl, b) done)),
        placed started h₃,
      )

  -- The calls of the deferred functions, the last one deferred first.
  abbrev pub closes : List Str → List Call
  closes held = close w.procs ∷ map (λ ns. close (ns_file pid ns)) (w.range held)

  go_on-Returns :
      (r : Request) (held : List Str) (log : List Call) {end : Ending} {after : List Call}
      → Returns
          (deferred (close_each w pid (w.range held)) (enter_cgroup w pid r held))
          k
          log
          end
          after
      → (started : List Call) × Chain (Accepted k) (entering r held) log started
        × (after
            ≡ (started ++ write_string w.procs (format_int (w.child started)) ∷ [])
              ++ closing end (closes held))
  unfolding enter_cgroup
  go_on-Returns r held log {end} {after} h =
      let files = map (λ ns. close (ns_file pid ns)) (w.range held) in
      let (mid, p, e) =
        deferred-Returns (close_each w pid (w.range held)) (enter_cgroup w pid r held) files log
          (close_each-runs (w.range held)) h in
      let (a, q) =
        invoked k "open container cgroup" (open_write w.procs)
          (deferred (ignore_close w.procs) (enter w pid r held)) log p in
      let (inner, q1, e1) =
        deferred-Returns (ignore_close w.procs) (enter w pid r held) (close w.procs ∷ [])
          (log ++ open_write w.procs ∷ []) (λ m. ignore_close-alone w pid k w.procs m) q in
      let (started, c, e2) = enter-Returns r held (log ++ open_write w.procs ∷ []) q1 in
      (
        started,
        next (refl, a) c,
        e
            ∙ ap (λ l. l ++ closing end files)
                (e1 ∙ ap (λ l. l ++ closing end (close w.procs ∷ [])) e2)
            ∙ append_assoc _ (closing end (close w.procs ∷ [])) (closing end files)
            ∙ ap (λ l. (started ++ write_string w.procs (format_int (w.child started)) ∷ []) ++ l)
                (sym (closing-append end (close w.procs ∷ []) files)),
      )

  is_running-eq : (s : Status) → is_running w pid s ≡ true → s ≡ running
  is_running-eq s h = ground arith

  -- Only a loop that returned no error lets exec end without one.
  settled :
      (r : Request) (held : List Str) (outcome : Outcome Error (Unit {0})) (log : List Call)
      {end : Ending} {after : List Call}
      → Returns (go_on w pid r (held, outcome)) k log end after
      → (outcome ≡ ok tt)
        × (started : List Call) × Chain (Accepted k) (entering r held) log started
        × (after
            ≡ (started ++ write_string w.procs (format_int (w.child started)) ∷ [])
              ++ closing end (closes held))
  settled r held (ok _) log h =
      let (started, c, e) = go_on-Returns r held log h in (refl, started, c, e)
  settled r held (err e) log h =
      let files = map (λ ns. close (ns_file pid ns)) (w.range held) in
      let (_, q, _) =
        deferred-Returns (close_each w pid (w.range held)) (fail e) files log
          (close_each-runs (w.range held)) h in
      absurd (cc q)

  -- The namespaces, in the order in which they are joined, and the calls as above with this order.
  abbrev pub seven : List Str
  seven =
      codes "user"
      ∷ codes "ipc"
      ∷ codes "uts"
      ∷ codes "net"
      ∷ codes "pid"
      ∷ codes "cgroup"
      ∷ codes "mnt"
      ∷ []

  abbrev pub entering_seven : Request → List Str → List Call
  entering_seven r held =
      open_write w.procs
      ∷ unshare_fs
      ∷ (joins held seven ++ start_process r.args (environment r) (directory_of r.workdir) ∷ [])

  -- If exec ends without an error, the container was running, and these things happened in this order and
  -- with success: every namespace file was looked at; cgroup.procs was opened; the thread left the shared
  -- fs_struct; the namespaces that differ from husk's own were joined, in the order user, ipc, uts, net, pid, cgroup,
  -- mnt; and the process was started. Behind that its pid is written, and all descriptors are closed,
  -- unless the process failed and os.Exit ended husk.
  pub exec_command-joins :
      (status : Status) (r : Request) (log : List Call) {end : Ending} {after : List Call}
      → Returns (exec_command w pid status r) k log end after
      → (status ≡ running)
        × (held : List Str) × (looked started : List Call) × Looked w pid k seven held log looked
        × Chain (Accepted k) (entering_seven r held) looked started
        × (after
            ≡ (started ++ write_string w.procs (format_int (w.child started)) ∷ [])
              ++ closing end (closes held))
  unfolding exec_command
  exec_command-joins status r log {end} {after} h = go (is_running w pid status) refl h
    where
      go :
          (b : Bool)
          → is_running w pid status ≡ b
          → Returns
              (if b
                then open_each w pid order [] >>= go_on w pid r
                else fail (message "the container is not running"))
              k
              log
              end
              after
          → (status ≡ running)
            × (held : List Str) × (looked started : List Call) × Looked w pid k order held log
                looked
            × Chain (Accepted k) (entering r held) looked started
            × (after
                ≡ (started ++ write_string w.procs (format_int (w.child started)) ∷ [])
                  ++ closing end (closes held))
      go false e q = absurd (cc q)
      go true e q =
          let (found, looked, p, rest) =
            >>=-Returns (go_on w pid r) k (open_each w pid order []) log q in
          let (good, started, c, f) = settled r found.0 found.1 looked rest in
          let (more, same, l) =
            open_each-Found w pid k order [] found.0 log looked
              (p ∙ ap (λ o. (ok (found.0, o), looked)) good) in
          (is_running-eq status e, found.0, looked, started, rw same l, c, f)
