-- ===== src/Cgroups/Limits.antt =====
-- The limits that Apply sets, as a table: which control file gets which text, in order.
use husk.Base.{
  ◌⊎◌, Bool, true, false, not, ◌≡◌, ◌∙◌, sym, refl, Option, none, some, List, [], ◌∷◌, ◌++◌, String,
  append_assoc, arith,
}
use husk.Base.Bytes.{Str, codes, str_eq}
use husk.Base.Int.{ℤ, negsuc, pos, is_positive, format_int}
use husk.Base.Outcome.{Outcome, ok, err}
use husk.Base.Action.{Error, enoent, pure, try, ◌>>=◌, ◌>>◌, continue, when}
use husk.Container.{Resources}
use husk.Kernel.{Kernel, Call, Sys, open_write, write_string, is_not_exist}
use husk.Kernel.Runs.{Returns, >>-Returns}
use husk.Cgroups.{
  Manager, CpuQuota, write, write_file, write_limit, unless_missing, apply_swap, apply, limit_text,
}

-- A row: whether a missing file is tolerated, the file, and the text.
record Row : Type 0 where
  optional : Bool
  file : Str
  text : Str

abbrev strict : String → Str → Row
strict file text = record { optional = false; file = codes file; text = text }

abbrev only_if : Bool → Row → List Row
only_if true row = row ∷ []
only_if false row = []

abbrev swap_row : ℤ → Row
swap_row v = record { optional = true; file = codes "memory.swap.max"; text = limit_text v }

abbrev swap_rows : Option ℤ → Bool → List Row
swap_rows (some v) limited = swap_row v ∷ []
swap_rows none limited = only_if limited (swap_row (pos 0))

-- The rows for a container's resources.
unfoldable rows : {F : Type 0} → CpuQuota F → Resources F → List Row
rows cpu r =
    only_if (is_positive r.memory_max) (strict "memory.max" (format_int r.memory_max))
    ++ (swap_rows r.memory_swap_max (is_positive r.memory_max)
        ++ (only_if (is_positive r.memory_high) (strict "memory.high" (format_int r.memory_high))
            ++ (only_if (cpu.is_set r.cpu_max)
                  (strict "cpu.max" (format_int (cpu.micros r.cpu_max) ++ codes " 100000"))
                ++ (only_if (is_positive r.pids_max) (strict "pids.max" (format_int r.pids_max))
                    ++ (only_if (not (str_eq r.io_max [])) (strict "io.max" r.io_max)
                        ++ only_if (not (str_eq r.cpu_set [])) (strict "cpuset.cpus" r.cpu_set))))))

abbrev put_row : Manager → Bool → Str → Str → Sys (Unit {0})
put_row m true file text = try (write m file text) >>= unless_missing
put_row m false file text = write m file text

-- Write the rows in order, up to the first error.
unfoldable write_rows : Manager → List Row → Sys (Unit {0})
write_rows m [] = pure tt
write_rows m (row ∷ rest) = put_row m row.optional row.file row.text >> write_rows m rest

module _ (k : Kernel) where
  >>-cong :
      (a b : Sys (Unit {0})) (m : Sys (Unit {0})) (log : List Call)
      → ((mid : List Call) → a k mid ≡ b k mid)
      → (m >> a) k log ≡ (m >> b) k log
  >>-cong a b m log h = go (m k log)
    where
      go :
          (p : Outcome Error (Unit {0}) × List Call)
          → continue p (λ (x : Unit {0}). a) k ≡ continue p (λ (x : Unit {0}). b) k
      go (ok x, mid) = h mid
      go (err e, mid) = refl

  >>-pure : (m : Sys (Unit {0})) (log : List Call) → m k log ≡ (m >> pure tt) k log
  >>-pure m log = go (m k log)
    where
      go : (p : Outcome Error (Unit {0}) × List Call) → p ≡ continue p (λ (x : Unit {0}). pure tt) k
      go (ok x, mid) = refl
      go (err e, mid) = refl

  module _ (m : Manager) where
    step :
        (b : Bool) (file : String) (text : Str) (n : Sys (Unit {0})) (rest : List Row)
        (log : List Call)
        → ((mid : List Call) → n k mid ≡ write_rows m rest k mid)
        → (when b (write m (codes file) text) >> n) k log
          ≡ write_rows m (only_if b (strict file text) ++ rest) k log
    unfolding write_rows
    step true file text n rest log h = >>-cong _ _ (write m (codes file) text) log h
    step false file text n rest log h = h log

    step_swap :
        (o : Option ℤ) (b : Bool) (n : Sys (Unit {0})) (rest : List Row) (log : List Call)
        → ((mid : List Call) → n k mid ≡ write_rows m rest k mid)
        → (apply_swap m o b >> n) k log ≡ write_rows m (swap_rows o b ++ rest) k log
    unfolding write_rows write_limit
    step_swap (some v) b n rest log h =
        >>-cong _ _ (write_limit m (codes "memory.swap.max") v) log h
    step_swap none true n rest log h =
        >>-cong _ _ (write_limit m (codes "memory.swap.max") (pos 0)) log h
    step_swap none false n rest log h = h log

    last :
        (b : Bool) (file : String) (text : Str) (log : List Call)
        → when b (write m (codes file) text) k log
          ≡ write_rows m (only_if b (strict file text)) k log
    unfolding write_rows
    last true file text log = >>-pure (write m (codes file) text) log
    last false file text log = refl

    -- Apply is the writing of the table: the same calls in the same order, and the same result.
    apply-rows :
        {F : Type 0} (cpu : CpuQuota F) (r : Resources F) (log : List Call)
        → apply cpu m r k log ≡ write_rows m (rows cpu r) k log
    unfolding apply rows
    apply-rows cpu r log = step (is_positive r.memory_max) "memory.max" _ _ _ log (λ l1.
        step_swap r.memory_swap_max _ _ _ l1 (λ l2.
          step (is_positive r.memory_high) "memory.high" _ _ _ l2 (λ l3.
            step (cpu.is_set r.cpu_max) "cpu.max" _ _ _ l3 (λ l4.
              step (is_positive r.pids_max) "pids.max" _ _ _ l4 (λ l5.
                step (not (str_eq r.io_max [])) "io.max" _ _ _ l5
                  (λ l6. last (not (str_eq r.cpu_set [])) "cpuset.cpus" _ l6))))))

-- What is written to memory.swap.max: the value given, "max" for a negative one, and 0 for none.
abbrev pub swap_text : Option ℤ → Str
swap_text none = codes "0"
swap_text (some (pos n)) = format_int (pos n)
swap_text (some (negsuc n)) = codes "max"

abbrev pub given_or_zero : Option ℤ → ℤ
given_or_zero (some v) = v
given_or_zero none = pos 0

swap_text-written : (o : Option ℤ) → limit_text (given_or_zero o) ≡ swap_text o
unfolding limit_text format_int
swap_text-written none = refl
swap_text-written (some (pos n)) = refl
swap_text-written (some (negsuc n)) = refl

module _ (k : Kernel) (m : Manager) where
  write-Returns :
      (file text : Str) (log : List Call) {after : List Call}
      → Returns (write m file text) k log tt after
      → (after
          ≡ log ++ open_write (m.join m.path file) ∷ write_string (m.join m.path file) text ∷ [])
        × (k.act log (open_write (m.join m.path file)) ≡ none)
        × (k.act
              (log ++ open_write (m.join m.path file) ∷ [])
              (write_string (m.join m.path file) text)
            ≡ none)
  unfolding write write_file
  write-Returns file text log h =
      let path = m.join m.path file in
      ground (arith, append_assoc log (open_write path ∷ []) (write_string path text ∷ []))

  optional-Returns :
      (file text : Str) (log : List Call) {after : List Call}
      → Returns (put_row m true file text) k log tt after
      → (k.act log (open_write (m.join m.path file)) ≡ some enoent)
        ⊎ ((k.act log (open_write (m.join m.path file)) ≡ none)
            × (k.act
                  (log ++ open_write (m.join m.path file) ∷ [])
                  (write_string (m.join m.path file) text)
                ≡ none))
  unfolding write write_file is_not_exist
  optional-Returns file text log h = ground arith

module _ (k : Kernel) (m : Manager) {F : Type 0} (cpu : CpuQuota F) (r : Resources F) where
  abbrev wall : Str
  wall = m.join m.path (codes "memory.max")

  abbrev swap : Str
  swap = m.join m.path (codes "memory.swap.max")

  abbrev pub hard_limit : List Call
  hard_limit = open_write wall ∷ write_string wall (format_int r.memory_max) ∷ []

  rows-limited :
      is_positive r.memory_max ≡ true
      → (rest : List Row) × (rows cpu r
          ≡ strict "memory.max" (format_int r.memory_max)
            ∷ swap_row (given_or_zero r.memory_swap_max)
            ∷ rest)
  unfolding rows
  rows-limited h = rw h (go r.memory_swap_max _)
    where
      go :
          (o : Option ℤ) (rest : List Row)
          → (out : List Row) × (strict "memory.max" (format_int r.memory_max)
                ∷ (swap_rows o true ++ rest)
              ≡ strict "memory.max" (format_int r.memory_max) ∷ swap_row (given_or_zero o) ∷ out)
      go none rest = (rest, refl)
      go (some v) rest = (rest, refl)

  -- When Apply succeeds for a container with a memory limit, the kernel accepted that limit for
  -- memory.max, and right after it one text was accepted for memory.swap.max: 0 if no swap value was
  -- given, the value if it is not negative, and "max", which bounds nothing, if it is; only a missing
  -- memory.swap.max file is let pass.
  pub apply-swap_bounded :
      (log : List Call) {after : List Call}
      → is_positive r.memory_max ≡ true
      → Returns (apply cpu m r) k log tt after
      → (k.act (log ++ open_write wall ∷ []) (write_string wall (format_int r.memory_max)) ≡ none)
        × ((k.act (log ++ hard_limit) (open_write swap) ≡ some enoent)
            ⊎ ((k.act (log ++ hard_limit) (open_write swap) ≡ none)
                × (k.act
                      ((log ++ hard_limit) ++ open_write swap ∷ [])
                      (write_string swap (swap_text r.memory_swap_max))
                    ≡ none)))
  unfolding write_rows
  apply-swap_bounded log {after} h e =
      let (rest, table) = rows-limited h in
      let run : Returns (write_rows m (rows cpu r)) k log tt after =
        sym (apply-rows k m cpu r log) ∙ e in
      rw (sym (swap_text-written r.memory_swap_max)) (read_off rest (rw table at run))
    where
      read_off :
          (rest : List Row)
          → Returns
              (write_rows m (
                strict "memory.max" (format_int r.memory_max)
                ∷ swap_row (given_or_zero r.memory_swap_max)
                ∷ rest))
              k
              log
              tt
              after
          → (k.act (log ++ open_write wall ∷ []) (write_string wall (format_int r.memory_max))
              ≡ none)
            × ((k.act (log ++ hard_limit) (open_write swap) ≡ some enoent)
                ⊎ ((k.act (log ++ hard_limit) (open_write swap) ≡ none)
                    × (k.act
                          ((log ++ hard_limit) ++ open_write swap ∷ [])
                          (write_string swap (limit_text (given_or_zero r.memory_swap_max)))
                        ≡ none)))
      read_off rest run =
          let max_text = format_int r.memory_max in
          let swap_text = limit_text (given_or_zero r.memory_swap_max) in
          let next = swap_row (given_or_zero r.memory_swap_max) ∷ rest in
          let (mid, p, q) =
            >>-Returns k (put_row m false (codes "memory.max") max_text) (write_rows m next) log
              run in
          let (at, _, wrote) = write-Returns k m (codes "memory.max") max_text log p in
          let (_, p2, _) =
            >>-Returns k (put_row m true (codes "memory.swap.max") swap_text) (write_rows m rest)
              mid q in
          (
            wrote,
            optional-Returns k m (codes "memory.swap.max") swap_text (log ++ hard_limit)
                (rw at at p2),
          )
