-- ===== src/Network/Netfilter/Counted.antt =====
-- How often each rule is in force, as iptables(8) tells it.
use husk.Base.{
  ℕ, ◌-◌, suc, ltb, ◌≡◌, Bool, true, false, ◌&&◌, Option, none, some, List, [], ◌∷◌, ◌++◌,
  if◌then◌else◌,
}
use husk.Base.Bytes.{Str}
use husk.Base.Action.{Errno}
use husk.Kernel.{
  Kernel, Call, Rule, op_check, op_append, op_insert, op_delete, iptables, new_chain, write_file,
}

abbrev pub succeeded : Option Errno → Bool
succeeded none = true
succeeded (some _) = false

-- What iptables(8) says of its commands, on a kernel: `count` is how often a rule is in force, and
-- `same` whether two texts give the same rule. -C looks for a rule and -A and -I add it, where
-- they succeed, and -D takes one away, where it succeeds and there is one, and nothing else that husk does here touches the rules.
pub record Netfilter (k : Kernel) : Type 0 where
  pub same : Rule → Rule → Bool
  pub same_self : (r : Rule) → same r r ≡ true
  pub count : List Call → Rule → ℕ
  pub count_same : (log : List Call) (r q : Rule) → same r q ≡ true → count log r ≡ count log q
  pub check_finds :
      (log : List Call) (r : Rule)
      → succeeded (k.act log (iptables op_check r)) ≡ ltb 0 (count log r)
  pub check_keeps :
      (log : List Call) (r q : Rule) → count (log ++ iptables op_check r ∷ []) q ≡ count log q
  pub append_adds :
      (log : List Call) (r q : Rule)
      → count (log ++ iptables op_append r ∷ []) q ≡ (
          if succeeded (k.act log (iptables op_append r)) && same r q
          then suc (count log q)
          else count log q)
  pub insert_adds :
      (log : List Call) (r q : Rule)
      → count (log ++ iptables op_insert r ∷ []) q ≡ (
          if succeeded (k.act log (iptables op_insert r)) && same r q
          then suc (count log q)
          else count log q)
  pub delete_takes :
      (log : List Call) (r q : Rule)
      → count (log ++ iptables op_delete r ∷ []) q ≡ (
          if succeeded (k.act log (iptables op_delete r)) && same r q
          then count log q - 1
          else count log q)
  pub chain_keeps :
      (log : List Call) (table name : Str) (q : Rule)
      → count (log ++ new_chain table name ∷ []) q ≡ count log q
  pub file_keeps :
      (log : List Call) (path text : Str) (q : Rule)
      → count (log ++ write_file path text ∷ []) q ≡ count log q

-- At least one.
abbrev pub once : ℕ → ℕ
once n = if ltb 0 n then n else 1
