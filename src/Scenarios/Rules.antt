-- ===== src/Scenarios/Rules.antt =====
-- Runs of internal/network/netfilter.go on a kernel that keeps the rules as iptables(8) says.
use husk.Base.{
  ℕ, suc, ◌-◌, ltb, ◌≡◌, refl, ap, Bool, true, false, ◌&&◌, Option, none, some, List, [], ◌∷◌, ◌++◌,
  arith, if◌then◌else◌,
}
use husk.Base.Bytes.{Str, codes, str_eq, str_eq_sound, str_eq_refl}
use husk.Base.Int.{pos, format_int}
use husk.Base.Outcome.{ok}
use husk.Base.Action.{Errno, other, each}
use husk.Container.{PortMapping}
use husk.Kernel.{
  Kernel, Call, Rule, iptables, op_check, op_append, op_insert, op_delete, new_chain, write_file,
}
use husk.Network.Netfilter.{
  published_dnat, Bridge, ensure_rule, publish_port, apply_rules, remove_rules,
}
use husk.Network.Netfilter.Counted.{Netfilter, succeeded}
use husk.Network.Netfilter.Stacking.{NoStack, apply_rules-NoStack}
use husk.Network.Netfilter.Withdrawn.{publish-remove_rules}

abbrev strs_eq : List Str → List Str → Bool
strs_eq [] [] = true
strs_eq [] (_ ∷ _) = false
strs_eq (_ ∷ _) [] = false
strs_eq (s ∷ ss) (t ∷ ts) = str_eq s t && strs_eq ss ts

strs_eq_sound : (ss ts : List Str) → strs_eq ss ts ≡ true → ss ≡ ts
strs_eq_sound [] [] h = refl
strs_eq_sound [] (t ∷ ts) h = cc
strs_eq_sound (s ∷ ss) [] h = cc
strs_eq_sound (s ∷ ss) (t ∷ ts) h = ground (arith, strs_eq_sound ss ts, str_eq_sound s t)

strs_eq_refl : (ss : List Str) → strs_eq ss ss ≡ true
strs_eq_refl [] = refl
strs_eq_refl (s ∷ ss) = ground (arith, strs_eq_refl ss, str_eq_refl s)

abbrev rule_eq : Rule → Rule → Bool
rule_eq r q = str_eq r.table q.table && str_eq r.chain q.chain && strs_eq r.spec q.spec

rule_eq_sound : (r q : Rule) → rule_eq r q ≡ true → r ≡ q
rule_eq_sound r q h =
    let t : r.table ≡ q.table = ground (arith, h, str_eq_sound r.table q.table) in
    let c : r.chain ≡ q.chain = ground (arith, h, str_eq_sound r.chain q.chain) in
    let s : r.spec ≡ q.spec = ground (arith, h, strs_eq_sound r.spec q.spec) in cc

rule_eq_refl : (r : Rule) → rule_eq r r ≡ true
rule_eq_refl r = ground (arith, str_eq_refl r.table, str_eq_refl r.chain, strs_eq_refl r.spec)

-- What a call does to the number of times that `q` is in force.
abbrev effect : Rule → Call → ℕ → ℕ
effect q (iptables op_append r) n = if rule_eq r q then suc n else n
effect q (iptables op_insert r) n = if rule_eq r q then suc n else n
effect q (iptables op_delete r) n = if rule_eq r q then n - 1 else n
effect q _ n = n

abbrev count_from : Rule → ℕ → List Call → ℕ
count_from q n [] = n
count_from q n (c ∷ log) = count_from q (effect q c n) log

count_from-append :
    (q : Rule) (n : ℕ) (log : List Call) (c : Call)
    → count_from q n (log ++ c ∷ []) ≡ effect q c (count_from q n log)
count_from-append q n [] c = refl
count_from-append q n (x ∷ log) c = count_from-append q (effect q x n) log c

abbrev answer : List Call → Call → Option Errno
answer log (iptables op_check r) = if ltb 0 (count_from r 0 log) then none else some (other 1)
answer log _ = none

abbrev kernel : Kernel
kernel = record {
  act = answer;
  read = λ log path. ok [];
  stat = λ log path. ok true;
  is_cgroup2 = λ log path. true;
  native_arch = 62;
  sys_nr = λ name. 0;
  cap_nr = λ name. 0;
  range = λ keys. keys;
}

answer-check :
    (log : List Call) (r : Rule)
    → succeeded (answer log (iptables op_check r)) ≡ ltb 0 (count_from r 0 log)
answer-check log r = ground arith

append-count :
    (log : List Call) (r q : Rule)
    → count_from q 0 (log ++ iptables op_append r ∷ [])
      ≡ (if true && rule_eq r q then suc (count_from q 0 log) else count_from q 0 log)
append-count log r q = ground (arith, count_from-append q 0 log (iptables op_append r))

insert-count :
    (log : List Call) (r q : Rule)
    → count_from q 0 (log ++ iptables op_insert r ∷ [])
      ≡ (if true && rule_eq r q then suc (count_from q 0 log) else count_from q 0 log)
insert-count log r q = ground (arith, count_from-append q 0 log (iptables op_insert r))

delete-count :
    (log : List Call) (r q : Rule)
    → count_from q 0 (log ++ iptables op_delete r ∷ [])
      ≡ (if true && rule_eq r q then count_from q 0 log - 1 else count_from q 0 log)
delete-count log r q = ground (arith, count_from-append q 0 log (iptables op_delete r))

abbrev netfilter : Netfilter kernel
netfilter = record {
  same = rule_eq;
  same_self = rule_eq_refl;
  count = λ log q. count_from q 0 log;
  count_same = λ log r q e. ap (λ x. count_from x 0 log) (rule_eq_sound r q e);
  check_finds = answer-check;
  check_keeps = λ log r q. count_from-append q 0 log (iptables op_check r);
  append_adds = append-count;
  insert_adds = insert-count;
  delete_takes = delete-count;
  chain_keeps = λ log table name q. count_from-append q 0 log (new_chain table name);
  file_keeps = λ log path text q. count_from-append q 0 log (write_file path text);
}

abbrev bridge : Bridge
bridge = record { name = codes "husk0"; cidr = codes "10.66.0.1/24" }

-- The same port, published twice.
abbrev web : PortMapping
web = record { host_port = pos 80; container_port = pos 8; protocol = []; host_ip = [] }

abbrev ports : List PortMapping
ports = web ∷ web ∷ []

abbrev id : Str
id = codes "c1"

abbrev ip : Str
ip = codes "10.66.0.2"

apply_rules-NoStack_example : NoStack netfilter [] (apply_rules bridge id ip ports kernel []).1
apply_rules-NoStack_example = apply_rules-NoStack netfilter bridge id ip ports []

abbrev published : List Call
published = (each (publish_port bridge id ip) ports kernel []).1

-- The rule of its port that forwards to the container.
abbrev web_rule : Rule
web_rule = published_dnat id ip web

publish-remove_rules_example :
    netfilter.count (remove_rules bridge id ip ports kernel published).1 web_rule
    ≡ netfilter.count [] web_rule
unfolding publish_port ensure_rule str_eq format_int
publish-remove_rules_example =
    publish-remove_rules netfilter bridge id ip ports [] published published (λ log r found. refl)
      refl (λ q own. refl) refl (λ q. refl) web_rule
