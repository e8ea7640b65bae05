-- ===== src/Network/Netfilter/Stacking.antt =====
-- applyRules adds each rule at most once.
use husk.Base.{
  ◌≤◌, suc, ltb, ◌≡◌, ◌∙◌, refl, Bool, true, false, ◌&&◌, Bool-cases, inl, inr, Option, none, some,
  List, [], ◌∷◌, ◌++◌, String, arith, if◌then◌else◌,
}
use husk.Base.Bytes.{Str, codes}
use husk.Base.Outcome.{Outcome, ok, err}
use husk.Base.Action.{
  Error, Errno, each, when, context, relabel, continue, unless_errno, ◌>>=◌, ◌>>◌,
}
use husk.Container.{PortMapping}
use husk.Kernel.{
  Kernel, Call, Rule, op_check, op_append, op_insert, Sys, iptables, new_chain, write_file, attempt,
  invoke, tolerate,
}
use husk.Network.Netfilter.{
  unless_there, ensure_rule, ChainSpec, jump, ensure_chain, chain_specs, output_jump, ensure_chains,
  Bridge, masquerade, forward_rules, loopback, route_localnet, enable_localhost_publishing,
  published_dnat, published_forward, publish_port, has_ports, apply_rules,
}
use husk.Network.Netfilter.Counted.{Netfilter, succeeded, once}

module _ {k : Kernel} (nf : Netfilter k) where
  -- No rule is in force more often than before, unless it was not and is now once.
  abbrev pub NoStack : List Call → List Call → Type 0
  NoStack log after = (q : Rule) → nf.count after q ≤ once (nf.count log q)

  -- The action stacks no rule, whatever it returns.
  abbrev pub Tidy : {A : Type 0} → Sys A → Type 0
  Tidy m = (log : List Call) → NoStack log (m k log).1

  NoStack-trans : (a b c : List Call) → NoStack a b → NoStack b c → NoStack a c
  NoStack-trans a b c x y q = ground (arith, x q, y q)

  then-Tidy :
      {A B : Type 0} (m : Sys A) (f : A → Sys B) → Tidy m → ((a : A) → Tidy (f a)) → Tidy (m >>= f)
  then-Tidy {A} m f tm tf log = go (m k log) (tm log)
    where
      go : (r : Outcome Error A × List Call) → NoStack log r.1 → NoStack log (continue r f k).1
      go (ok a, mid) t = NoStack-trans log mid (f a k mid).1 t (tf a mid)
      go (err e, mid) t = t

  context-Tidy : {A : Type 0} (label : String) (m : Sys A) → Tidy m → Tidy (context label m)
  context-Tidy {A} label m t log = go (m k log) (t log)
    where
      go : (r : Outcome Error A × List Call) → NoStack log r.1 → NoStack log (relabel label r).1
      go (ok a, mid) t = t
      go (err e, mid) t = t

  each-Tidy :
      {A : Type 0} (f : A → Sys (Unit {0}))
      → ((a : A) → Tidy (f a))
      → (xs : List A) → Tidy (each f xs)
  each-Tidy f t [] log q = ground arith
  each-Tidy f t (x ∷ xs) log q =
      then-Tidy (f x) (λ _. each f xs) (t x) (λ _. each-Tidy f t xs) log q

  when-Tidy : (b : Bool) (m : Sys (Unit {0})) → Tidy m → Tidy (when b m)
  when-Tidy true m t log q = t log q
  when-Tidy false m t log q = ground arith

  -- A call that keeps every count.
  keeping-Tidy :
      (ignored : Errno → Bool) (c : Call)
      → ((log : List Call) (q : Rule) → nf.count (log ++ c ∷ []) q ≡ nf.count log q)
      → Tidy (tolerate ignored c)
  keeping-Tidy ignored c keeps log q = go (k.act log c)
    where
      go :
          (o : Option Errno)
          → nf.count (unless_errno ignored o k (log ++ c ∷ [])).1 q ≤ once (nf.count log q)
      go none = ground (arith, keeps log q)
      go (some e) = ground (arith, keeps log q)

  module _ (r : Rule) where
    -- A call that adds a rule, behind a check that did not find it.
    adding-Tidy :
        (add : Sys (Unit {0})) (c : Call)
        → ((log : List Call) → (add k log).1 ≡ log ++ c ∷ [])
        → ((log : List Call) (q : Rule)
            → nf.count (log ++ c ∷ []) q ≡ (
                if succeeded (k.act log c) && nf.same r q
                then suc (nf.count log q)
                else nf.count log q))
        → Tidy (attempt (iptables op_check r) >>= unless_there add)
    adding-Tidy add c calls adds log q = go (k.act log (iptables op_check r)) refl
      where
        checked : List Call
        checked = log ++ iptables op_check r ∷ []

        go :
            (o : Option Errno)
            → k.act log (iptables op_check r) ≡ o
            → nf.count (unless_there add o k checked).1 q ≤ once (nf.count log q)
        go none e = ground (arith, nf.check_keeps log r q)
        go (some x) e =
            let missing : ltb 0 (nf.count log r) ≡ false =
              ground (arith, nf.check_finds log r, e) in
            rw (calls checked) (elim (Bool-cases (nf.same r q)) [
              | inl alike ↦ ground (
                arith,
                adds checked q,
                nf.check_keeps log r q,
                missing,
                nf.count_same log r q alike,
              )
              | inr apart ↦ ground (arith, adds checked q, nf.check_keeps log r q)
            ])

  invoke-calls :
      (ignored : Errno → Bool) (c : Call) (log : List Call)
      → (tolerate ignored c k log).1 ≡ log ++ c ∷ []
  invoke-calls ignored c log = go (k.act log c)
    where
      go : (o : Option Errno) → (unless_errno ignored o k (log ++ c ∷ [])).1 ≡ log ++ c ∷ []
      go none = refl
      go (some e) = ground arith

  context-calls :
      {A : Type 0} (label : String) (m : Sys A) (log : List Call)
      → (context label m k log).1 ≡ (m k log).1
  context-calls {A} label m log = go (m k log)
    where
      go : (r : Outcome Error A × List Call) → (relabel label r).1 ≡ r.1
      go (ok a, mid) = refl
      go (err e, mid) = refl

  ensure_rule-Tidy : (r : Rule) → Tidy (ensure_rule r)
  unfolding ensure_rule
  ensure_rule-Tidy r =
      adding-Tidy r (invoke (iptables op_append r)) (iptables op_append r)
        (invoke-calls (λ _. false) (iptables op_append r)) (λ log q. nf.append_adds log r q)

  ensure_chain-Tidy : (s : ChainSpec) → Tidy (ensure_chain s)
  unfolding ensure_chain
  ensure_chain-Tidy s =
      then-Tidy (tolerate (λ _. true) (new_chain s.table s.name)) _
        (keeping-Tidy (λ _. true) (new_chain s.table s.name)
          (λ log q. nf.chain_keeps log s.table s.name q))
        (λ _.
          adding-Tidy (jump s) (context "link chain" (invoke (iptables op_insert (jump s))))
            (iptables op_insert (jump s))
            (λ log.
              context-calls "link chain" (invoke (iptables op_insert (jump s))) log
              ∙ invoke-calls (λ _. false) (iptables op_insert (jump s)) log)
            (λ log q. nf.insert_adds log (jump s) q))

  ensure_chains-Tidy : Tidy ensure_chains
  unfolding ensure_chains
  ensure_chains-Tidy =
      then-Tidy (each ensure_chain chain_specs) _
        (each-Tidy ensure_chain ensure_chain-Tidy chain_specs)
        (λ _.
          adding-Tidy output_jump (tolerate (λ _. true) (iptables op_insert output_jump))
            (iptables op_insert output_jump)
            (invoke-calls (λ _. true) (iptables op_insert output_jump))
            (λ log q. nf.insert_adds log output_jump q))

  labelled_rule : (label : String) (r : Rule) → Tidy (context label (ensure_rule r))
  labelled_rule label r = context-Tidy label (ensure_rule r) (ensure_rule-Tidy r)

  publish_port-Tidy : (b : Bridge) (id ip : Str) (p : PortMapping) → Tidy (publish_port b id ip p)
  unfolding publish_port
  publish_port-Tidy b id ip p =
      then-Tidy (context "publish port" (ensure_rule (published_dnat id ip p))) _
        (labelled_rule "publish port" (published_dnat id ip p))
        (λ _. labelled_rule "allow forwarding to published port" (published_forward b id ip p))

  localhost-Tidy : (b : Bridge) → Tidy (enable_localhost_publishing b)
  unfolding enable_localhost_publishing
  localhost-Tidy b =
      let c = write_file (route_localnet b) (codes "1") in
      then-Tidy (context "enable route_localnet" (invoke c))
        (λ _. context "install loopback masquerade" (ensure_rule (loopback b)))
        (context-Tidy "enable route_localnet" (invoke c) (
          keeping-Tidy (λ _. false) c
            (λ log q. nf.file_keeps log (route_localnet b) (codes "1") q)))
        (λ _. labelled_rule "install loopback masquerade" (loopback b))

  -- applyRules never stacks rules, however often it runs and wherever it fails: a rule that was in
  -- force is not in force more often afterwards, and one that was not is in force at most once, where
  -- iptables -C fails only for a rule that is not in force.
  pub apply_rules-NoStack :
      (b : Bridge) (id ip : Str) (ports : List PortMapping) (log : List Call)
      → NoStack log (apply_rules b id ip ports k log).1
  unfolding apply_rules
  apply_rules-NoStack b id ip ports =
      let m₁ = context "install masquerade rule" (ensure_rule (masquerade b)) in
      let f = λ (r : Rule). context "install forward rule" (ensure_rule r) in
      let m₂ = each f (forward_rules b) in
      let m₃ = when (has_ports ports) (enable_localhost_publishing b) in
      let m₄ = each (publish_port b id ip) ports in
      then-Tidy ensure_chains (λ _. m₁ >> (m₂ >> (m₃ >> m₄))) ensure_chains-Tidy
        (λ _.
          then-Tidy m₁ (λ _. m₂ >> (m₃ >> m₄))
            (labelled_rule "install masquerade rule" (masquerade b))
            (λ _.
              then-Tidy m₂ (λ _. m₃ >> m₄)
                (each-Tidy f (labelled_rule "install forward rule") (forward_rules b))
                (λ _.
                  then-Tidy m₃ (λ _. m₄)
                    (when-Tidy (has_ports ports) (enable_localhost_publishing b) (localhost-Tidy b))
                    (λ _. each-Tidy (publish_port b id ip) (publish_port-Tidy b id ip) ports))))
