-- ===== src/Network/Netfilter/Withdrawn.antt =====
-- The rules of one container: published by applyRules, withdrawn by removeRules.
use husk.Base.{
  ◌-◌, ◌≤◌, ltb, ◌≡◌, refl, Bool, true, false, ◌||◌, Bool-cases, inl, inr, Option, none, some, ◌⊎◌,
  List, [], ◌∷◌, ◌++◌, arith, if◌then◌else◌,
}
use husk.Base.Bytes.{Str, str_eq}
use husk.Base.Outcome.{ok}
use husk.Base.Action.{Errno, each, context, unless_errno}
use husk.Container.{PortMapping}
use husk.Kernel.{Kernel, Call, Rule, op_check, op_append, op_delete, iptables, invoke, tolerate}
use husk.Kernel.Runs.{Returns, >>-Returns, context-Returns, invoke-Returns}
use husk.Network.Netfilter.{
  unless_there, ensure_rule, Bridge, published_dnat, published_forward, publish_port, removed_dnat,
  removed_forward, remove_port, remove_rules,
}
use husk.Network.Netfilter.Counted.{Netfilter, succeeded, once}

-- iptables -D is accepted for a rule that is in force.
abbrev pub DeletesFound : {k : Kernel} → Netfilter k → Type 0
DeletesFound {k} nf =
    (log : List Call) (r : Rule)
    → ltb 0 (nf.count log r) ≡ true
    → succeeded (k.act log (iptables op_delete r)) ≡ true

module _ {k : Kernel} (nf : Netfilter k) where
  ensure_rule-count :
      (r : Rule) (log after : List Call) (q : Rule)
      → Returns (ensure_rule r) k log tt after
      → nf.count after q ≡ (if nf.same r q then once (nf.count log q) else nf.count log q)
  unfolding ensure_rule
  ensure_rule-count r log after q h = go (k.act log (iptables op_check r)) refl h
    where
      checked : List Call
      checked = log ++ iptables op_check r ∷ []

      go :
          (o : Option Errno)
          → k.act log (iptables op_check r) ≡ o
          → Returns (unless_there (invoke (iptables op_append r)) o) k checked tt after
          → nf.count after q ≡ (if nf.same r q then once (nf.count log q) else nf.count log q)
      go none e h =
          let same_log : after ≡ checked = cc in
          let present : ltb 0 (nf.count log r) ≡ true = ground (arith, nf.check_finds log r, e) in
          rw same_log (elim (Bool-cases (nf.same r q)) [
            | inl alike ↦
                ground (arith, nf.check_keeps log r q, present, nf.count_same log r q alike)
            | inr apart ↦ ground (arith, nf.check_keeps log r q)
          ])
      go (some x) e h =
          let (l, a) = invoke-Returns (iptables op_append r) k checked h in
          let missing : ltb 0 (nf.count log r) ≡ false = ground (arith, nf.check_finds log r, e) in
          rw l (elim (Bool-cases (nf.same r q)) [
            | inl alike ↦ ground (
              arith,
              nf.append_adds checked r q,
              nf.check_keeps log r q,
              missing,
              a,
              nf.count_same log r q alike,
            )
            | inr apart ↦ ground (arith, nf.append_adds checked r q, nf.check_keeps log r q)
          ])

  module _ (b : Bridge) (id ip : Str) where
    -- A rule that is one of the two for a port.
    abbrev pub is_of : PortMapping → Rule → Bool
    is_of p q = nf.same (published_dnat id ip p) q || nf.same (published_forward b id ip p) q

    abbrev pub is_of_any : List PortMapping → Rule → Bool
    is_of_any [] q = false
    is_of_any (p ∷ ports) q = is_of p q || is_of_any ports q

    publish_port-count :
        (p : PortMapping) (log after : List Call) (q : Rule)
        → Returns (publish_port b id ip p) k log tt after
        → nf.count after q ≡ (if is_of p q then once (nf.count log q) else nf.count log q)
    unfolding publish_port
    publish_port-count p log after q h =
        let first = ensure_rule (published_dnat id ip p) in
        let second = ensure_rule (published_forward b id ip p) in
        let (mid, x, y) =
          >>-Returns k (context "publish port" first)
            (context "allow forwarding to published port" second) log h in
        ground (
          arith,
          ensure_rule-count (published_dnat id ip p) log mid q
              (context-Returns "publish port" first k log x),
          ensure_rule-count (published_forward b id ip p) mid after q
              (context-Returns "allow forwarding to published port" second k mid y),
        )

    publish-count :
        (ports : List PortMapping) (log after : List Call) (q : Rule)
        → Returns (each (publish_port b id ip) ports) k log tt after
        → nf.count after q ≡ (if is_of_any ports q then once (nf.count log q) else nf.count log q)
    publish-count [] log after q h = let same_log : after ≡ log = cc in rw same_log refl
    publish-count (p ∷ ports) log after q h =
        let (mid, x, y) =
          >>-Returns k (publish_port b id ip p) (each (publish_port b id ip) ports) log h in
        ground (arith, publish_port-count p log mid q x, publish-count ports mid after q y)

    deleted :
        (r : Rule) (log : List Call)
        → tolerate (λ _. true) (iptables op_delete r) k log
          ≡ (ok tt, log ++ iptables op_delete r ∷ [])
    deleted r log = go (k.act log (iptables op_delete r))
      where
        go :
            (o : Option Errno)
            → unless_errno (λ _. true) o k (log ++ iptables op_delete r ∷ [])
              ≡ (ok tt, log ++ iptables op_delete r ∷ [])
        go none = refl
        go (some e) = refl

    -- The log after the two deletions for a port.
    abbrev withdrawn : PortMapping → List Call → List Call
    withdrawn p log =
        (log ++ iptables op_delete (removed_dnat id ip p) ∷ [])
        ++ iptables op_delete (removed_forward b id ip p) ∷ []

    remove_port-runs :
        (p : PortMapping) (log : List Call) → remove_port b id ip p k log ≡ (ok tt, withdrawn p log)
    unfolding remove_port
    remove_port-runs p log = rw (deleted (removed_dnat id ip p) log) (
        deleted (removed_forward b id ip p) (log ++ iptables op_delete (removed_dnat id ip p) ∷ []))

    delete-count :
        (r : Rule) (log : List Call) (q : Rule)
        → DeletesFound nf
        → nf.count (log ++ iptables op_delete r ∷ []) q
          ≡ (if nf.same r q then nf.count log q - 1 else nf.count log q)
    delete-count r log q accepted = elim (Bool-cases (nf.same r q)) [
      | inl alike ↦
          ground (arith, nf.delete_takes log r q, nf.count_same log r q alike, accepted log r)
      | inr apart ↦ ground (arith, nf.delete_takes log r q)
    ]

    remove_port-count :
        DeletesFound nf
        → (p : PortMapping) (log : List Call) (q : Rule)
        → (nf.count (withdrawn p log) q ≤ nf.count log q)
          × ((is_of p q ≡ false) ⊎ (nf.count (withdrawn p log) q ≤ nf.count log q - 1))
          × ((is_of p q ≡ true) ⊎ (nf.count (withdrawn p log) q ≡ nf.count log q))
    remove_port-count accepted p log q =
        let mid = log ++ iptables op_delete (removed_dnat id ip p) ∷ [] in
        ground (
          arith,
          delete-count (removed_dnat id ip p) log q accepted,
          delete-count (removed_forward b id ip p) mid q accepted,
        )

    remove-count :
        DeletesFound nf
        → (ports : List PortMapping) (log : List Call) (q : Rule)
        → let after = (each (remove_port b id ip) ports k log).1 in
          (nf.count after q ≤ nf.count log q)
          × ((is_of_any ports q ≡ false) ⊎ (nf.count after q ≤ nf.count log q - 1))
          × ((is_of_any ports q ≡ true) ⊎ (nf.count after q ≡ nf.count log q))
    remove-count accepted [] log q = ground arith
    remove-count accepted (p ∷ ports) log q = rw (remove_port-runs p log) (
        ground (
          arith,
          remove_port-count accepted p log q,
          remove-count accepted ports (withdrawn p log) q,
        ))

    -- removeRules takes back what publishPort added, where iptables -C fails only for a rule that is not in
    -- force and -D is accepted for every rule that is: if none of a container's rules was in force
    -- before its ports were published, and nobody else changes these rules until removeRules runs with
    -- the address that the container had, then every rule of the host, of this container or not, is in
    -- force as often as before, also if the same port was published twice.
    pub publish-remove_rules :
        (ports : List PortMapping) (log published later : List Call)
        → DeletesFound nf
        → str_eq ip [] ≡ false
        → ((q : Rule) → is_of_any ports q ≡ true → nf.count log q ≡ 0)
        → Returns (each (publish_port b id ip) ports) k log tt published
        → ((q : Rule) → nf.count later q ≡ nf.count published q)
        → (q : Rule) → nf.count (remove_rules b id ip ports k later).1 q ≡ nf.count log q
    unfolding remove_rules
    publish-remove_rules ports log published later accepted leased fresh h unchanged q =
        rw leased (elim (Bool-cases (is_of_any ports q)) [
          | inl own ↦ ground (
            arith,
            fresh q own,
            publish-count ports log published q h,
            unchanged q,
            remove-count accepted ports later q,
          )
          | inr foreign ↦ ground (
            arith,
            publish-count ports log published q h,
            unchanged q,
            remove-count accepted ports later q,
          )
        ])
