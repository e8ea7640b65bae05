-- ===== src/Network/Netfilter.antt =====
-- internal/network/netfilter.go: the rules that let a container's traffic in and out.
pub mod Counted
pub mod Stacking
pub mod Withdrawn
use husk.Base.{String, Bool, true, false, Option, none, some, List, [], ◌∷◌, ◌++◌, if◌then◌else◌}
use husk.Base.Bytes.{Str, codes, str_eq}
use husk.Base.Int.{ℤ, format_int}
use husk.Base.Outcome.{Outcome, ok, err}
use husk.Base.Action.{Error, Errno, pure, each, when, context, unless_errno, ◌>>=◌, ◌>>◌}
use husk.Container.{PortMapping}
use husk.Kernel.{
  Rule, op_check, op_append, op_insert, op_delete, Sys, iptables, new_chain, write_file, attempt,
  invoke, tolerate,
}

abbrev pub rule : String → String → List Str → Rule
rule table chain spec = record { table = codes table; chain = codes chain; spec = spec }

abbrev pub words : List String → List Str
words [] = []
words (w ∷ ws) = codes w ∷ words ws

-- The second call of ensureRule and of its like, on the answer of the first.
abbrev pub unless_there : Sys (Unit {0}) → Option Errno → Sys (Unit {0})
unless_there add none = pure tt
unless_there add (some _) = add

-- ensureRule, which applyRules and enableLocalhostPublishing also write out.
unfoldable pub ensure_rule : Rule → Sys (Unit {0})
ensure_rule r = attempt (iptables op_check r) >>= unless_there (invoke (iptables op_append r))

-- type chainSpec
pub record ChainSpec : Type 0 where
  pub table : Str
  pub name : Str
  pub parent : Str

abbrev pub chain_spec : String → String → String → ChainSpec
chain_spec t n p = record { table = codes t; name = codes n; parent = codes p }

-- The specs of ensureChains.
abbrev pub chain_specs : List ChainSpec
chain_specs =
    chain_spec "nat" "HUSK-POSTROUTING" "POSTROUTING"
    ∷ chain_spec "nat" "HUSK-DNAT" "PREROUTING"
    ∷ chain_spec "filter" "HUSK-FORWARD" "FORWARD"
    ∷ []

abbrev pub jump : ChainSpec → Rule
jump s = record { table = s.table; chain = s.parent; spec = codes "-j" ∷ s.name ∷ [] }

-- One round of the loop of ensureChains.
unfoldable pub ensure_chain : ChainSpec → Sys (Unit {0})
ensure_chain s = do
  tolerate (λ _. true) (new_chain s.table s.name)
  attempt (iptables op_check (jump s))
      >>= unless_there (context "link chain" (invoke (iptables op_insert (jump s))))

abbrev pub output_jump : Rule
output_jump = rule "nat" "OUTPUT" (words ("-j" ∷ "HUSK-DNAT" ∷ []))

-- ensureChains
unfoldable pub ensure_chains : Sys (Unit {0})
ensure_chains = do
  each ensure_chain chain_specs
  attempt (iptables op_check output_jump)
      >>= unless_there (tolerate (λ _. true) (iptables op_insert output_jump))

-- Manager: its bridge and its subnet.
pub record Bridge : Type 0 where
  pub name : Str
  pub cidr : Str

abbrev pub masquerade : Bridge → Rule
masquerade b =
    rule "nat" "HUSK-POSTROUTING"
      (codes "-s" ∷ b.cidr ∷ codes "!" ∷ codes "-o" ∷ b.name ∷ words ("-j" ∷ "MASQUERADE" ∷ []))

abbrev pub forward_rules : Bridge → List Rule
forward_rules b =
    rule "filter" "HUSK-FORWARD"
      (codes "-i" ∷ b.name ∷ codes "!" ∷ codes "-o" ∷ b.name ∷ words ("-j" ∷ "ACCEPT" ∷ []))
    ∷ rule "filter" "HUSK-FORWARD" (
        codes "-o"
        ∷ b.name
        ∷ words ("-m" ∷ "conntrack" ∷ "--ctstate" ∷ "RELATED,ESTABLISHED" ∷ "-j" ∷ "ACCEPT" ∷ []))
    ∷ rule "filter" "HUSK-FORWARD"
        (codes "-i" ∷ b.name ∷ codes "-o" ∷ b.name ∷ words ("-j" ∷ "ACCEPT" ∷ []))
    ∷ []

abbrev pub loopback : Bridge → Rule
loopback b =
    rule "nat" "HUSK-POSTROUTING"
      (codes "-s" ∷ codes "127.0.0.0/8" ∷ codes "-d" ∷ b.cidr ∷ words ("-j" ∷ "MASQUERADE" ∷ []))

abbrev pub route_localnet : Bridge → Str
route_localnet b = codes "/proc/sys/net/ipv4/conf/" ++ b.name ++ codes "/route_localnet"

-- enableLocalhostPublishing
unfoldable pub enable_localhost_publishing : Bridge → Sys (Unit {0})
enable_localhost_publishing b = do
  context "enable route_localnet" (invoke (write_file (route_localnet b) (codes "1")))
  context "install loopback masquerade" (ensure_rule (loopback b))

abbrev pub or_tcp : Str → Str
or_tcp [] = codes "tcp"
or_tcp (c ∷ proto) = c ∷ proto

-- addrPort
abbrev pub addr_port : Str → ℤ → Str
addr_port ip port = ip ++ codes ":" ++ format_int port

-- The two rules of publishPort.
abbrev pub published_dnat : Str → Str → PortMapping → Rule
published_dnat id ip p = rule "nat" "HUSK-DNAT" (
    codes "-p"
    ∷ or_tcp p.protocol
    ∷ codes "--dport"
    ∷ format_int p.host_port
    ∷ codes "-j"
    ∷ codes "DNAT"
    ∷ codes "--to-destination"
    ∷ addr_port ip p.container_port
    ∷ codes "-m"
    ∷ codes "comment"
    ∷ codes "--comment"
    ∷ (codes "husk:" ++ id)
    ∷ [])

abbrev pub published_forward : Bridge → Str → Str → PortMapping → Rule
published_forward b id ip p = rule "filter" "HUSK-FORWARD" (
    codes "-d"
    ∷ ip
    ∷ codes "-p"
    ∷ or_tcp p.protocol
    ∷ codes "--dport"
    ∷ format_int p.container_port
    ∷ codes "-o"
    ∷ b.name
    ∷ codes "-j"
    ∷ codes "ACCEPT"
    ∷ codes "-m"
    ∷ codes "comment"
    ∷ codes "--comment"
    ∷ (codes "husk:" ++ id)
    ∷ [])

-- publishPort
unfoldable pub publish_port : Bridge → Str → Str → PortMapping → Sys (Unit {0})
publish_port b id ip p = do
  context "publish port" (ensure_rule (published_dnat id ip p))
  context "allow forwarding to published port" (ensure_rule (published_forward b id ip p))

abbrev pub has_ports : List PortMapping → Bool
has_ports [] = false
has_ports (_ ∷ _) = true

-- applyRules
unfoldable pub apply_rules : Bridge → Str → Str → List PortMapping → Sys (Unit {0})
apply_rules b id ip ports = do
  ensure_chains
  context "install masquerade rule" (ensure_rule (masquerade b))
  each (λ r. context "install forward rule" (ensure_rule r)) (forward_rules b)
  when (has_ports ports) (enable_localhost_publishing b)
  each (publish_port b id ip) ports

-- The two rules that removeRules spells out.
abbrev pub removed_dnat : Str → Str → PortMapping → Rule
removed_dnat id ip p = rule "nat" "HUSK-DNAT" (
    codes "-p"
    ∷ or_tcp p.protocol
    ∷ codes "--dport"
    ∷ format_int p.host_port
    ∷ codes "-j"
    ∷ codes "DNAT"
    ∷ codes "--to-destination"
    ∷ addr_port ip p.container_port
    ∷ codes "-m"
    ∷ codes "comment"
    ∷ codes "--comment"
    ∷ (codes "husk:" ++ id)
    ∷ [])

abbrev pub removed_forward : Bridge → Str → Str → PortMapping → Rule
removed_forward b id ip p = rule "filter" "HUSK-FORWARD" (
    codes "-d"
    ∷ ip
    ∷ codes "-p"
    ∷ or_tcp p.protocol
    ∷ codes "--dport"
    ∷ format_int p.container_port
    ∷ codes "-o"
    ∷ b.name
    ∷ codes "-j"
    ∷ codes "ACCEPT"
    ∷ codes "-m"
    ∷ codes "comment"
    ∷ codes "--comment"
    ∷ (codes "husk:" ++ id)
    ∷ [])

-- One round of the loop of removeRules.
unfoldable pub remove_port : Bridge → Str → Str → PortMapping → Sys (Unit {0})
remove_port b id ip p = do
  tolerate (λ _. true) (iptables op_delete (removed_dnat id ip p))
  tolerate (λ _. true) (iptables op_delete (removed_forward b id ip p))

-- removeRules; `leased` is the text that mustLease returns.
unfoldable pub remove_rules : Bridge → Str → Str → List PortMapping → Sys (Unit {0})
remove_rules b id leased ports =
    if str_eq leased [] then pure tt else each (remove_port b id leased) ports
