-- ===== src/Network/Host.antt =====
-- internal/network/host.go: the bridge, and the host's half of a container's network. The lease of an
-- address is an interface; netlink.ParseAddr, net.ParseCIDR and net.ParseIP are parameters.
pub mod Cleanup
pub mod Attached
pub mod Unwound
use husk.Base.{
  ℕ, ltb, Bool, true, false, not, ◌&&◌, ◌||◌, Option, none, some, List, [], ◌∷◌, ◌++◌, String,
  length, take, if◌then◌else◌,
}
use husk.Base.Bytes.{Str, codes, str_eq, fields}
use husk.Base.Int.{ℤ, pos, format_int}
use husk.Base.Outcome.{Outcome, ok, err}
use husk.Base.Action.{Errno, Error, errno, message, pure, fail, lift, try, context, ◌>>=◌, ◌>>◌}
use husk.Base.Split.{split}
use husk.Container.{Network, PortMapping}
use husk.Kernel.{
  Call, Sys, find_link, add_bridge, add_address, link_up, write_file, add_veth, delete_link,
  set_master, move_link, attempt, invoke, tolerate, read_file,
}
use husk.Network.Netfilter.{Bridge, apply_rules, remove_rules}

-- What the manager needs of the leases: Allocate, Release and mustLease.
pub record Leases : Type 0 where
  pub allocate : Str → Sys Str
  pub release : Str → Sys (Unit {0})
  pub must_lease : Str → Sys Str

-- netlink.ParseAddr and net.ParseCIDR on the bridge's address, the length of the subnet's prefix, and what
-- net.ParseIP says of a text: whether it is an address, and whether of a loopback.
pub record Parsing : Type 0 where
  pub bridge_address : Outcome Error Str
  pub gateway : Outcome Error Str
  pub prefix_length : ℤ
  pub is_ip : Str → Bool
  pub is_loopback : Str → Bool

abbrev pub if_name_max : ℕ
if_name_max = 15

abbrev pub default_mtu : ℕ
default_mtu = 1500

-- interfaceNames
unfoldable pub interface_names : Str → Str × Str
interface_names id =
    let s = if ltb 8 (length id) then take 8 id else id in (codes "hveth" ++ s, codes "hvpeer" ++ s)

-- EnsureBridge behind the search.
unfoldable pub create_bridge : Bridge → Parsing → Sys (Unit {0})
create_bridge b p = do
  context "create bridge" (invoke (add_bridge b.name))
  addr ← context "parse bridge address" (lift p.bridge_address)
  context "assign" (invoke (add_address b.name addr))
  context "bring up" (invoke (link_up b.name))
  context "enable ip_forward"
      (invoke (write_file (codes "/proc/sys/net/ipv4/ip_forward") (codes "1")))

-- EnsureBridge
unfoldable pub ensure_bridge : Bridge → Parsing → Sys (Unit {0})
unfolding create_bridge
ensure_bridge b p =
    attempt (find_link b.name)
    >>= elim [ none ↦ invoke (link_up b.name) | some e ↦ create_bridge b p ]

-- An action whose error is dropped.
abbrev pub dropped : Sys (Unit {0}) → Sys (Unit {0})
dropped m = try m >>= λ outcome. pure tt

-- What is done behind an action that failed, before its error is returned.
abbrev pub undo_with : {A : Type 0} → Sys (Unit {0}) → Outcome Error A → Sys A
undo_with undo (ok a) = pure a
undo_with undo (err e) = undo >> fail e

abbrev pub on_error : {A : Type 0} → Sys A → Sys (Unit {0}) → Sys A
on_error m undo = try m >>= undo_with undo

-- One line of hostResolvers.
abbrev pub resolver_in : Parsing → List Str → List Str
resolver_in p (word ∷ address ∷ rest) =
    if str_eq word (codes "nameserver") && (p.is_ip address && not (p.is_loopback address))
    then address ∷ []
    else []
resolver_in p _ = []

unfoldable pub resolvers_in : Parsing → List Str → List Str
resolvers_in p [] = []
resolvers_in p (line ∷ lines) = resolver_in p (fields line) ++ resolvers_in p lines

abbrev pub resolvers_of : Parsing → Outcome Errno Str → List Str
resolvers_of p (err e) = []
resolvers_of p (ok text) = resolvers_in p (split b'\n' text)

-- hostResolvers
unfoldable pub host_resolvers : Parsing → Sys (List Str)
unfolding resolvers_in
host_resolvers p = read_file (codes "/etc/resolv.conf") >>= λ answer. pure (resolvers_of p answer)

module _ (b : Bridge) (p : Parsing) (leases : Leases) where
  -- The closure `cleanup` of Attach.
  unfoldable pub take_down : Str → Str → Sys (Unit {0})
  take_down id host =
      (attempt (find_link host)
        >>= elim [ none ↦ tolerate (λ _. true) (delete_link host) | some e ↦ pure tt ])
      >> dropped (leases.release id)

  -- The value of Attach.
  abbrev pub connected : Str → Str → Str → List PortMapping → List Str → Network
  connected peer ip gateway ports dns = record {
    mode = codes "bridge";
    peer_name = peer;
    iface_name = codes "eth0";
    ip = ip ++ b'/' ∷ format_int p.prefix_length;
    gateway = gateway;
    mtu = pos default_mtu;
    dns = dns;
    ports = ports;
  }

  -- Attach from the search for the bridge on, up to the rules.
  unfoldable pub connect : Str → Str → Str → ℤ → Str → List PortMapping → Sys Str
  connect id host peer pid ip ports = do
    context "find bridge" (invoke (find_link b.name))
    invoke (find_link host)
    context "enslave" (invoke (set_master host b.name))
    context "bring up" (invoke (link_up host))
    invoke (find_link peer)
    context "move into netns" (invoke (move_link peer pid))
    gateway ← lift p.gateway
    apply_rules b id ip ports
    pure gateway

  -- Attach behind the allocation.
  unfoldable pub plug : Str → Str → Str → ℤ → Str → List PortMapping → Sys Network
  unfolding connect take_down
  plug id host peer pid ip ports = do
    on_error (context "create veth pair" (invoke (add_veth host peer default_mtu)))
        (dropped (leases.release id))
    gateway ← on_error (connect id host peer pid ip ports) (take_down id host)
    dns ← host_resolvers p
    pure (connected peer ip gateway ports dns)

  -- The test of the names.
  unfoldable pub plug_checked : Str → Str × Str → ℤ → Str → List PortMapping → Sys Network
  unfolding plug
  plug_checked id (host, peer) pid ip ports =
      if ltb if_name_max (length host) || ltb if_name_max (length peer)
      then dropped (leases.release id) >> fail (message "interface names exceed the kernel limit")
      else plug id host peer pid ip ports

  -- Attach
  unfoldable pub attach : Str → ℤ → List PortMapping → Sys Network
  unfolding ensure_bridge plug_checked
  attach id pid ports = do
    ensure_bridge b p
    ip ← leases.allocate id
    plug_checked id (interface_names id) pid ip ports

  -- The link, in Detach.
  unfoldable pub unplug : Str → Sys (Unit {0})
  unplug host =
      attempt (find_link host)
      >>= elim [ none ↦ context "delete veth" (invoke (delete_link host)) | some e ↦ pure tt ]

  abbrev pub failed_any : List (Outcome Error (Unit {0})) → Outcome Error (Unit {0})
  failed_any [] = ok tt
  failed_any (ok _ ∷ rest) = failed_any rest
  failed_any (err e ∷ rest) = err (message "network teardown")

  -- Detach
  unfoldable pub detach : Str → List PortMapping → Sys (Unit {0})
  unfolding unplug
  detach id ports = do
    leased ← leases.must_lease id
    rules ← try (remove_rules b id leased ports)
    link ← try (unplug ((interface_names id).0))
    lease ← try (leases.release id)
    lift (failed_any (rules ∷ link ∷ lease ∷ []))
