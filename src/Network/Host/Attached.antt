-- ===== src/Network/Host/Attached.antt =====
-- What a successful Attach has connected.
use husk.Base.{List, [], ◌∷◌, ◌++◌}
use husk.Base.Bytes.{Str, codes}
use husk.Base.Int.{ℤ, pos, format_int}
use husk.Base.Outcome.{Outcome}
use husk.Container.{Network, PortMapping}
use husk.Kernel.{Kernel, Call, find_link, link_up, set_master, move_link}
use husk.Kernel.Chain.{Chain}
use husk.Network.Netfilter.{Bridge}
use husk.Network.Host.{Leases, Parsing}

module _ (b : Bridge) (p : Parsing) (leases : Leases) (k : Kernel) where
  -- The calls that connect the pair.
  abbrev pub wiring : Str → Str → ℤ → List Call
  wiring host peer pid =
      find_link b.name
      ∷ find_link host
      ∷ set_master host b.name
      ∷ link_up host
      ∷ find_link peer
      ∷ move_link peer pid
      ∷ []

  abbrev pub described : Str → Str → Str → List PortMapping → List Str → Network
  described peer ip gateway ports dns = record {
    mode = codes "bridge";
    peer_name = peer;
    iface_name = codes "eth0";
    ip = ip ++ b'/' ∷ format_int p.prefix_length;
    gateway = gateway;
    mtu = pos 1500;
    dns = dns;
    ports = ports;
  }
