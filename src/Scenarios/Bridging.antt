-- ===== src/Scenarios/Bridging.antt =====
-- A container that is connected to the bridge, and one for which that fails.
use husk.Base.{◌≡◌, ◌⊎◌, refl, true, none, some, Option, List, []}
use husk.Base.Bytes.{Str, codes, str_eq}
use husk.Base.Int.{pos}
use husk.Base.Outcome.{ok, err}
use husk.Base.Action.{Errno, Error, errno, wrapped, esrch, pure}
use husk.Container.{Network}
use husk.Kernel.{Kernel, Call, move_link}
use husk.Kernel.Runs.{Returns}
use husk.Kernel.Chain.{Chain}
use husk.Network.Netfilter.{Bridge}
use husk.Network.Host.{
  Leases, Parsing, interface_names, ensure_bridge, resolvers_of, take_down, connect, connected,
  plug, plug_checked, attach,
}
use husk.Network.Host.Unwound.{Unplugged, attach-unwinds}
use husk.Scenarios.Restrictions.{accepting}

abbrev bridge : Bridge
bridge = record { name = codes "husk0"; cidr = codes "10.66.0.1/24" }

abbrev parsing : Parsing
parsing = record {
  bridge_address = ok (codes "10.66.0.1/24");
  gateway = ok (codes "10.66.0.1");
  prefix_length = pos 24;
  is_ip = λ text. true;
  is_loopback = λ text. str_eq text (codes "127.0.0.53");
}

abbrev leases : Leases
leases = record {
  allocate = λ id. pure (codes "10.66.0.2");
  release = λ id. pure tt;
  must_lease = λ id. pure (codes "10.66.0.2");
}

abbrev attached_log : List Call
attached_log = (attach bridge parsing leases (codes "web") (pos 7) [] accepting []).1

abbrev attached : Network
attached =
    connected bridge parsing leases (codes "hvpeerweb") (codes "10.66.0.2") (codes "10.66.0.1") []
      (resolvers_of parsing (accepting.read attached_log (codes "/etc/resolv.conf")))

-- The process is gone when the link should move into its namespace.
abbrev gone : Call → Option Errno
gone (move_link name pid) = some esrch
gone c = none

abbrev late : Kernel
late = record accepting { act = λ log c. gone c }

abbrev failed_log : List Call
failed_log = (attach bridge parsing leases (codes "web") (pos 7) [] late []).1

abbrev failure : Error
failure = wrapped "move into netns" (errno esrch)

attach-unwinds_example :
    let (host, peer) = interface_names (codes "web") in
    (ensure_bridge bridge parsing late [] ≡ (err failure, failed_log))
    ⊎ ((bridged : List Call) × Returns (ensure_bridge bridge parsing) late [] tt bridged
        × ((leases.allocate (codes "web") late bridged ≡ (err failure, failed_log))
            ⊎ ((ip : Str) × (leased : List Call) × Returns
                  (leases.allocate (codes "web"))
                  late
                  bridged
                  ip
                  leased
                × Unplugged bridge parsing leases late
                    (codes "web")
                    host
                    peer
                    (pos 7)
                    ip
                    []
                    leased
                    failure
                    failed_log)))
unfolding attach plug_checked plug connect interface_names ensure_bridge take_down
attach-unwinds_example =
    attach-unwinds bridge parsing leases late (codes "web") (pos 7) [] [] {e = failure}
      {after = failed_log} refl
