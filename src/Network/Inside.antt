-- ===== src/Network/Inside.antt =====
-- internal/network/container.go: the interfaces of a container, from within its network namespace.
use husk.Base.{Bool, true, false, not, ◌&&◌, List, [], ◌∷◌, ◌++◌, if◌then◌else◌}
use husk.Base.Bytes.{Str, codes, str_eq}
use husk.Base.Outcome.{Outcome}
use husk.Base.Action.{Errno, eperm, eacces, Error, message, fail, lift, when, context, ◌>>=◌, ◌>>◌}
use husk.Base.Paths.{dir}
use husk.Container.{Network}
use husk.Kernel.{
  Sys, find_link, rename_link, add_address, link_up, add_default_route, write_file, mkdir_all,
  invoke, tolerate,
}

-- netlink.ParseAddr, and whether net.ParseIP accepts a text.
pub record Addresses : Type 0 where
  pub parse_addr : Str → Outcome Error Str
  pub is_ip : Str → Bool

-- bringUp
unfoldable pub bring_up : Str → Sys (Unit {0})
bring_up name = invoke (find_link name) >> invoke (link_up name)

-- The rename of the veth peer.
abbrev pub take_name : Str → Str → Sys (Unit {0})
take_name peer name = do
  context "rename" (invoke (rename_link peer name))
  context "find after rename" (invoke (find_link name))

abbrev pub add_route : Addresses → Str → Str → Sys (Unit {0})
add_route a link gateway =
    if a.is_ip gateway
    then context "default route" (invoke (add_default_route link gateway))
    else fail (message "invalid gateway")

abbrev pub or_servers : List Str → List Str
or_servers [] = codes "1.1.1.1" ∷ codes "8.8.8.8" ∷ []
or_servers (s ∷ servers) = s ∷ servers

unfoldable pub resolv_text : List Str → Str
resolv_text [] = []
resolv_text (s ∷ servers) = codes "nameserver " ++ s ++ b'\n' ∷ resolv_text servers

-- os.IsPermission on an errno
abbrev pub is_permission : Errno → Bool
is_permission eperm = true
is_permission eacces = true
is_permission _ = false

abbrev pub resolv_conf : Str
resolv_conf = codes "/etc/resolv.conf"

-- writeResolvConf
unfoldable pub write_resolv_conf : List Str → Sys (Unit {0})
write_resolv_conf servers = do
  invoke (mkdir_all (dir resolv_conf))
  context "write resolv.conf"
      (tolerate is_permission (write_file resolv_conf (resolv_text (or_servers servers))))

-- The part of ConfigureInside that furnishes the veth peer.
unfoldable pub configure_peer : Addresses → Network → Sys (Unit {0})
configure_peer a cfg = do
  context "find in netns" (invoke (find_link cfg.peer_name))
  when (not (str_eq cfg.peer_name cfg.iface_name)) (take_name cfg.peer_name cfg.iface_name)
  addr ← context "parse address" (lift (a.parse_addr cfg.ip))
  context "assign" (invoke (add_address cfg.iface_name addr))
  context "bring up" (invoke (link_up cfg.iface_name))
  when (not (str_eq cfg.gateway [])) (add_route a cfg.iface_name cfg.gateway)
  write_resolv_conf cfg.dns

-- ConfigureInside
unfoldable pub configure_inside : Addresses → Network → Sys (Unit {0})
configure_inside a cfg = do
  context "loopback" (bring_up (codes "lo"))
  when (str_eq cfg.mode (codes "bridge") && not (str_eq cfg.iface_name [])) (configure_peer a cfg)
