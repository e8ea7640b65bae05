-- ===== src/Network/Ipam.antt =====
-- internal/network/ipam.go. The lease directory is a state `D` with the file operations that husk
-- calls on it, and net.IP is a type `A`.
pub mod Leases
pub mod Lowest
pub mod Owner
use husk.Base.{
  ℕ, zero, suc, ◌+◌, ◌-◌, ◌%◌, ◌^◌, Bool, true, false, ◌≡◌, ◌≢◌, Option, none, some, List, [], ◌∷◌,
  if◌then◌else◌,
}
use husk.Base.Bytes.{Str, str_eq}
use husk.Base.Outcome.{Outcome, ok, err}
use husk.Base.Action.{Errno, eexist, enoent, Error, errno, wrapped, message}

-- The operations of package os on the lease directory; an error or `none` beside the state after.
pub record LeaseDir (D : Type 0) : Type 0 where
  pub mkdir_all : D → Option Errno × D
  pub entries : D → Outcome Errno (List Str)
  pub read : D → Str → Outcome Errno Str
  -- os.OpenFile with O_CREATE | O_EXCL
  pub create_excl : D → Str → Option Errno × D
  -- WriteString to the file that was just created
  pub write : D → Str → Str → Option Errno × D
  pub remove : D → Str → Option Errno × D

-- net.IP with PutUint32, String and ParseIP.
pub record Addresses (A : Type 0) : Type 0 where
  pub of_word : ℕ → A
  pub show : A → Str
  pub parse : Str → Option A

-- An IPv4 *net.IPNet: the network address as a word, and the length of the mask.
pub record Subnet : Type 0 where
  pub ip : ℕ
  pub ones : ℕ

-- IPAM, without the directory; the base address is never read.
pub record Ipam : Type 0 where
  pub subnet : Option Subnet

-- NewIPAM, for what net.ParseCIDR gives.
unfoldable pub new_ipam : {A : Type 0} → Outcome Errno (A × Subnet) → Ipam
new_ipam (ok (base, net)) = record { subnet = some net }
new_ipam (err e) = record { subnet = none }

-- os.IsExist, os.IsNotExist
abbrev pub is_exist : Errno → Bool
is_exist eexist = true
is_exist _ = false

abbrev pub is_missing : Errno → Bool
is_missing enoent = true
is_missing _ = false

-- size - 1, both words of 32 bits.
unfoldable pub last_offset : Subnet → ℕ
last_offset net = (2 ^ (32 - net.ones) % 2 ^ 32 + (2 ^ 32 - 1)) % 2 ^ 32

module _ {D A : Type 0} (fs : LeaseDir D) (ad : Addresses A) where
  -- err == nil && string(owner) == containerID
  abbrev pub owned_by : Str → Outcome Errno Str → Bool
  owned_by id (ok owner) = str_eq owner id
  owned_by id (err e) = false

  abbrev pub or_next : Option A → Option A → Option A
  or_next (some ip) rest = some ip
  or_next none rest = rest

  -- The loop of leaseOf.
  unfoldable pub find_lease : Str → D → List Str → Option A
  find_lease id d [] = none
  find_lease id d (name ∷ names) =
      let rest = find_lease id d names in
      if owned_by id (fs.read d name) then or_next (ad.parse name) rest else rest

  abbrev pub lease_in : Str → D → Outcome Errno (List Str) → Option A
  lease_in id d (ok names) = find_lease id d names
  lease_in id d (err e) = none

  -- leaseOf
  unfoldable pub lease_of : Str → D → Option A
  lease_of id d = lease_in id d (fs.entries d)

  -- What follows WriteString.
  abbrev pub stored : A → Option Errno × D → Outcome Error A × D
  stored ip (none, d) = (ok ip, d)
  stored ip (some e, d) = (err (errno e), (fs.remove d (ad.show ip)).1)

  -- What follows OpenFile; `retry` is the rest of the loop.
  abbrev pub claimed : Str → A → (D → Outcome Error A × D) → Option Errno × D → Outcome Error A × D
  claimed id ip retry (none, d) = stored ip (fs.write d (ad.show ip) id)
  claimed id ip retry (some e, d) =
      if is_exist e then retry d else (err (wrapped "claim" (errno e)), d)

  -- The address at an offset: a word of 32 bits.
  abbrev pub address : Subnet → ℕ → A
  address net offset = ad.of_word ((net.ip + offset) % 2 ^ 32)

  -- The loop of Allocate, with `rest` offsets to go.
  unfoldable pub claim : Subnet → Str → ℕ → ℕ → D → Outcome Error A × D
  claim net id zero offset d = (err (message "no free addresses"), d)
  claim net id (suc rest) offset d =
      claimed id (address net offset) (claim net id rest (suc offset))
        (fs.create_excl d (ad.show (address net offset)))

  -- Reuse a lease, or scan from .2 on.
  abbrev pub reuse : Subnet → Str → D → Option A → Outcome Error A × D
  reuse net id d (some ip) = (ok ip, d)
  reuse net id d none = claim net id (last_offset net - 2) 2 d

  abbrev pub allocate_in : Subnet → Str → Option Errno × D → Outcome Error A × D
  allocate_in net id (some e, d) = (err (wrapped "create ipam dir" (errno e)), d)
  allocate_in net id (none, d) = reuse net id d (lease_of id d)

  abbrev pub allocate_for : Option Subnet → Str → D → Outcome Error A × D
  allocate_for none id d = (err (message "no subnet configured"), d)
  allocate_for (some net) id d = allocate_in net id (fs.mkdir_all d)

  -- Allocate
  unfoldable pub allocate : Ipam → Str → D → Outcome Error A × D
  allocate a id d = allocate_for a.subnet id d

  -- The loop of Release.
  unfoldable pub release_from : Str → D → List Str → Option Errno × D
  release_from id d [] = (none, d)
  release_from id d (name ∷ names) =
      let rest = release_from id d names in
      if owned_by id (fs.read d name) then fs.remove d name else rest

  abbrev pub release_in : Str → D → Outcome Errno (List Str) → Option Errno × D
  release_in id d (ok names) = release_from id d names
  release_in id d (err e) = (if is_missing e then none else some e, d)

  -- Release
  unfoldable pub release : Str → D → Option Errno × D
  release id d = release_in id d (fs.entries d)
