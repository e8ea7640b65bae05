-- ===== src/Network/Ipam/Lowest.antt =====
-- The address that Allocate hands out.
use husk.Base.{
  ℕ, zero, suc, ◌+◌, ◌-◌, ◌^◌, ◌%◌, ◌≤◌, ◌<◌, Bool, true, false, ◌≡◌, ◌≢◌, ◌∙◌, sym, refl, Option,
  none, some, [], if◌then◌else◌, arith, Bool-cases, ◌⊎◌, inl, inr, ap,
}
use native.Mathlib.Nat.{pow-le-pow_right}
use husk.Base.Bytes.{Str, str_eq, str_eq_sound, str_eq_refl}
use husk.Base.Outcome.{Outcome, ok, err}
use husk.Base.Action.{Errno, Error, errno, wrapped}
use husk.Network.Ipam.{
  LeaseDir, Addresses, Subnet, is_exist, last_offset, stored, claimed, address, claim, reuse,
  allocate_in, allocate, lease_of,
}
use husk.Network.Ipam.Leases.{Lawful}

wrapped_size :
    (size : ℕ) → 1 ≤ size → size ≤ 2 ^ 32 → (size % 2 ^ 32 + (2 ^ 32 - 1)) % 2 ^ 32 ≡ size - 1
wrapped_size size low high = omega arith

-- The offset of the broadcast address, for every length of the prefix.
last_offset-broadcast : (net : Subnet) → last_offset net ≡ 2 ^ (32 - net.ones) - 1
unfolding last_offset
last_offset-broadcast net =
    let some_address : 1 ≤ 2 ^ (32 - net.ones) =
      pow-le-pow_right {n = 2} (omega arith) {i = 0} {j = 32 - net.ones} (omega arith) in
    let all_addresses : 2 ^ (32 - net.ones) ≤ 2 ^ 32 =
      pow-le-pow_right {n = 2} (omega arith) {i = 32 - net.ones} {j = 32} (omega arith) in
    wrapped_size (2 ^ (32 - net.ones)) some_address all_addresses

module _ {D A : Type 0} (fs : LeaseDir D) (ad : Addresses A) (file : D → Str → Option Str)
    (net : Subnet) where
  -- The lease of `id` at `ip` is new, and every offset from `first` to its own was taken.
  abbrev pub IsLowest : Str → ℕ → ℕ → D → A → D → Type 0
  IsLowest id first end d ip after =
      (offset : ℕ) × (first ≤ offset)
      × (offset < end)
      × (ip ≡ address fs ad net offset)
      × (file d (ad.show ip) ≡ none)
      × ((j : ℕ) → first ≤ j → j < offset → file d (ad.show (address fs ad net j)) ≢ none)
      × (file after (ad.show ip) ≡ some id)
      × ((n : Str) → n ≢ ad.show ip → file after n ≡ file d n)

module _ {D A : Type 0} (fs : LeaseDir D) (ad : Addresses A) (file : D → Str → Option Str)
    (laws : Lawful fs file) where
  create-same :
      (d : D) (n m : Str) (e : Errno)
      → (fs.create_excl d m).0 ≡ some e
      → file (fs.create_excl d m).1 n ≡ file d n
  create-same d n m e c = elim (Bool-cases (str_eq n m)) [
    | inr ne ↦ laws.create_keeps d m n (λ p. cc (str_eq_refl m))
    | inl same ↦ cc (laws.create_err d m e c, str_eq_sound n m same)
  ]

  -- The address at `offset` is taken: the lowest free one lies above it.
  skip :
      (net : Subnet) (id : Str) (offset end : ℕ) (d d2 after : D) (ip : A)
      → file d (ad.show (address fs ad net offset)) ≢ none
      → ((n : Str) → file d2 n ≡ file d n)
      → IsLowest fs ad file net id (suc offset) end d2 ip after
      → IsLowest fs ad file net id offset end d ip after
  skip net id offset end d d2 after ip taken same (k, ge, lt, at, free, below, mine, rest) = (
    k,
    omega arith,
    lt,
    at,
    sym (same (ad.show ip)) ∙ free,
    λ j lo hi. elim (above j lo) [
      | inl e ↦ λ h. taken (ap (λ (i : ℕ). file d (ad.show (address fs ad net i))) (sym e) ∙ h)
      | inr up ↦ λ h. below j up hi (same (ad.show (address fs ad net j)) ∙ h)
    ],
    mine,
    λ n ne. rest n ne ∙ same n,
  )
    where
      above : (j : ℕ) → offset ≤ j → (j ≡ offset) ⊎ (suc offset ≤ j)
      above j lo = ground arith

  claimed-IsLowest :
      (net : Subnet) (id : Str) (offset end : ℕ) (d : D) (ip : A) (retry : D → Outcome Error A × D)
      (p : Option Errno × D)
      → offset < end
      → (p.0 ≡ none
          → (file d (ad.show (address fs ad net offset)) ≡ none)
            × (file p.1 (ad.show (address fs ad net offset)) ≡ some []))
      → ((n : Str) → n ≢ ad.show (address fs ad net offset) → file p.1 n ≡ file d n)
      → ((e : Errno) → p.0 ≡ some e → (n : Str) → file p.1 n ≡ file d n)
      → ((e : Errno)
          → p.0 ≡ some e
          → is_exist e ≡ true
          → file d (ad.show (address fs ad net offset)) ≢ none)
      → ((retry p.1).0 ≡ ok ip → IsLowest fs ad file net id (suc offset) end p.1 ip (retry p.1).1)
      → (claimed fs ad id (address fs ad net offset) retry p).0 ≡ ok ip
      → IsLowest fs ad file net id offset end d ip
          (claimed fs ad id (address fs ad net offset) retry p).1
  claimed-IsLowest net id offset end d ip retry (none, d2) lt new kept same taken r h =
      go (fs.write d2 (ad.show (address fs ad net offset)) id)
        (λ w. laws.write_ok d2 (ad.show (address fs ad net offset)) id w (new refl).1)
        (λ n ne. laws.write_keeps d2 (ad.show (address fs ad net offset)) id n ne ∙ kept n ne) h
    where
      go :
          (q : Option Errno × D)
          → (q.0 ≡ none → file q.1 (ad.show (address fs ad net offset)) ≡ some id)
          → ((n : Str) → n ≢ ad.show (address fs ad net offset) → file q.1 n ≡ file d n)
          → (stored fs ad (address fs ad net offset) q).0 ≡ ok ip
          → IsLowest fs ad file net id offset end d ip (stored fs ad (address fs ad net offset) q).1
      go (none, d3) w o e =
          let at : address fs ad net offset ≡ ip = cc in
          (
            offset,
            omega arith,
            lt,
            sym at,
            ap (λ (x : A). file d (ad.show x)) (sym at) ∙ (new refl).0,
            λ j lo hi. omega arith,
            ap (λ (x : A). file d3 (ad.show x)) (sym at) ∙ w refl,
            λ n ne. o n (λ eq. ne (eq ∙ ap (λ (x : A). ad.show x) at)),
          )
      go (some x, d3) w o e = cc
  claimed-IsLowest net id offset end d ip retry (some e, d2) lt new kept same taken r h =
      go (is_exist e) (taken e refl) h
    where
      go :
          (b : Bool)
          → (b ≡ true → file d (ad.show (address fs ad net offset)) ≢ none)
          → (if b then retry d2 else (err (wrapped "claim" (errno e)), d2)).0 ≡ ok ip
          → IsLowest fs ad file net id offset end d ip
              (if b then retry d2 else (err (wrapped "claim" (errno e)), d2)).1
      go true t g = skip net id offset end d d2 (retry d2).1 ip (t refl) (same e refl) (r g)
      go false t g = cc

  claim-IsLowest :
      (net : Subnet) (id : Str) (rest offset : ℕ) (d : D) (ip : A)
      → (claim fs ad net id rest offset d).0 ≡ ok ip
      → IsLowest fs ad file net id offset (rest + offset) d ip (claim fs ad net id rest offset d).1
  unfolding claim
  claim-IsLowest net id zero offset d ip h = cc
  claim-IsLowest net id (suc rest) offset d ip h =
      let here = ad.show (address fs ad net offset) in
      claimed-IsLowest net id offset (suc rest + offset) d ip (claim fs ad net id rest (suc offset))
        (fs.create_excl d here) (omega arith) (laws.create_ok d here) (laws.create_keeps d here)
        (λ e c n. create-same d n here e c) (laws.create_exist d here)
        (λ g. widen (claim-IsLowest net id rest (suc offset) (fs.create_excl d here).1 ip g)) h
    where
      widen :
          {d1 d2 : D}
          → IsLowest fs ad file net id (suc offset) (rest + suc offset) d1 ip d2
          → IsLowest fs ad file net id (suc offset) (suc rest + offset) d1 ip d2
      widen (k, ge, lt, at, free, below, mine, rest) =
          (k, ge, omega arith, at, free, below, mine, rest)

  -- A container without a lease, whose IPAM has a subnet, gets, if it gets an address, the lowest offset
  -- from 2 whose file did not exist, and that offset lies below 2 ^ (32 - ones) - 1, that of the broadcast
  -- address; the file then holds the container's id, and no other file has changed.
  pub allocate-IsLowest :
      (net : Subnet) (id : Str) (d : D) (ip : A)
      → (fs.mkdir_all d).0 ≡ none
      → lease_of fs ad id (fs.mkdir_all d).1 ≡ none
      → (allocate fs ad (record { subnet = some net }) id d).0 ≡ ok ip
      → IsLowest fs ad file net id 2
          (2 ^ (32 - net.ones) - 1)
          d
          ip
          (allocate fs ad (record { subnet = some net }) id d).1
  unfolding allocate
  allocate-IsLowest net id d ip made fresh h =
      rw (sym (last_offset-broadcast net)) (go (fs.mkdir_all d) (laws.mkdir_keeps d) made fresh h)
    where
      scanned :
          (d1 : D)
          → ((n : Str) → file d1 n ≡ file d n)
          → IsLowest fs ad file net id 2
              (last_offset net - 2 + 2)
              d1
              ip
              (claim fs ad net id (last_offset net - 2) 2 d1).1
          → IsLowest fs ad file net id 2
              (last_offset net)
              d
              ip
              (claim fs ad net id (last_offset net - 2) 2 d1).1
      scanned d1 same (k, ge, lt, at, free, below, mine, rest) = (
        k,
        ge,
        omega arith,
        at,
        sym (same (ad.show ip)) ∙ free,
        λ j lo hi g. below j lo hi (same (ad.show (address fs ad net j)) ∙ g),
        mine,
        λ n ne. rest n ne ∙ same n,
      )

      found :
          (d1 : D) (o : Option A)
          → ((n : Str) → file d1 n ≡ file d n)
          → o ≡ none
          → (reuse fs ad net id d1 o).0 ≡ ok ip
          → IsLowest fs ad file net id 2 (last_offset net) d ip (reuse fs ad net id d1 o).1
      found d1 none same f g =
          scanned d1 same (claim-IsLowest net id (last_offset net - 2) 2 d1 ip g)
      found d1 (some x) same f g = cc

      go :
          (p : Option Errno × D)
          → ((n : Str) → file p.1 n ≡ file d n)
          → p.0 ≡ none
          → lease_of fs ad id p.1 ≡ none
          → (allocate_in fs ad net id p).0 ≡ ok ip
          → IsLowest fs ad file net id 2 (last_offset net) d ip (allocate_in fs ad net id p).1
      go (none, d1) same m f g = found d1 (lease_of fs ad id d1) same f g
      go (some e, d1) same m f g = cc
