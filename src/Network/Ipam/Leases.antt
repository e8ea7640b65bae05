-- ===== src/Network/Ipam/Leases.antt =====
-- The leases that Allocate and Release leave behind: no lease is lost, and the address that is
-- handed out is the lowest free one.
use husk.Base.{
  ℕ, zero, suc, ◌-◌, true, ◌≡◌, ◌≢◌, ◌∙◌, refl, Option, none, some, [], arith, Bool-cases,
  Option-cases, inl, inr,
}
use husk.Base.Bytes.{Str, str_eq, str_eq_sound, str_eq_refl}
use husk.Base.Outcome.{Outcome, ok}
use husk.Base.Action.{Errno, Error}
use husk.Network.Ipam.{
  LeaseDir, Addresses, Subnet, Ipam, is_exist, last_offset, stored, claimed, address, claim, reuse,
  allocate_in, allocate_for, allocate, lease_of,
}

-- The files of a state, and what POSIX says the operations do to them.
pub record Lawful {D : Type 0} (fs : LeaseDir D) (file : D → Str → Option Str) : Type 0 where
  pub read_ok : (d : D) (n s : Str) → fs.read d n ≡ ok s → file d n ≡ some s
  pub mkdir_keeps : (d : D) (n : Str) → file (fs.mkdir_all d).1 n ≡ file d n
  pub create_ok :
      (d : D) (n : Str)
      → (fs.create_excl d n).0 ≡ none
      → (file d n ≡ none) × (file (fs.create_excl d n).1 n ≡ some [])
  pub create_err :
      (d : D) (n : Str) (e : Errno)
      → (fs.create_excl d n).0 ≡ some e
      → file (fs.create_excl d n).1 n ≡ file d n
  pub create_exist :
      (d : D) (n : Str) (e : Errno)
      → (fs.create_excl d n).0 ≡ some e
      → is_exist e ≡ true
      → file d n ≢ none
  pub create_keeps : (d : D) (n m : Str) → m ≢ n → file (fs.create_excl d n).1 m ≡ file d m
  pub write_ok :
      (d : D) (n s : Str)
      → (fs.write d n s).0 ≡ none
      → file d n ≡ some []
      → file (fs.write d n s).1 n ≡ some s
  pub write_keeps : (d : D) (n s m : Str) → m ≢ n → file (fs.write d n s).1 m ≡ file d m
  pub remove_ok : (d : D) (n : Str) → (fs.remove d n).0 ≡ none → file (fs.remove d n).1 n ≡ none
  pub remove_keeps : (d : D) (n m : Str) → m ≢ n → file (fs.remove d n).1 m ≡ file d m

module _ {D A : Type 0} (fs : LeaseDir D) (ad : Addresses A) (file : D → Str → Option Str)
    (laws : Lawful fs file) where
  -- A file that is there is not the one that O_EXCL creates.
  create-differs : (d : D) (n m s : Str) → file d n ≡ some s → (fs.create_excl d m).0 ≡ none → n ≢ m
  create-differs d n m s h c e = absurd (cc (laws.create_ok d m c).0)

  create-kept : (d : D) (n m s : Str) → file d n ≡ some s → file (fs.create_excl d m).1 n ≡ some s
  create-kept d n m s h = elim (Bool-cases (str_eq n m)) [
    | inr ne ↦ laws.create_keeps d m n (λ e. cc (str_eq_refl m)) ∙ h
    | inl same ↦ elim (Option-cases (fs.create_excl d m).0) [
      | inl c ↦ absurd (create-differs d n m s h c (str_eq_sound n m same))
      | inr (e, c) ↦ cc (laws.create_err d m e c, str_eq_sound n m same)
    ]
  ]

  claimed-keeps :
      (id n s : Str) (ip : A) (retry : D → Outcome Error A × D) (p : Option Errno × D)
      → file p.1 n ≡ some s
      → (p.0 ≡ none → n ≢ ad.show ip)
      → ((d : D) → file d n ≡ some s → file (retry d).1 n ≡ some s)
      → file (claimed fs ad id ip retry p).1 n ≡ some s
  claimed-keeps id n s ip retry (some e, d) h ne r = ground (arith, r d h)
  claimed-keeps id n s ip retry (none, d) h ne r =
      go (fs.write d (ad.show ip) id) (laws.write_keeps d (ad.show ip) id n (ne refl) ∙ h)
    where
      go : (q : Option Errno × D) → file q.1 n ≡ some s → file (stored fs ad ip q).1 n ≡ some s
      go (none, d2) k = k
      go (some e, d2) k = laws.remove_keeps d2 (ad.show ip) n (ne refl) ∙ k

  claim-keeps :
      (net : Subnet) (id : Str) (rest offset : ℕ) (d : D) (n s : Str)
      → file d n ≡ some s
      → file (claim fs ad net id rest offset d).1 n ≡ some s
  unfolding claim
  claim-keeps net id zero offset d n s h = h
  claim-keeps net id (suc rest) offset d n s h =
      let here = ad.show (address fs ad net offset) in
      claimed-keeps id n s (address fs ad net offset) (claim fs ad net id rest (suc offset))
        (fs.create_excl d here) (create-kept d n here s h) (create-differs d n here s h)
        (λ d2. claim-keeps net id rest (suc offset) d2 n s)

  allocate_in-keeps :
      (net : Subnet) (id : Str) (p : Option Errno × D) (n s : Str)
      → file p.1 n ≡ some s
      → file (allocate_in fs ad net id p).1 n ≡ some s
  allocate_in-keeps net id (some e, d) n s h = h
  allocate_in-keeps net id (none, d) n s h = go (lease_of fs ad id d)
    where
      go : (o : Option A) → file (reuse fs ad net id d o).1 n ≡ some s
      go none = claim-keeps net id (last_offset net - 2) 2 d n s h
      go (some ip) = h

  -- On every branch, errors included, Allocate leaves each lease that was there with its owner.
  pub allocate-keeps :
      (a : Ipam) (id : Str) (d : D) (n s : Str)
      → file d n ≡ some s
      → file (allocate fs ad a id d).1 n ≡ some s
  unfolding allocate
  allocate-keeps a id d n s h = go a.subnet
    where
      go : (o : Option Subnet) → file (allocate_for fs ad o id d).1 n ≡ some s
      go none = h
      go (some net) = allocate_in-keeps net id (fs.mkdir_all d) n s (laws.mkdir_keeps d n ∙ h)
