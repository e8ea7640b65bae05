-- ===== src/Network/Ipam/Owner.antt =====
-- A lease that was handed out is found again, and released.
use husk.Base.{
  ◌^◌, ◌-◌, true, false, ◌≡◌, ◌≢◌, ◌∙◌, sym, ap, refl, Option, none, some, List, [], ◌∷◌, arith,
  Bool-cases, inl, inr, any,
}
use husk.Base.Bytes.{Str, str_eq, str_eq_sound, str_eq_refl}
use husk.Base.Outcome.{Outcome, ok, err}
use husk.Base.Action.{Errno}
use husk.Network.Ipam.{
  LeaseDir, Addresses, Subnet, owned_by, allocate_in, allocate, lease_of, find_lease, release,
  release_from,
}
use husk.Network.Ipam.Leases.{Lawful}
use husk.Network.Ipam.Lowest.{IsLowest, allocate-IsLowest}

-- A directory that can be listed and read.
pub record Readable {D : Type 0} (fs : LeaseDir D) (file : D → Str → Option Str) (d : D)
    : Type 0 where
  pub names : List Str
  pub listed : fs.entries d ≡ ok names
  pub complete : (n s : Str) → file d n ≡ some s → any (str_eq n) names ≡ true
  pub reads : (n s : Str) → file d n ≡ some s → fs.read d n ≡ ok s

module _ {D A : Type 0} (fs : LeaseDir D) (ad : Addresses A) (file : D → Str → Option Str)
    (laws : Lawful fs file) (id : Str) (d : D) (mine : Str) (owns : fs.read d mine ≡ ok id)
    (only : (n : Str) → n ≢ mine → file d n ≢ some id) where
  not_owned : (n : Str) → n ≢ mine → owned_by fs ad id (fs.read d n) ≡ false
  not_owned n ne = go (fs.read d n) (laws.read_ok d n)
    where
      go :
          (r : Outcome Errno Str)
          → ((s : Str) → r ≡ ok s → file d n ≡ some s)
          → owned_by fs ad id r ≡ false
      go (err e) f = refl
      go (ok s) f = elim (Bool-cases (str_eq s id)) [
        | inr other ↦ other
        | inl same ↦ absurd (only n ne (rw (sym (str_eq_sound s id same)) (f s refl)))
      ]

  owned : owned_by fs ad id (fs.read d mine) ≡ true
  owned = rw owns (str_eq_refl id)

  find_lease-mine :
      (ip : A) (names : List Str)
      → ad.parse mine ≡ some ip
      → any (str_eq mine) names ≡ true
      → find_lease fs ad id d names ≡ some ip
  unfolding find_lease
  find_lease-mine ip [] p m = cc
  find_lease-mine ip (n ∷ names) p m = elim (Bool-cases (str_eq mine n)) [
    | inl same ↦ rw (sym (str_eq_sound mine n same), owned, p) refl
    | inr other ↦
        rw (not_owned n (λ e. cc (str_eq_refl mine))) (find_lease-mine ip names p (ground arith))
  ]

  release_from-mine :
      (names : List Str)
      → any (str_eq mine) names ≡ true
      → release_from fs ad id d names ≡ fs.remove d mine
  unfolding release_from
  release_from-mine [] m = cc
  release_from-mine (n ∷ names) m = elim (Bool-cases (str_eq mine n)) [
    | inl same ↦ rw (sym (str_eq_sound mine n same), owned) refl
    | inr other ↦
        rw (not_owned n (λ e. cc (str_eq_refl mine))) (release_from-mine names (ground arith))
  ]

module _ {D A : Type 0} (fs : LeaseDir D) (ad : Addresses A) (file : D → Str → Option Str)
    (laws : Lawful fs file) (net : Subnet) (id : Str) (d : D) (ip : A)
    (made : (fs.mkdir_all d).0 ≡ none) (fresh : lease_of fs ad id (fs.mkdir_all d).1 ≡ none)
    (no_file : (n : Str) → file d n ≢ some id)
    (given : (allocate fs ad (record { subnet = some net }) id d).0 ≡ ok ip) where
  abbrev after : D
  after = (allocate fs ad (record { subnet = some net }) id d).1

  got : IsLowest fs ad file net id 2 (2 ^ (32 - net.ones) - 1) d ip after
  got = allocate-IsLowest fs ad file laws net id d ip made fresh given

  others : (n : Str) → n ≢ ad.show ip → file after n ≡ file d n
  others = got.7

  mine_only : (n : Str) → n ≢ ad.show ip → file after n ≢ some id
  mine_only n ne h = no_file n (sym (others n ne) ∙ h)

  found :
      Readable fs file after → ad.parse (ad.show ip) ≡ some ip → lease_of fs ad id after ≡ some ip
  unfolding lease_of
  found r p = rw r.listed (
      find_lease-mine fs ad file laws id after (ad.show ip) (r.reads (ad.show ip) id got.6)
        mine_only ip r.names p (r.complete (ad.show ip) id got.6))

  -- The lease that Allocate made is the one that leaseOf finds afterwards, so that a second Allocate
  -- returns the same address and changes nothing.
  pub allocate-again :
      ad.parse (ad.show ip) ≡ some ip
      → Readable fs file after
      → (fs.mkdir_all after).0 ≡ none
      → (fs.mkdir_all after).1 ≡ after
      → allocate fs ad (record { subnet = some net }) id after ≡ (ok ip, after)
  unfolding allocate
  allocate-again p r m k = go (fs.mkdir_all after) m k
    where
      go :
          (q : Option Errno × D)
          → q.0 ≡ none
          → q.1 ≡ after
          → allocate_in fs ad net id q ≡ (ok ip, after)
      go (none, x) e f = rw (f, found r p) refl
      go (some y, x) e f = cc

  released : Readable fs file after → release fs ad id after ≡ fs.remove after (ad.show ip)
  unfolding release
  released r = rw r.listed (
      release_from-mine fs ad file laws id after (ad.show ip) (r.reads (ad.show ip) id got.6)
        mine_only r.names (r.complete (ad.show ip) id got.6))

  -- If a container without a lease, for which no file holds its id, gets an address from Allocate, and all
  -- files of the lease directory can then be read and the removal in Release succeeds, every file of the
  -- directory is as it was before Allocate.
  pub release-allocate :
      Readable fs file after
      → (release fs ad id after).0 ≡ none
      → (n : Str) → file (release fs ad id after).1 n ≡ file d n
  release-allocate r ok_removed n = rw (released r) (elim (Bool-cases (str_eq n (ad.show ip))) [
    | inl same ↦ rw (str_eq_sound n (ad.show ip) same) (
        laws.remove_ok after (ad.show ip)
          (ap (λ (q : Option Errno × D). q.0) (sym (released r)) ∙ ok_removed)
        ∙ sym got.4)
    | inr other ↦
        let differ : n ≢ ad.show ip = λ e. cc (str_eq_refl (ad.show ip)) in
        laws.remove_keeps after (ad.show ip) n differ ∙ others n differ
  ])
