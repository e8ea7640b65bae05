-- ===== src/Network/Host/Unwound.antt =====
-- A failing Attach tries to take back the lease and the interfaces that it has.
use husk.Base.{◌≡◌, ◌⊎◌, inl, inr, ◌∙◌, refl, sym, ap, none, some, List, [], ◌∷◌, ◌++◌, arith}
use husk.Base.Bytes.{Str}
use husk.Base.Int.{ℤ}
use husk.Base.Outcome.{ok, err}
use husk.Base.Action.{Errno, Error, context}
use husk.Container.{PortMapping}
use husk.Kernel.{Kernel, Call, add_veth, find_link, delete_link, invoke}
use husk.Kernel.Runs.{Returns, context-Returns, invoke-Returns}
use husk.Network.Netfilter.{Bridge}
use husk.Network.Host.{
  Leases, Parsing, interface_names, ensure_bridge, on_error, dropped, host_resolvers, take_down,
  connect, plug, attach, default_mtu,
}
use husk.Kernel.Fails.{bind-Fails, call-Fails}
use husk.Network.Host.Cleanup.{
  interface_names-fit, on_error-Fails, on_error-Returns, plug_checked-fits,
}

module _ (b : Bridge) (p : Parsing) (leases : Leases) (k : Kernel) where
  taken_down : (id host : Str) (log : List Call) → (take_down b p leases id host k log).0 ≡ ok tt
  unfolding take_down
  taken_down id host log = ground arith

  -- Taking down deletes the link, if it is found, and then releases the lease.
  take_down-calls :
      (id host : Str) (log : List Call)
      → ((k.act log (find_link host) ≡ none)
          × ((take_down b p leases id host k log).1
              ≡ (leases.release id k ((log ++ find_link host ∷ []) ++ delete_link host ∷ [])).1))
        ⊎ (((x : Errno) × (k.act log (find_link host) ≡ some x))
            × ((take_down b p leases id host k log).1
                ≡ (leases.release id k (log ++ find_link host ∷ [])).1))
  unfolding take_down
  take_down-calls id host log = ground arith

  -- What was done when Attach fails behind the allocation.
  abbrev pub Unplugged :
      Str → Str → Str → ℤ → Str → List PortMapping → List Call → Error → List Call → Type 0
  Unplugged id host peer pid ip ports leased e after =
      let veth = add_veth host peer default_mtu in
      (((x : Errno) × (k.act leased veth ≡ some x))
        × (after ≡ (leases.release id k (leased ++ veth ∷ [])).1))
      ⊎ ((k.act leased veth ≡ none)
          × ((mid : List Call) × (connect b p leases id host peer pid ip ports k
                  (leased ++ veth ∷ [])
                ≡ (err e, mid))
              × (((k.act mid (find_link host) ≡ none)
                    × (after
                        ≡ (leases.release id k
                            ((mid ++ find_link host ∷ []) ++ delete_link host ∷ [])).1))
                  ⊎ (((x : Errno) × (k.act mid (find_link host) ≡ some x))
                      × (after ≡ (leases.release id k (mid ++ find_link host ∷ [])).1)))))

  plug-Unplugged :
      (id host peer : Str) (pid : ℤ) (ip : Str) (ports : List PortMapping) (log : List Call)
      {e : Error} {after : List Call}
      → plug b p leases id host peer pid ip ports k log ≡ (err e, after)
      → Unplugged id host peer pid ip ports log e after
  unfolding plug host_resolvers
  plug-Unplugged id host peer pid ip ports log {e} {after} h =
      let veth = add_veth host peer default_mtu in
      let make = context "create veth pair" (invoke veth) in
      let join = connect b p leases id host peer pid ip ports in
      elim (bind-Fails k (on_error make (dropped (leases.release id))) _ log h) [
        | inl q ↦
            let (mid, r, at) =
              on_error-Fails k make (dropped (leases.release id)) log (λ l. refl) q in
            let (same, refused) = call-Fails k "create veth pair" veth log r in
            inl (refused, rw same at at)
        | inr q ↦
            let (_, mid, r, rest) = q in
            let (same, accepted) = invoke-Returns veth k log (
              context-Returns "create veth pair" (invoke veth) k log
                (on_error-Returns k make (dropped (leases.release id)) log r)) in
            elim (bind-Fails k (on_error join (take_down b p leases id host)) _ mid rest) [
              | inl f ↦
                  let (end, g, at) =
                    on_error-Fails k join (take_down b p leases id host) mid (taken_down id host)
                      f in
                  inr (accepted, (end, rw same at g, rw at (take_down-calls id host end)))
              | inr f ↦ absurd (cc f.3)
            ]
      ]

  -- If Attach fails, then either the bridge could not be ensured, or no address was leased, or the veth pair
  -- was refused and the last thing done was to release the lease, or a step of `connect` failed and after it
  -- the link was looked for, deleted if it was found, and last the lease was released.
  pub attach-unwinds :
      (id : Str) (pid : ℤ) (ports : List PortMapping) (log : List Call) {e : Error}
      {after : List Call}
      → attach b p leases id pid ports k log ≡ (err e, after)
      → let (host, peer) = interface_names id in
        (ensure_bridge b p k log ≡ (err e, after))
        ⊎ ((bridged : List Call) × Returns (ensure_bridge b p) k log tt bridged
            × ((leases.allocate id k bridged ≡ (err e, after))
                ⊎ ((ip : Str) × (leased : List Call) × Returns
                      (leases.allocate id)
                      k
                      bridged
                      ip
                      leased
                    × Unplugged id host peer pid ip ports leased e after)))
  unfolding attach
  attach-unwinds id pid ports log {e} {after} h =
      let (host, peer) = interface_names id in
      let (host_fits, peer_fits) = interface_names-fit id in
      elim (bind-Fails k (ensure_bridge b p) _ log h) [
        | inl q ↦ inl q
        | inr q ↦
            let (_, bridged, r, rest) = q in
            elim (bind-Fails k (leases.allocate id) _ bridged rest) [
              | inl f ↦ inr (bridged, r, inl f)
              | inr f ↦
                  let (ip, leased, g, last) = f in
                  let plugged =
                    sym (
                      ap (λ m. m k leased)
                        (plug_checked-fits b p leases id (host, peer) pid ip ports host_fits
                          peer_fits))
                    ∙ last in
                  inr (
                    bridged,
                    r,
                    inr (ip, leased, g, plug-Unplugged id host peer pid ip ports leased plugged),
                  )
            ]
      ]
