-- ===== src/Vmnet/Identity.antt =====
-- What ReadConfig of pkg/vmnet/vmnet.go reports of an interface.
use vessel.Prelude.{String, ◌≡◌, refl, inl, inr, arith, some, List, ◌∷◌}
use vessel.Vmnet.Rollback.{Output-cases}
use vessel.Vmnet.{
  Namespace, printed, failed, PodNet, LinkRow, AddrInfo, config, show_link, show_addr, show_route,
  first_address, first_gateway, read_route, read_addr, read_config,
}

module _ {N : Type 0} (ns : Namespace N) where
  read_route-keeps :
      (cfg : PodNet) (n : N)
      → cfg.gateway ≡ ""
      → (gateway : String) × ((read_route ns cfg n).1 ≡ config (record cfg { gateway = gateway }))
        × ((e : String) → (ns.run show_route n).1 ≡ failed e → gateway ≡ "")
  unfolding read_route
  read_route-keeps cfg n none_yet = elim (Output-cases (ns.run show_route n).1) [
    | inl (text, o) ↦ (
      first_gateway (ns.decode_routes text),
      rw (o, read_route) refl,
      λ e x. absurd (ground (arith, o, x)),
    )
    | inr (why, o) ↦ (cfg.gateway, rw (o, read_route) refl, λ e x. none_yet)
  ]

  -- Where the link and the addresses of an interface can be read, ReadConfig succeeds, with or
  -- without a default route: it reports the first link's MAC and MTU and the first address, and no
  -- gateway where the route cannot be read.
  pub read_config-needs_no_route :
      (dev text text' : String) (link : LinkRow) (links : List LinkRow)
      (addrs : List (List AddrInfo)) (n : N)
      → (ns.run (show_link dev) n).1 ≡ printed text
      → ns.decode_links text ≡ some (link ∷ links)
      → (ns.run (show_addr dev) (ns.run (show_link dev) n).0).1 ≡ printed text'
      → ns.decode_addrs text' ≡ some addrs
      → (gateway : String) × ((read_config ns dev n).1
          ≡ config (record {
            ip = first_address addrs;
            mac = link.address;
            gateway = gateway;
            mtu = link.mtu;
          }))
        × ((e : String)
            → (ns.run show_route (ns.run (show_addr dev) (ns.run (show_link dev) n).0).0).1
              ≡ failed e
            → gateway ≡ "")
  unfolding read_config read_addr
  read_config-needs_no_route dev text text' link links addrs n linked parsed addressed parsed' =
      let after = (ns.run (show_addr dev) (ns.run (show_link dev) n).0).0 in
      let cfg : PodNet = record {
        ip = first_address addrs;
        mac = link.address;
        gateway = "";
        mtu = link.mtu;
      } in
      let (gateway, found, routeless) = read_route-keeps cfg after refl in
      (
        gateway,
        rw (linked, read_config)
            (rw (parsed, read_config) (rw (addressed, read_addr) (rw (parsed', read_addr) found))),
        routeless,
      )
