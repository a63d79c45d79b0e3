-- ===== src/Tunnel/Routing/Restore.antt =====
-- RestoreRouting gives the machine its default route back.
use mathlib.Core.Path.{subst}
use the_family_vpn.Base.{
  Bool-cases, Bytes, codes, text_eq, ◌≡◌, refl, sym, ap, ◌∙◌, inl, inr, Bool, true, false, some, [],
  ◌∷◌, ok,
}
use the_family_vpn.Tunnel.Routing.{
  Tun, delete_host_route, add_default, set_dns_servers, Host, attempt, route_all_traffic,
  delete_server_route, restore_ipv6, restore_routing_darwin, restore_routing_linux, restore_routing,
  set_v6_automatic, restore_failed,
}
use the_family_vpn.Tunnel.Routing.Default.{
  IsHost, runs_either, Continued_ok, must_ok, route_all_traffic_ok,
}

module _ {Net : Type 0} (host : Host Net) (law : IsHost host) where
  delete_server_route_lem :
      (server : Bytes) (t : Tun) (n : Net)
      → (m : Net) × (delete_server_route host server (t, n) ≡ (ok tt, (t, m)))
  unfolding delete_server_route attempt
  delete_server_route_lem server t n = elim (Bool-cases (text_eq server [])) [
    | inl none_given ↦ (n, rw none_given)
    | inr given ↦ ((host.run (delete_host_route server) n).1, rw given)
  ]

  restore_ipv6_lem :
      (b : Bool) (t : Tun) (n : Net)
      → (m : Net) × (restore_ipv6 host b (t, n) ≡ (ok tt, (t, m)))
        × (law.default_via m ≡ law.default_via n)
  unfolding restore_ipv6 attempt
  restore_ipv6_lem true t n = (_, refl, law.kept n set_v6_automatic refl)
  restore_ipv6_lem false t n = (n, refl, refl)

  abbrev Restores : Tun → Tun × Net → Type 0
  Restores t (u, m) = (law.default_via m ≡ some t.original_gw) × (u ≡ t)

  restore_routing_darwin_ok :
      (t : Tun) (n : Net) {b : Unit {0}} {s : Tun × Net}
      → restore_routing_darwin host t (t, n) ≡ (ok b, s)
      → Restores t s
  unfolding restore_routing_darwin attempt
  restore_routing_darwin_ok t n h =
      let (m, gone) = delete_server_route_lem t.server_public_ip t n in
      let (fine, rest) =
        Continued_ok host law (add_default t.original_gw) restore_failed t _ _ (rw gone at h) in
      let (k, last, same) = restore_ipv6_lem t.ipv6_was_enabled t _ in
      let now =
        same
        ∙ (law.kept _ (set_dns_servers (codes "Empty" ∷ [])) refl
            ∙ law.added _ t.original_gw fine) in
      subst (Restores t) (ap (λ x. x.1) (sym last ∙ rest)) (now, refl)

  restore_routing_linux_ok :
      (t : Tun) (n : Net) {b : Unit {0}} {s : Tun × Net}
      → restore_routing_linux host t (t, n) ≡ (ok b, s)
      → Restores t s
  unfolding restore_routing_linux attempt
  restore_routing_linux_ok t n h =
      let (m, gone) = delete_server_route_lem t.server_public_ip t n in
      let (fine, last) =
        must_ok host law (add_default t.original_gw) restore_failed t _ (rw gone at h) in
      subst (Restores t) last (law.added _ t.original_gw fine, refl)

  -- If RestoreRouting succeeds with a gateway remembered, the default route goes through that
  -- gateway, whatever it was before, and the device is as it was.
  pub restore_routing_ok :
      (t : Tun) (n : Net) {b : Unit {0}} {s : Tun × Net}
      → text_eq t.original_gw [] ≡ false
      → restore_routing host (t, n) ≡ (ok b, s)
      → Restores t s
  unfolding restore_routing
  restore_routing_ok t n given h =
      elim (runs_either host.is_darwin (restore_routing_darwin host t)
        (restore_routing_linux host t) (t, n) (rw given at h)) [
          | inl darwin ↦ restore_routing_darwin_ok t n darwin
          | inr linux ↦ restore_routing_linux_ok t n linux
        ]

  -- RouteAllTraffic and then RestoreRouting, both with success: the default route goes through the
  -- gateway that it had before, whatever happened to the network in between.
  pub restore_routing-route_all_traffic :
      (server gateway : Bytes) (t : Tun) (n m : Net) {b c : Unit {0}} {s r : Tun × Net}
      → text_eq gateway [] ≡ false
      → law.default_via n ≡ some gateway
      → route_all_traffic host server (t, n) ≡ (ok b, s)
      → restore_routing host (s.0, m) ≡ (ok c, r)
      → law.default_via r.1 ≡ some gateway
  restore_routing-route_all_traffic server gateway t n m {b} {c} {s} given before h back =
      let (_, (_, _, _, remembered, _)) =
        route_all_traffic_ok host law server gateway t n before h in
      let (now, _) = restore_routing_ok s.0 m (rw remembered given) back in now ∙ ap some remembered

  -- A second RouteAllTraffic before any RestoreRouting forgets the old gateway: it remembers the
  -- VPN's own, and that is the default route after the next RestoreRouting.
  pub route_all_traffic_twice :
      (server gateway : Bytes) (t : Tun) (n m : Net) {b c d : Unit {0}} {s r q : Tun × Net}
      → text_eq t.gateway_ip [] ≡ false
      → law.default_via n ≡ some gateway
      → route_all_traffic host server (t, n) ≡ (ok b, s)
      → route_all_traffic host server s ≡ (ok c, r)
      → restore_routing host (r.0, m) ≡ (ok d, q)
      → law.default_via q.1 ≡ some t.gateway_ip
  route_all_traffic_twice server gateway t n m {b} {c} {d} {s} {r} {q} given before first again
        back =
      let (now, _) = route_all_traffic_ok host law server gateway t n before first in
      restore_routing-route_all_traffic server t.gateway_ip s.0 s.1 m given now again back
