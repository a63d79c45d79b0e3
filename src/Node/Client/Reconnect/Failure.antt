-- ===== src/Node/Client/Reconnect/Failure.antt =====
-- The default route after the client's connection has failed.
use mathlib.Core.Path.{subst}
use the_family_vpn.Base.{
  Bool-cases, if-true, if-false, Bytes, text_eq, Result, ◌≡◌, refl, sym, ap, ◌∙◌, ◌⊎◌, inl, inr,
  Bool, true, false, not, ◌&&◌, Option, none, some, [], ok, err,
}
use the_family_vpn.Tunnel.Routing.{Tun, Host, RouteError, restore_routing}
use the_family_vpn.Tunnel.Routing.Default.{IsHost}
use the_family_vpn.Tunnel.Routing.Restore.{restore_routing_ok}
use the_family_vpn.Node.Client.{LifecycleEvent, Client, record_event}
use the_family_vpn.Node.Client.Reconnect.{lost, routes_back, restore_routes, on_connection_failure}

module _ {Net : Type 0} (host : Host Net) (law : IsHost host)
    (split_host : Bytes → Option Bytes) where
  -- Routed no more, or still.
  abbrev Recovers : Bytes → Result RouteError (Unit {0}) → Bool → Bool → Net → Type 0
  Recovers gateway answer routed route_all n =
      ((routed ≡ true) × (route_all ≡ false) × (law.default_via n ≡ some gateway))
      ⊎ ((routed ≡ false) × (route_all ≡ true) × ((f : RouteError) × (answer ≡ err f)))

  routes_back_lem :
      (d : Client Net) (gateway : Bytes) (r : Result RouteError (Unit {0}) × (Tun × Net))
      → d.route_all ≡ true
      → ((u : Unit {0}) → r.0 ≡ ok u → law.default_via r.1.1 ≡ some gateway)
      → let x = routes_back host split_host d r in
        Recovers gateway r.0 x.0 (d.route_all && not x.0) x.1.net
  routes_back_lem d gateway (err e, s) routed back = inr (refl, rw routed refl, (e, refl))
  routes_back_lem d gateway (ok u, s) routed back = inl (refl, rw routed refl, back u refl)

  record_event_routes :
      (e : LifecycleEvent) (d : Client Net)
      → ((record_event e d).route_all ≡ d.route_all) × ((record_event e d).net ≡ d.net)
  record_event_routes e d = elim (Bool-cases d.has_store) [
    | inl has ↦ (
      ap {A = Client Net} (λ x. x.route_all) (if-true d.has_store _ d has),
      ap {A = Client Net} (λ x. x.net) (if-true d.has_store _ d has),
    )
    | inr none_there ↦ (
      ap {A = Client Net} (λ x. x.route_all) (if-false d.has_store _ d none_there),
      ap {A = Client Net} (λ x. x.net) (if-false d.has_store _ d none_there),
    )
  ]

  -- What restore_routes does, as one value of which the rest is a function.
  abbrev Given : Tun → Client Net → Bool × Client Net → Type 0
  Given t d x =
      Recovers t.original_gw ((restore_routing host (t, d.net)).0) x.0 (d.route_all && not x.0)
        x.1.net

  restore_routes_lem :
      (d : Client Net) (m : Option Tun) (t : Tun)
      → m ≡ some t
      → d.route_all ≡ true
      → text_eq t.original_gw [] ≡ false
      → Given t d (restore_routes host split_host m d)
  unfolding restore_routes
  restore_routes_lem d none t e routed given = cc
  restore_routes_lem d (some m) t e routed given =
      let same : m ≡ t = cc in
      let r = restore_routing host (t, d.net) in
      let shape =
        if-true d.route_all (routes_back host split_host d (restore_routing host (m, d.net)))
          (false, d) routed
        ∙ ap (λ x. routes_back host split_host d (restore_routing host (x, d.net))) same in
      subst (Given t d) (sym shape) (
        routes_back_lem d t.original_gw r routed
          λ u fine. (restore_routing_ok host law t d.net given (ap (λ x. (x, r.1)) fine)).0)

  -- When the connection of a routing client fails whose TUN device remembers a gateway, its flag says
  -- what became of the routes: if it is unset then the default route goes through the gateway that the
  -- TUN device remembers, which is the one that RouteAllTraffic has found last; the other case is that
  -- RestoreRouting has failed, and then the flag is still set.
  pub on_connection_failure_lem :
      (d : Client Net) (t : Tun)
      → d.tun ≡ some t
      → d.route_all ≡ true
      → text_eq t.original_gw [] ≡ false
      → let e = on_connection_failure host split_host d in
        ((e.route_all ≡ false) × (law.default_via e.net ≡ some t.original_gw))
        ⊎ ((e.route_all ≡ true)
            × ((f : RouteError) × ((restore_routing host (t, d.net)).0 ≡ err f)))
  unfolding on_connection_failure
  on_connection_failure_lem d t has routed given =
      let x = restore_routes host split_host d.tun d in
      let d2 = record x.1 { route_all = d.route_all && not x.0 } in
      let (flag, net) = record_event_routes (lost d x.0) d2 in
      elim (restore_routes_lem d d.tun t has routed given) [
        | inl (_, unset, back) ↦ inl (flag ∙ unset, ap law.default_via net ∙ back)
        | inr (_, still, why) ↦ inr (flag ∙ still, why)
      ]
