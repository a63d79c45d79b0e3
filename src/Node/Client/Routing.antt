-- ===== src/Node/Client/Routing.antt =====
-- The client's routing from the machine's side: where the default route goes.
use the_family_vpn.Base.{
  if-true, if-false, Bytes, text_eq, Result, ℕ, ◌≡◌, refl, sym, ap, ◌∙◌, inl, inr, Bool, true,
  false, not, Option, none, some, [], ok, err,
}
use the_family_vpn.Protocol.Types.{}
use the_family_vpn.Tunnel.Routing.{
  Tun, Host, RouteError, route_all_traffic, restore_routing, add_failed,
}
use the_family_vpn.Tunnel.Routing.Default.{IsHost, route_all_traffic_ok, route_all_traffic_err}
use the_family_vpn.Tunnel.Routing.Restore.{restore_routing-route_all_traffic}
use the_family_vpn.Node.Client.{
  Client, route_failed, rerouted, server_ip, route_through, enable_route_all, route_directly,
  disable_route_all, server_mode_only,
}
use the_family_vpn.Node.Client.Reconnect.{}

-- A client that is connected and does not route, and where its packets go.
pub record IsIdle {Net : Type 0} (via : Net → Option Bytes) (gateway : Bytes) (conn : ℕ) (t : Tun)
    (d : Client Net) : Type 0 where
  pub in_client_mode : d.server_mode ≡ false
  pub connected : d.vpn_conn ≡ some conn
  pub has_tun : d.tun ≡ some t
  pub direct : d.route_all ≡ false
  pub before : via d.net ≡ some gateway

module _ {Net : Type 0} (host : Host Net) (law : IsHost host)
    (split_host : Bytes → Option Bytes) where
  rerouted_ok :
      (b : Bool) (d e : Client Net) (u : Unit {0}) (r : Result RouteError (Unit {0}) × (Tun × Net))
      → rerouted b d r ≡ (ok u, e)
      → (r.0 ≡ ok tt) × (e ≡ record d { tun = some (r.1.0); net = r.1.1; route_all = b })
  rerouted_ok b d e u (err f, s) h = cc
  rerouted_ok b d e u (ok v, s) h = (refl, sym (ap (λ x. x.1) h))

  route_through_lem :
      (d : Client Net) (c : Option ℕ) (m : Option Tun) (conn : ℕ) (t : Tun)
      → c ≡ some conn
      → m ≡ some t
      → d.route_all ≡ false
      → route_through host split_host c m d
        ≡ rerouted true d (route_all_traffic host (server_ip host split_host d) (t, d.net))
  unfolding route_through
  route_through_lem d none m conn t e f g = cc
  route_through_lem d (some c) none conn t e f g = cc
  route_through_lem d (some c) (some m) conn t e f g =
      let same : m ≡ t = cc in
      if-false d.route_all _ _ g
      ∙ ap (λ x. rerouted true d (route_all_traffic host (server_ip host split_host d) (x, d.net)))
          same

  enable_route_all_shape :
      (gateway : Bytes) (conn : ℕ) (t : Tun) (d : Client Net)
      → IsIdle law.default_via gateway conn t d
      → enable_route_all host split_host d
        ≡ rerouted true d (route_all_traffic host (server_ip host split_host d) (t, d.net))
  unfolding enable_route_all
  enable_route_all_shape gateway conn t d idle =
      if-false d.server_mode _ _ idle.in_client_mode
      ∙ route_through_lem d d.vpn_conn d.tun conn t idle.connected idle.has_tun idle.direct

  rerouted_err :
      (b : Bool) (d e : Client Net) (f : RouteError)
      (r : Result RouteError (Unit {0}) × (Tun × Net))
      → rerouted b d r ≡ (err (route_failed f), e)
      → (r.0 ≡ err f) × (e ≡ record d { tun = some (r.1.0); net = r.1.1 })
  rerouted_err b d e f (err g, s) h = let same : g ≡ f = cc in (ap err same, sym (ap (λ x. x.1) h))
  rerouted_err b d e f (ok v, s) h = cc

  route_directly_lem :
      (d : Client Net) (m : Option Tun) (t : Tun)
      → m ≡ some t
      → d.route_all ≡ false
      → route_directly host split_host m d ≡ (ok tt, d)
  unfolding route_directly
  route_directly_lem d none t e f = cc
  route_directly_lem d (some m) t e f = if-true (not d.route_all) _ _ (ap not f)

  back_lem :
      (d : Client Net) (m : Option Tun) (t : Tun)
      → m ≡ some t
      → d.route_all ≡ true
      → route_directly host split_host m d ≡ rerouted false d (restore_routing host (t, d.net))
  unfolding route_directly
  back_lem d none t e f = cc
  back_lem d (some m) t e f =
      let same : m ≡ t = cc in
      if-false (not d.route_all) _ _ (ap not f)
      ∙ ap (λ x. rerouted false d (restore_routing host (x, d.net))) same

  -- Connected and with a default route, `vpn connect` that fails when the VPN's route is added leaves
  -- the machine without a default route, and the client's flag unset: `vpn disconnect` then succeeds
  -- without a command, and so the default route stays missing.
  pub enable_route_all_stranded :
      (gateway : Bytes) (conn : ℕ) (t : Tun) (d e : Client Net)
      → IsIdle law.default_via gateway conn t d
      → enable_route_all host split_host d ≡ (err (route_failed add_failed), e)
      → (law.default_via e.net ≡ none) × (disable_route_all host split_host e ≡ (ok tt, e))
  unfolding disable_route_all
  enable_route_all_stranded gateway conn t d e idle h =
      let (failed, after) =
        rerouted_err true d e add_failed _
          (sym (enable_route_all_shape gateway conn t d idle) ∙ h) in
      let r = route_all_traffic host (server_ip host split_host d) (t, d.net) in
      let (_, how) =
        route_all_traffic_err host law (server_ip host split_host d) gateway t d.net idle.before
          (ap (λ x. (x, r.1)) failed) in
      let lost : law.default_via r.1.1 ≡ none = elim how [
        | inl (other, _) ↦ cc
        | inr (_, none_left) ↦ none_left
      ] in
      (
        ap (λ x. law.default_via x.net) after ∙ lost,
        disabled (ap (λ x. x.server_mode) after ∙ idle.in_client_mode) (ap (λ x. x.tun) after)
            (ap (λ x. x.route_all) after ∙ idle.direct),
      )
    where
      disabled :
          {u : Tun}
          → e.server_mode ≡ false
          → e.tun ≡ some u
          → e.route_all ≡ false
          → disable_route_all host split_host e ≡ (ok tt, e)
      disabled {u} in_mode tun direct =
          if-false e.server_mode _ _ in_mode ∙ route_directly_lem e e.tun u tun direct

  -- Connected and with a default route, `vpn connect` and then `vpn disconnect`, both with success,
  -- give the machine the default route that it had.
  pub disable_route_all-enable_route_all :
      (gateway : Bytes) (conn : ℕ) (t : Tun) (d e f : Client Net) {b c : Unit {0}}
      → text_eq gateway [] ≡ false
      → IsIdle law.default_via gateway conn t d
      → enable_route_all host split_host d ≡ (ok b, e)
      → disable_route_all host split_host e ≡ (ok c, f)
      → (law.default_via e.net ≡ some t.gateway_ip)
        × (law.default_via f.net ≡ some gateway)
        × (f.route_all ≡ false)
  unfolding disable_route_all
  disable_route_all-enable_route_all gateway conn t d e f {b} {c} given idle on off =
      let (fine, after) =
        rerouted_ok true d e b _ (sym (enable_route_all_shape gateway conn t d idle) ∙ on) in
      let server = server_ip host split_host d in
      let r = route_all_traffic host server (t, d.net) in
      let went : r ≡ (ok tt, r.1) = ap (λ x. (x, r.1)) fine in
      let (routed, _) = route_all_traffic_ok host law server gateway t d.net idle.before went in
      let shape =
        if-false e.server_mode (err server_mode_only, e) (route_directly host split_host e.tun e)
          (ap (λ x. x.server_mode) after ∙ idle.in_client_mode)
        ∙ back_lem e e.tun (r.1.0) (ap (λ x. x.tun) after) (ap (λ x. x.route_all) after) in
      let (back, last) = rerouted_ok false e f c _ (sym shape ∙ off) in
      let q = restore_routing host (r.1.0, e.net) in
      let restored =
        restore_routing-route_all_traffic host law server gateway t d.net e.net given idle.before
          went (ap (λ x. (x, q.1)) back) in
      (
        ap (λ x. law.default_via x.net) after ∙ routed,
        ap (λ x. law.default_via x.net) last ∙ restored,
        ap (λ x. x.route_all) last,
      )
