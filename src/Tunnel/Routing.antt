-- ===== src/Tunnel/Routing.antt =====
-- The routing commands of internal/tunnel/tun.go, run one after another. What a command does to the
-- machine's network is not in the repository: `Host` is the machine, with `Net` its state.
pub mod Default
pub mod Restore
use mathlib.Core.Option
use the_family_vpn.Base.{
  ◌==◌, if◌then◌else◌, Bytes, codes, text_eq, has_prefix, Result, or_err, Bool, true, false, ◌||◌,
  Option, none, some, List, [], ◌∷◌, map, ok, err,
}

-- A field of TUN is kept unless it is the device itself.
pub record Tun : Type 0 where
  pub name : Bytes
  pub local_ip : Bytes
  pub gateway_ip : Bytes
  pub original_gw : Bytes
  pub server_public_ip : Bytes
  pub ipv6_was_enabled : Bool

-- The command lines, on macOS and then on Linux. Both systems have a command for `delete_default`,
-- `add_host_route` and `delete_host_route`: route -n delete default and ip route del default, and so
-- on.
pub data Command : Type 0 where
  delete_default : Command
  add_host_route : (server gateway : Bytes) → Command
  delete_host_route : (server : Bytes) → Command
  -- route -n add -net default GATEWAY, ip route add default via GATEWAY
  add_default : (gateway : Bytes) → Command
  -- ip route add default via GATEWAY dev DEVICE, ip route del default dev DEVICE
  add_default_on : (gateway device : Bytes) → Command
  delete_default_on : (device : Bytes) → Command
  -- networksetup -setdnsservers Wi-Fi SERVERS, -setv6off Wi-Fi, -setv6automatic Wi-Fi
  set_dns_servers : List Bytes → Command
  set_v6_off set_v6_automatic : Command
  -- ifconfig DEVICE delete IP, ifconfig DEVICE IP GATEWAY up, route -n add -net SUBNET -interface
  -- DEVICE
  delete_address : (device ip : Bytes) → Command
  set_address : (device ip gateway : Bytes) → Command
  add_subnet_route : (subnet device : Bytes) → Command
  -- ip addr flush dev DEVICE, ip addr add IP/24 dev DEVICE
  flush_addresses : (device : Bytes) → Command
  add_address : (device ip : Bytes) → Command

-- The machine: whether a command succeeds and what it leaves, and the output of the two pipelines
-- that are read.
pub record Host (Net : Type 0) : Type 0 where
  pub is_darwin : Bool
  pub run : Command → Net → Bool × Net
  pub gateway_output : Net → Option Bytes
  pub wifi_info : Net → Option Bytes

pub data RouteError : Type 0 where
  no_gateway delete_failed add_failed restore_failed reconfigure_failed : RouteError

-- A function of TUN: it may fail, and what it has done by then stays done.
abbrev pub Action : Type 0 → Type 0 → Type 0
Action Net A = Tun × Net → Result RouteError A × (Tun × Net)

abbrev pub continue :
    {Net A B : Type 0}
    → Result RouteError A × (Tun × Net)
    → (A → Action Net B)
    → Result RouteError B × (Tun × Net)
continue (err e, s) next = (err e, s)
continue (ok a, s) next = next a s

infixl 5 ◌>>=◌ ◌>>◌
abbrev pub ◌>>=◌ : {Net A B : Type 0} → Action Net A → (A → Action Net B) → Action Net B
m >>= next = λ s. continue (m s) next

abbrev pub ◌>>◌ : {Net B : Type 0} → Action Net (Unit {0}) → Action Net B → Action Net B
m >> next = m >>= λ _. next

abbrev pub done : {Net : Type 0} → Action Net (Unit {0})
done s = (ok tt, s)

abbrev pub get_tun : {Net : Type 0} → Action Net Tun
get_tun s = (ok s.0, s)

abbrev pub set_tun : {Net : Type 0} → (Tun → Tun) → Action Net (Unit {0})
set_tun f (t, n) = (ok tt, (f t, n))

-- `if len(result) > 0 && result[len(result)-1] == '\n'`, then without it
unfoldable pub trim_newline : Bytes → Bytes
trim_newline [] = []
trim_newline (c ∷ []) = if c == 10 then [] else c ∷ []
trim_newline (c ∷ d ∷ s) = c ∷ trim_newline (d ∷ s)

-- strings.Contains
unfoldable pub contains : Bytes → Bytes → Bool
contains [] part = has_prefix [] part
contains (c ∷ s) part = has_prefix (c ∷ s) part || contains s part

finished :
    {Net : Type 0} → RouteError → Tun → Bool × Net → Result RouteError (Unit {0}) × (Tun × Net)
finished e t (true, n) = (ok tt, (t, n))
finished e t (false, n) = (err e, (t, n))

module _ {Net : Type 0} (host : Host Net) where
  -- A command whose failure is returned, and one whose failure is not.
  unfoldable pub must : Command → RouteError → Action Net (Unit {0})
  unfolding finished
  must c e (t, n) = finished e t (host.run c n)

  unfoldable pub attempt : Command → Action Net (Unit {0})
  attempt c (t, n) = (ok tt, (t, (host.run c n).1))

  -- GetDefaultGateway
  unfoldable pub get_default_gateway : Net → Option Bytes
  get_default_gateway n = Option.map trim_newline (host.gateway_output n)

  default_gateway : Action Net Bytes
  default_gateway (t, n) = (or_err (get_default_gateway n) no_gateway, (t, n))

  ipv6_enabled : Option Bytes → Bool → Bool
  ipv6_enabled none before = before
  ipv6_enabled (some output) before =
      contains output (codes "IPv6: Automatic") || contains output (codes "IPv6: Manual")

  check_ipv6 : Action Net (Unit {0})
  unfolding ipv6_enabled
  check_ipv6 (t, n) = (
    ok tt,
    (record t { ipv6_was_enabled = ipv6_enabled (host.wifi_info n) t.ipv6_was_enabled }, n),
  )

  -- routeAllTrafficDarwin
  unfoldable pub route_all_traffic_darwin : Bytes → Action Net (Unit {0})
  unfolding check_ipv6
  route_all_traffic_darwin server_public_ip = do
    set_tun λ t. record t { server_public_ip = server_public_ip }
    t ← get_tun
    attempt (add_host_route server_public_ip t.original_gw)
    must delete_default delete_failed
    must (add_default t.gateway_ip) add_failed
    attempt (set_dns_servers (codes "1.1.1.1" ∷ codes "8.8.8.8" ∷ []))
    check_ipv6
    attempt set_v6_off

  -- routeAllTrafficLinux
  unfoldable pub route_all_traffic_linux : Bytes → Action Net (Unit {0})
  route_all_traffic_linux server_public_ip = do
    set_tun λ t. record t { server_public_ip = server_public_ip }
    t ← get_tun
    attempt (add_host_route server_public_ip t.original_gw)
    must delete_default delete_failed
    must (add_default_on t.gateway_ip t.name) add_failed

  -- RouteAllTraffic
  unfoldable pub route_all_traffic : Bytes → Action Net (Unit {0})
  unfolding default_gateway
  route_all_traffic server_public_ip = do
    gw ← default_gateway
    set_tun λ t. record t { original_gw = gw }
    if host.is_darwin
        then route_all_traffic_darwin server_public_ip
        else route_all_traffic_linux server_public_ip

  delete_server_route : Bytes → Action Net (Unit {0})
  delete_server_route server =
      if text_eq server [] then done else attempt (delete_host_route server)

  restore_ipv6 : Bool → Action Net (Unit {0})
  restore_ipv6 true = attempt set_v6_automatic
  restore_ipv6 false = done

  unfoldable pub restore_routing_darwin : Tun → Action Net (Unit {0})
  unfolding delete_server_route restore_ipv6
  restore_routing_darwin t = do
    delete_server_route t.server_public_ip
    attempt delete_default
    must (add_default t.original_gw) restore_failed
    attempt (set_dns_servers (codes "Empty" ∷ []))
    restore_ipv6 t.ipv6_was_enabled

  unfoldable pub restore_routing_linux : Tun → Action Net (Unit {0})
  unfolding delete_server_route
  restore_routing_linux t = do
    delete_server_route t.server_public_ip
    attempt (delete_default_on t.name)
    must (add_default t.original_gw) restore_failed

  -- RestoreRouting
  unfoldable pub restore_routing : Action Net (Unit {0})
  restore_routing = do
    t ← get_tun
    if text_eq t.original_gw []
        then done
        else if host.is_darwin
        then restore_routing_darwin t
        else restore_routing_linux t

  reconfigure_darwin : Tun → Action Net (Unit {0})
  reconfigure_darwin t = do
    attempt (delete_address t.name t.local_ip)
    must (set_address t.name t.local_ip t.gateway_ip) reconfigure_failed
    attempt (add_subnet_route (codes "10.8.0.0/24") t.name)

  reconfigure_linux : Tun → Action Net (Unit {0})
  reconfigure_linux t = do
    attempt (flush_addresses t.name)
    must (add_address t.name t.local_ip) reconfigure_failed

  -- Reconfigure
  unfoldable pub reconfigure : Bytes → Action Net (Unit {0})
  unfolding reconfigure_darwin reconfigure_linux
  reconfigure new_local_ip = do
    old ← get_tun
    if text_eq new_local_ip old.local_ip then done else do
      set_tun λ t. record t { local_ip = new_local_ip }
      t ← get_tun
      if host.is_darwin then reconfigure_darwin t else reconfigure_linux t
