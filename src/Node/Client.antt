-- ===== src/Node/Client.antt =====
-- internal/node/daemon.go in client mode, and the two handlers of internal/node/control.go that
-- switch routing: the state, and EnableRouteAll and DisableRouteAll with their callers.
pub mod Forward
pub mod Reconnect
pub mod Start
pub mod Routing
use the_family_vpn.Base.{
  if◌then◌else◌, Bytes, codes, Result, ℕ, Bool, true, false, not, ◌&&◌, Option, none, some, List,
  [], ◌∷◌, ◌++◌, ok, err,
}
use the_family_vpn.Protocol.Types.{
  GeoLocation, PeerInfo, PeerListEntry, DisconnectIntent, ReconnectInvite, Json,
}
use the_family_vpn.Protocol.Control.{make_disconnect_intent_message}
use the_family_vpn.Tunnel.Routing.{Tun, Host, RouteError, route_all_traffic, restore_routing}
use the_family_vpn.Node.Topology.{Topology}

-- A row that WriteLifecycleEvent adds, but for the uptime and the version.
pub record LifecycleEvent : Type 0 where
  pub event : Bytes
  pub reason : Bytes
  pub route_all : Bool
  pub route_restored : Bool

-- The fields of Daemon and its Config that the client's functions use, with the machine's network.
-- A connection is known by a number. `sent` is every packet given to WritePacket, `hellos` every
-- PeerInfo given to WriteHandshake, `waited` the nanoseconds slept, `updates` the calls of
-- HandleUpdateMessage.
pub record Client (Net : Type 0) : Type 0 where
  pub server_mode : Bool
  pub node_name : Bytes
  pub connect_to : Bytes
  pub vpn_address : Bytes
  pub route_all : Bool
  pub reconnect_count : ℕ
  pub hostname : Bytes
  pub our_public_ip : Bytes
  pub our_geo : Option GeoLocation
  pub version : Bytes
  pub tun : Option Tun
  pub net : Net
  pub vpn_conn : Option ℕ
  pub conn_failed : Bool
  pub server_restarting : Bool
  pub cancelled : Bool
  pub shut_down : Bool
  pub network_peers : List PeerListEntry
  pub topology : Topology
  pub bytes_in : ℕ
  pub bytes_out : ℕ
  pub has_store : Bool
  pub events : List LifecycleEvent
  pub sent : List (ℕ × Bytes)
  pub tun_out : List Bytes
  pub hellos : List PeerInfo
  pub waited : ℕ
  pub updates : ℕ

pub data ClientError : Type 0 where
  server_mode_only not_connected no_tun : ClientError
  route_failed : RouteError → ClientError

-- A function that may fail, with what it has done.
abbrev pub Done : Type 0 → Type 0
Done Net = Result ClientError (Unit {0}) × Client Net

-- The client after a routing function of its device.
abbrev pub rerouted :
    {Net : Type 0} → Bool → Client Net → Result RouteError (Unit {0}) × (Tun × Net) → Done Net
rerouted route_all d (err e, (t, n)) = (err (route_failed e), record d { tun = some t; net = n })
rerouted route_all d (ok _, (t, n)) =
    (ok tt, record d { tun = some t; net = n; route_all = route_all })

-- WriteLifecycleEvent, if there is a store
abbrev pub record_event : {Net : Type 0} → LifecycleEvent → Client Net → Client Net
record_event e d = if d.has_store then record d { events = d.events ++ e ∷ [] } else d

-- `if host, _, err := net.SplitHostPort(serverIP); err == nil { serverIP = host }`
abbrev pub host_or : Option Bytes → Bytes → Bytes
host_or none address = address
host_or (some host) address = host

module _ {Net : Type 0} (host : Host Net) (split_host : Bytes → Option Bytes) where
  unfoldable pub server_ip : Client Net → Bytes
  server_ip d = host_or (split_host d.connect_to) d.connect_to

  route_through : Option ℕ → Option Tun → Client Net → Done Net
  route_through none t d = (err not_connected, d)
  route_through (some conn) none d = (err not_connected, d)
  route_through (some conn) (some t) d =
      if d.route_all
      then (ok tt, d)
      else rerouted true d (route_all_traffic host (server_ip d) (t, d.net))

  -- EnableRouteAll
  unfoldable pub enable_route_all : Client Net → Done Net
  unfolding route_through
  enable_route_all d =
      if d.server_mode then (err server_mode_only, d) else route_through d.vpn_conn d.tun d

  unfoldable pub route_directly : Option Tun → Client Net → Done Net
  route_directly none d = (err no_tun, d)
  route_directly (some t) d =
      if not d.route_all then (ok tt, d) else rerouted false d (restore_routing host (t, d.net))

  -- DisableRouteAll
  unfoldable pub disable_route_all : Client Net → Done Net
  disable_route_all d = if d.server_mode then (err server_mode_only, d) else route_directly d.tun d

  -- handleReconnectInvite
  unfoldable pub handle_reconnect_invite : ReconnectInvite → Client Net → Client Net
  handle_reconnect_invite invite d =
      if invite.should_enable_routing && not d.route_all then (enable_route_all d).1 else d

-- ConnectionStatus, but for the time of the start.
pub record ConnectionStatus : Type 0 where
  pub connected : Bool
  pub route_all : Bool
  pub vpn_address : Bytes
  pub server_addr : Bytes

-- ConnectionResult: the status where it succeeds, the error where it does not.
abbrev pub Reply : Type 0
Reply = Result ClientError ConnectionStatus

abbrev pub is_connected : Option ℕ → Bool
is_connected none = false
is_connected (some conn) = true

-- getConnectionStatus
unfoldable pub get_connection_status : {Net : Type 0} → Client Net → ConnectionStatus
get_connection_status d = record {
  connected = is_connected d.vpn_conn;
  route_all = d.route_all;
  vpn_address = d.vpn_address;
  server_addr = d.connect_to;
}

abbrev pub reply : {Net : Type 0} → Done Net → Reply × Client Net
reply (err e, d) = (err e, d)
reply (ok _, d) = (ok (get_connection_status d), d)

abbrev pub send_intent : {Net : Type 0} → Json DisconnectIntent → Option ℕ → Client Net → Client Net
send_intent json none d = d
send_intent json (some conn) d =
    if d.route_all
    then record d {
      sent =
          d.sent
          ++ (
            conn,
            make_disconnect_intent_message json (record {
              node_name = d.hostname;
              vpn_address = d.vpn_address;
              reason = codes "user_request";
              route_all = d.route_all;
            }),
          )
            ∷ [];
    }
    else d

module _ {Net : Type 0} (host : Host Net) (split_host : Bytes → Option Bytes) where
  -- handleConnect
  unfoldable pub handle_connect : Client Net → Reply × Client Net
  handle_connect d = reply (enable_route_all host split_host d)

  -- handleDisconnect
  unfoldable pub handle_disconnect : Json DisconnectIntent → Client Net → Reply × Client Net
  handle_disconnect json d =
      reply (disable_route_all host split_host (send_intent json d.vpn_conn d))
