-- ===== src/Examples/ClientExamples.antt =====
-- A machine whose network is its default route, and a client on it.
use the_family_vpn.Base.{
  ◌==◌, if◌then◌else◌, Bytes, codes, text_eq, lookup, insert, ℕ, ◌≡◌, refl, ap, ◌⊎◌, Bool, true,
  false, Option, none, some, [], ◌∷◌, ◌++◌, ok, err,
}
use the_family_vpn.Protocol.Control.{make_disconnect_ack_message}
use the_family_vpn.Store.Clients.{
  ClientStates, set_client_connected, get_client_state, connected_routing, disconnected_intentional,
}
use the_family_vpn.Store.Clients.Intent.{status_of}
use the_family_vpn.Tunnel.Routing.{
  delete_address, flush_addresses, Tun, Command, Host, RouteError, trim_newline, must, attempt,
  get_default_gateway, route_all_traffic_linux, route_all_traffic, restore_routing_linux,
  restore_routing, delete_default, add_default, add_default_on, delete_default_on, add_failed,
}
use the_family_vpn.Tunnel.Routing.Default.{may_move_default, IsHost, Fails, route_all_traffic_err}
use the_family_vpn.Tunnel.Routing.Restore.{
  restore_routing-route_all_traffic, route_all_traffic_twice,
}
use the_family_vpn.Node.Topology.{new_network_topology}
use the_family_vpn.Node.Server.{Codecs, Server, handle_client_packet}
use the_family_vpn.Node.Server.Goodbye.{our_intent, handle_client_packet-handle_disconnect}
use the_family_vpn.Node.Client.{
  Client, server_ip, enable_route_all, route_directly, disable_route_all, handle_disconnect,
  route_failed,
}
use the_family_vpn.Node.Client.Routing.{
  IsIdle, enable_route_all_stranded, disable_route_all-enable_route_all,
}
use the_family_vpn.Node.Client.Reconnect.{
  Attempt, max_retries, attempt_reconnect, on_connection_failure,
}
use the_family_vpn.Node.Client.Reconnect.Attempts.{Ends, attempt_reconnect-Ends}
use the_family_vpn.Node.Client.Reconnect.Failure.{on_connection_failure_lem}
use the_family_vpn.Examples.MessageExamples.{only}
use the_family_vpn.Examples.ServerExamples.{home}

abbrev Network : Type 0
Network = Option Bytes

abbrev remove : Network → Bool × Network
remove none = (false, none)
remove (some gateway) = (true, none)

abbrev add : Bytes → Network → Bool × Network
add gateway none = (true, some gateway)
add gateway (some other) = (false, some other)

-- `works` says whether a route through a device can be added.
abbrev execute : Bool → Command → Network → Bool × Network
execute works delete_default n = remove n
execute works (delete_default_on device) n = remove n
execute works (add_default gateway) n = add gateway n
execute true (add_default_on gateway device) n = add gateway n
execute false (add_default_on gateway device) n = (false, n)
execute works other n = (true, n)

abbrev print : Network → Option Bytes
print none = some []
print (some gateway) = some (gateway ++ 10 ∷ [])

abbrev machine : Bool → Host Network
machine works = record {
  is_darwin = false;
  run = execute works;
  gateway_output = print;
  wifi_info = λ n. none;
}

remove_lem : (n : Network) → (remove n).0 ≡ true → (remove n).1 ≡ none
remove_lem none h = refl
remove_lem (some g) h = refl

add_lem : (g : Bytes) (n : Network) → (add g n).0 ≡ true → (add g n).1 ≡ some g
add_lem g none h = refl
add_lem g (some k) h = cc

remove_failed : (n : Network) → (remove n).0 ≡ false → (remove n).1 ≡ n
remove_failed none h = refl
remove_failed (some g) h = cc

add_failed_lem : (g : Bytes) (n : Network) → (add g n).0 ≡ false → (add g n).1 ≡ n
add_failed_lem g none h = cc
add_failed_lem g (some k) h = refl

prints : (n : Network) (g : Bytes) → n ≡ some g → print n ≡ some (g ++ 10 ∷ [])
prints none g h = cc
prints (some k) g h = ap (λ o. print o) h

added_on_lem :
    (works : Bool) (n : Network) (g device : Bytes)
    → (execute works (add_default_on g device) n).0 ≡ true
    → (execute works (add_default_on g device) n).1 ≡ some g
added_on_lem true n g device h = add_lem g n h
added_on_lem false n g device h = cc

failed_lem :
    (works : Bool) (n : Network) (c : Command)
    → (execute works c n).0 ≡ false
    → (execute works c n).1 ≡ n
failed_lem works n delete_default h = remove_failed n h
failed_lem works n (delete_default_on device) h = remove_failed n h
failed_lem works n (add_default g) h = add_failed_lem g n h
failed_lem true n (add_default_on g device) h = add_failed_lem g n h
failed_lem false n (add_default_on g device) h = refl
failed_lem works n other h = refl

kept_lem :
    (works : Bool) (n : Network) (c : Command)
    → may_move_default c ≡ false
    → (execute works c n).1 ≡ n
kept_lem works n delete_default h = cc
kept_lem works n (delete_default_on device) h = cc
kept_lem works n (add_default g) h = cc
kept_lem works n (add_default_on g device) h = cc
kept_lem works n (delete_address device ip) h = cc
kept_lem works n (flush_addresses device) h = cc
kept_lem works n other h = refl

abbrev machine_laws : (works : Bool) → IsHost (machine works)
machine_laws works = record {
  default_via = λ n. n;
  printed = prints;
  deleted = remove_lem;
  added = λ n g h. add_lem g n h;
  added_on = added_on_lem works;
  failed = failed_lem works;
  kept = kept_lem works;
}

abbrev device : Tun
device = record {
  name = codes "tun0";
  local_ip = codes "10.8.0.2";
  gateway_ip = codes "10.8.0.1";
  original_gw = [];
  server_public_ip = [];
  ipv6_was_enabled = false;
}

abbrev server : Bytes
server = codes "192.0.2.1"

abbrev router : Bytes
router = codes "192.168.1.1"

abbrev routing_device : Tun
routing_device = record device { original_gw = router; server_public_ip = server }

router_given : text_eq router [] ≡ false
unfolding text_eq
router_given = refl

vpn_given : text_eq (codes "10.8.0.1") [] ≡ false
unfolding text_eq
vpn_given = refl

routes :
    route_all_traffic (machine true) server (device, some router)
    ≡ (ok tt, (routing_device, some (codes "10.8.0.1")))
unfolding route_all_traffic route_all_traffic_linux get_default_gateway trim_newline attempt must
routes = refl

routes_again :
    route_all_traffic (machine true) server (routing_device, some (codes "10.8.0.1"))
    ≡ (ok tt, (record routing_device { original_gw = codes "10.8.0.1" }, some (codes "10.8.0.1")))
unfolding route_all_traffic route_all_traffic_linux get_default_gateway trim_newline attempt must
routes_again = refl

restores :
    restore_routing (machine true) (routing_device, some (codes "10.8.0.1"))
    ≡ (ok tt, (routing_device, some router))
unfolding restore_routing restore_routing_linux attempt must text_eq
restores = refl

restores_vpn :
    restore_routing
      (machine true)
      (record routing_device { original_gw = codes "10.8.0.1" }, some (codes "10.8.0.1"))
    ≡ (ok tt, (record routing_device { original_gw = codes "10.8.0.1" }, some (codes "10.8.0.1")))
unfolding restore_routing restore_routing_linux attempt must text_eq
restores_vpn = refl

restore_routing-route_all_traffic_example : some router ≡ some router
restore_routing-route_all_traffic_example =
    restore_routing-route_all_traffic (machine true) (machine_laws true) server router device
      (some router) (some (codes "10.8.0.1")) router_given refl routes restores

route_all_traffic_twice_example : some (codes "10.8.0.1") ≡ some (codes "10.8.0.1")
route_all_traffic_twice_example =
    route_all_traffic_twice (machine true) (machine_laws true) server router device (some router)
      (some (codes "10.8.0.1")) vpn_given refl routes routes_again restores_vpn

strands :
    route_all_traffic (machine false) server (device, some router)
    ≡ (err add_failed, (routing_device, none))
unfolding route_all_traffic route_all_traffic_linux get_default_gateway trim_newline attempt must
strands = refl

route_all_traffic_err_example :
    Fails
      (machine false)
      (machine_laws false)
      router
      (some router)
      add_failed
      (routing_device, none)
route_all_traffic_err_example =
    route_all_traffic_err (machine false) (machine_laws false) server router device (some router)
      refl strands

abbrev split : Bytes → Option Bytes
split address = some server

abbrev node : Client Network
node = record {
  server_mode = false;
  node_name = codes "laptop";
  connect_to = codes "192.0.2.1:443";
  vpn_address = codes "10.8.0.2";
  route_all = false;
  reconnect_count = 0;
  hostname = codes "laptop";
  our_public_ip = [];
  our_geo = none;
  version = codes "1.0";
  tun = some device;
  net = some router;
  vpn_conn = some 5;
  conn_failed = false;
  server_restarting = false;
  cancelled = false;
  shut_down = false;
  network_peers = [];
  topology = new_network_topology 0 (codes "10.8.0.2") (codes "laptop");
  bytes_in = 0;
  bytes_out = 0;
  has_store = true;
  events = [];
  sent = [];
  tun_out = [];
  hellos = [];
  waited = 0;
  updates = 0;
}

abbrev routing_node : Client Network
routing_node = record node {
  tun = some routing_device;
  net = some (codes "10.8.0.1");
  route_all = true;
}

abbrev stranded_node : Client Network
stranded_node = record node { tun = some routing_device; net = none }

node-IsIdle : IsIdle {Net = Network} (λ n. n) router 5 device node
node-IsIdle = record {
  in_client_mode = refl;
  connected = refl;
  has_tun = refl;
  direct = refl;
  before = refl;
}

fails_to_enable :
    enable_route_all (machine false) split node ≡ (err (route_failed add_failed), stranded_node)
unfolding enable_route_all server_ip route_all_traffic route_all_traffic_linux get_default_gateway
    trim_newline attempt must
fails_to_enable = refl

enable_route_all_stranded_example :
    (◌≡◌ {A = Option Bytes} none none)
    × (disable_route_all (machine false) split stranded_node ≡ (ok tt, stranded_node))
enable_route_all_stranded_example =
    enable_route_all_stranded (machine false) (machine_laws false) split router 5 device node
      stranded_node node-IsIdle fails_to_enable

enables : enable_route_all (machine true) split node ≡ (ok tt, routing_node)
unfolding enable_route_all server_ip route_all_traffic route_all_traffic_linux get_default_gateway
    trim_newline attempt must
enables = refl

abbrev direct_node : Client Network
direct_node = record routing_node { net = some router; route_all = false }

disables : disable_route_all (machine true) split routing_node ≡ (ok tt, direct_node)
unfolding disable_route_all route_directly restore_routing restore_routing_linux attempt must
    text_eq
disables = refl

disable_route_all-enable_route_all_example :
    (some (codes "10.8.0.1") ≡ some (codes "10.8.0.1"))
    × (some router ≡ some router)
    × (false ≡ false)
disable_route_all-enable_route_all_example =
    disable_route_all-enable_route_all (machine true) (machine_laws true) split router 5 device node
      routing_node direct_node router_given node-IsIdle enables disables

on_connection_failure_lem_example :
    let e = on_connection_failure (machine true) split routing_node in
    ((e.route_all ≡ false) × (e.net ≡ some router))
    ⊎ ((e.route_all ≡ true)
        × ((f : RouteError) × ((restore_routing
                (machine true)
                (routing_device, some (codes "10.8.0.1"))).0
              ≡ err f)))
on_connection_failure_lem_example =
    on_connection_failure_lem (machine true) (machine_laws true) split routing_node routing_device
      refl refl router_given

-- The third attempt goes through.
meets : ℕ → Attempt
meets k = record {
  cancelled_before = false;
  cancelled_after = false;
  dialled = if k == 3 then some 9 else none;
  hello_sent = true;
  assigned_ip = some (codes "10.8.0.2");
}

attempt_reconnect-Ends_example :
    Ends
      (machine true)
      split
      max_retries
      1
      meets
      node
      (attempt_reconnect (machine true) split meets true node)
attempt_reconnect-Ends_example = attempt_reconnect-Ends (machine true) split meets true node

abbrev codecs : Codecs
codecs = record {
  peer_list = only [] [];
  disconnect_intent = only (our_intent routing_node) (123 ∷ []);
  reconnect_invite =
      only (record { server_name = []; reason = []; should_enable_routing = true }) [];
}

abbrev table : ClientStates
table = set_client_connected 5 (codes "10.8.0.2") (codes "laptop") true []

abbrev home_with_row : Server
home_with_row = record home { store = some table }

has_row : status_of (codes "10.8.0.2") table ≡ some connected_routing
unfolding status_of get_client_state set_client_connected lookup insert text_eq
has_row = refl

reads_back : codecs.disconnect_intent.unmarshal (123 ∷ []) ≡ some (our_intent routing_node)
unfolding text_eq
reads_back = refl

handle_client_packet-handle_disconnect_example :
    (packet : Bytes) × (t : ClientStates) × ((handle_disconnect
        (machine true)
        split
        codecs.disconnect_intent
        routing_node).1.sent
      ≡ [] ++ (5, packet) ∷ [])
    × ((handle_client_packet codecs 6 5 (codes "10.8.0.2") packet home_with_row).store ≡ some t)
    × (status_of (codes "10.8.0.2") t ≡ some disconnected_intentional)
    × ((handle_client_packet codecs 6 5 (codes "10.8.0.2") packet home_with_row).sent
        ≡ [] ++ (5, make_disconnect_ack_message) ∷ [])
handle_client_packet-handle_disconnect_example =
    handle_client_packet-handle_disconnect (machine true) split codecs routing_node home_with_row 6
      5 5 (codes "10.8.0.2") (123 ∷ []) table refl refl refl reads_back refl has_row
