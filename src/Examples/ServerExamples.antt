-- ===== src/Examples/ServerExamples.antt =====
-- A server with one client or none, and a pool with no room.
use native.Mathlib.Decide.{ℕ_discrete}
use the_family_vpn.Base.{
  Bytes, codes, text_eq, text_eq_refl, has_prefix, decimal, lookup, insert, Dict, ℕ, zero, suc, ◌+◌,
  ◌-◌, ◌≤◌, ◌<◌, ◌≡◌, refl, sym, ◌⊎◌, Bool, true, false, Option, none, some, [], ◌∷◌, ◌++◌, arith,
  ok,
}
use the_family_vpn.Store.Clients.{get_client_state}
use the_family_vpn.Protocol.Types.{Json}
use the_family_vpn.Examples.MessageExamples.{laptop, only, goodbye}
use the_family_vpn.Protocol.Control.{
  starts_with, is_control_message, extract_control_command, make_control_message,
  is_disconnect_intent_message, make_message, parse_message, make_disconnect_intent_message,
  parse_disconnect_intent_message, make_reconnect_invite_message,
}
use the_family_vpn.Tunnel.Packet.{Ipv4, get_destination_ip}
use the_family_vpn.Store.Clients.Intent.{status_of, was_routing, connect, intent}
use the_family_vpn.Node.Address.{
  Peer, Addresses, vpn_ip, in_use, bump, find_unused, is_empty, remember, may_share, first_ip,
  assign_new, public_entry, assign_ip,
}
use the_family_vpn.Node.Address.Cases.{InPool, IsValid, HasRoom}
use the_family_vpn.Node.Address.Pool.{
  assign_ip-InPool, assign_ip-may_share, assign_ip_again, assign_ip_full,
}
use the_family_vpn.Node.Topology.Distances.{recalculate_distances_total}
use the_family_vpn.Node.Topology.{Topology, new_network_topology, recalculate_distances}
use the_family_vpn.Node.Server.{
  Codecs, Server, Hello, broadcast_peer_list, register, deserves_invite, record_connection,
  accept_client, drop_client, handle_server_control_message, handle_client_packet, ip_text,
  route_tun_packet,
}
use the_family_vpn.Node.Server.Registry.{IsConsistent, Registers, accept_client_lem}
use the_family_vpn.Node.Server.Delivery.{Delivers, HasNoPeer, route_tun_packet_lem}
use the_family_vpn.Node.Server.Stale.{stale_cleanup}
use the_family_vpn.Node.Server.Crash.{invite_after_crash-Steps}
use the_family_vpn.Protocol.Control.{
  starts_with, is_control_message, extract_control_command, make_control_message,
  is_disconnect_intent_message, make_message, parse_message, make_disconnect_intent_message,
  parse_disconnect_intent_message, make_reconnect_invite_message,
}
use the_family_vpn.Node.Server.Invites.{
  greeted, calls_of, Steps, no_invite_after_intent-Steps, accepted, packet, here, next,
}

abbrev start : Addresses
start = record { next_ip = 2; hostname_to_ip = [] }

start-IsValid : IsValid start
unfolding lookup
start-IsValid = record { next_low = omega arith; next_high = omega arith; known = λ k ip h. cc }

abbrev someone : Peer
someone = record {
  name = codes "desktop";
  vpn_address = [];
  public_addr = [];
  os = [];
  geo = none;
  bytes_in = 0;
  bytes_out = 0;
}

one_peer : Dict Peer
one_peer = (vpn_ip 2, someone) ∷ []

room : in_use one_peer (vpn_ip 3) ≡ false
unfolding one_peer in_use vpn_ip decimal lookup text_eq
room = refl

abbrev first_given : Addresses
first_given = record {
  next_ip = 4;
  hostname_to_ip = (codes "laptop", vpn_ip 3) ∷ (codes "ip:198.51.100.7", vpn_ip 3) ∷ [];
}

gives_third :
    assign_ip one_peer (codes "laptop") (codes "198.51.100.7") start ≡ some (vpn_ip 3, first_given)
unfolding assign_ip one_peer in_use vpn_ip decimal lookup text_eq find_unused bump remember insert
    assign_new first_ip
gives_third = refl

assign_ip-InPool_example :
    (ip : Bytes) × (t : Addresses) × (assign_ip one_peer
        (codes "laptop")
        (codes "198.51.100.7")
        start
      ≡ some (ip, t))
    × InPool ip
    × IsValid t
assign_ip-InPool_example =
    assign_ip-InPool one_peer (codes "laptop") (codes "198.51.100.7") start start-IsValid

has_room : HasRoom one_peer
has_room = (3, omega arith, omega arith, room)

assign_ip-may_share_example : may_share one_peer (codes "laptop") (vpn_ip 3) ≡ true
assign_ip-may_share_example =
    assign_ip-may_share one_peer (codes "laptop") (codes "198.51.100.7") start start-IsValid
      has_room gives_third

still_free : may_share one_peer (codes "renamed") (vpn_ip 3) ≡ true
unfolding may_share one_peer vpn_ip decimal lookup text_eq
still_free = refl

public_given : is_empty (codes "198.51.100.7") ≡ false
unfolding text_eq
public_given = refl

assign_ip_again_example :
    assign_ip one_peer (codes "renamed") (codes "198.51.100.7") first_given
    ≡ some (
      vpn_ip 3,
      record first_given {
        hostname_to_ip = insert (codes "renamed") (vpn_ip 3) first_given.hostname_to_ip;
      },
    )
assign_ip_again_example =
    assign_ip_again one_peer one_peer (codes "laptop") (codes "renamed") (codes "198.51.100.7")
      start start-IsValid has_room public_given gives_third still_free

-- A peer at each of the first `n` addresses of the pool.
crowd : ℕ → Dict Peer
crowd zero = []
crowd (suc n) = (vpn_ip (n + 2), someone) ∷ crowd n

in_use-cons :
    (a b : Bytes) (p : Peer) (peers : Dict Peer)
    → in_use peers b ≡ true
    → in_use ((a, p) ∷ peers) b ≡ true
unfolding in_use lookup
in_use-cons a b p peers h = ground arith

in_use-here : (a : Bytes) (p : Peer) (peers : Dict Peer) → in_use ((a, p) ∷ peers) a ≡ true
unfolding in_use lookup
in_use-here a p peers = ground (arith, text_eq_refl a)

crowd-in_use : (n k : ℕ) → k < n → in_use (crowd n) (vpn_ip (k + 2)) ≡ true
unfolding crowd
crowd-in_use zero k h = absurd (omega arith)
crowd-in_use (suc n) k h = elim (ℕ_discrete k n) [
  | yes same ↦ rw same (in_use-here (vpn_ip (n + 2)) someone (crowd n))
  | no other ↦
      in_use-cons (vpn_ip (n + 2)) (vpn_ip (k + 2)) someone (crowd n)
        (crowd-in_use n k (omega arith))
]

crowded : (k : ℕ) → 2 ≤ k → k ≤ 254 → in_use (crowd 253) (vpn_ip k) ≡ true
crowded k lo hi =
    let back : k - 2 + 2 ≡ k = omega arith in rw (← back) (crowd-in_use 253 (k - 2) (omega arith))

unknown_host : lookup (codes "laptop") start.hostname_to_ip ≡ none
unfolding lookup
unknown_host = refl

unknown_address : public_entry (codes "198.51.100.7") start ≡ none
unfolding lookup text_eq
unknown_address = refl

assign_ip_full_example :
    (ip : Bytes) × (t : Addresses) × (assign_ip
        (crowd 253)
        (codes "laptop")
        (codes "198.51.100.7")
        start
      ≡ some (ip, t))
    × (in_use (crowd 253) ip ≡ true)
assign_ip_full_example =
    assign_ip_full (crowd 253) (codes "laptop") (codes "198.51.100.7") start start-IsValid crowded
      unknown_address unknown_host

-- A format that writes every value alike, and reads none.
abbrev mute : {A : Type 0} → Json A
mute = record { marshal = λ _. some []; unmarshal = λ _. none }

abbrev codecs : Codecs
codecs = record {
  peer_list = mute;
  disconnect_intent = only goodbye (123 ∷ 125 ∷ []);
  reconnect_invite = mute;
}

abbrev pub home : Server
home = record {
  node_name = codes "home";
  vpn_address = codes "10.8.0.1";
  hostname = codes "home";
  our_public_ip = codes "192.0.2.1";
  our_geo = none;
  addresses = start;
  peers = [];
  peer_conns = [];
  topology = new_network_topology 0 (codes "10.8.0.1") (codes "home");
  store = some [];
  bytes_in = 0;
  bytes_out = 0;
  sent = [];
  tun_out = [];
}

home-IsConsistent : IsConsistent home
unfolding in_use lookup
home-IsConsistent = record { valid = start-IsValid; paired = λ a. refl }

abbrev arrival : ℕ → Bool → Hello
arrival conn route_all = record {
  conn = conn;
  remote_addr = codes "198.51.100.7:51000";
  public_ip = codes "198.51.100.7";
  info = record laptop { route_all = route_all };
  looked_up = none;
  ip_sent = true;
  now = conn;
}

abbrev one_client : Server
one_client = record_connection codecs (arrival 5 true) (vpn_ip 2) (some []) (
    broadcast_peer_list codecs (
      register (arrival 5 true) (vpn_ip 2) (record home {
        addresses = record {
          next_ip = 3;
          hostname_to_ip = (codes "laptop", vpn_ip 2) ∷ (codes "ip:198.51.100.7", vpn_ip 2) ∷ [];
        };
      })))

arrives : accept_client codecs (arrival 5 true) home ≡ ok (some (vpn_ip 2), one_client)
unfolding accept_client assign_ip in_use vpn_ip decimal lookup text_eq find_unused bump remember
    insert assign_new first_ip
arrives = refl

accept_client_lem_example :
    (ip : Option Bytes) × (e : Server) × (accept_client codecs (arrival 5 true) home ≡ ok (ip, e))
    × IsConsistent e
    × (((ip ≡ none) × (true ≡ false) × (e.peer_conns ≡ []) × (e.peers ≡ []))
        ⊎ ((addr : Bytes) × (ip ≡ some addr)
            × (true ≡ true)
            × InPool addr
            × Registers (arrival 5 true) addr home e))
accept_client_lem_example = accept_client_lem codecs (arrival 5 true) home home-IsConsistent

abbrev reply : Bytes
reply = 69 ∷ 0 ∷ 0 ∷ 20 ∷ 0 ∷ 0 ∷ 0 ∷ 0 ∷ 64 ∷ 6 ∷ 0 ∷ 0 ∷ 8 ∷ 8 ∷ 8 ∷ 8 ∷ 10 ∷ 8 ∷ 0 ∷ 2 ∷ []

abbrev second : Ipv4
second = record { a = 10; b = 8; c = 0; d = 2 }

reply_dest : get_destination_ip reply ≡ some second
unfolding get_destination_ip
reply_dest = refl

second_text : ip_text second ≡ vpn_ip 2
unfolding ip_text vpn_ip decimal
second_text = refl

route_tun_packet_lem_example :
    Delivers reply one_client (route_tun_packet reply true one_client)
    ⊎ (HasNoPeer reply one_client × (route_tun_packet reply true one_client ≡ one_client))
route_tun_packet_lem_example = route_tun_packet_lem reply true one_client

abbrev goodbye_packet : Bytes
goodbye_packet = make_disconnect_intent_message codecs.disconnect_intent goodbye

abbrev quiet : Server
quiet = handle_client_packet codecs 6 5 (vpn_ip 2) goodbye_packet one_client

says_goodbye : calls_of 6 (vpn_ip 2) goodbye_packet codecs ≡ intent 6 (vpn_ip 2) (codes "user") ∷ []
unfolding is_control_message is_disconnect_intent_message extract_control_command
    parse_disconnect_intent_message make_disconnect_intent_message make_message parse_message
    make_control_message text_eq has_prefix starts_with
says_goodbye = refl

two-Steps :
    Steps codecs home quiet
      (connect 5 (vpn_ip 2) (codes "laptop") true ∷ intent 6 (vpn_ip 2) (codes "user") ∷ [])
two-Steps =
    next (next here (accepted (arrival 5 true) (vpn_ip 2) arrives refl))
      (packet 6 5 (vpn_ip 2) goodbye_packet refl (sym says_goodbye))

abbrev returned : Server
returned = record_connection codecs (arrival 7 false) (vpn_ip 2) quiet.store (
    broadcast_peer_list codecs (
      register (arrival 7 false) (vpn_ip 2) (record quiet {
        addresses = record {
          next_ip = 3;
          hostname_to_ip = (codes "laptop", vpn_ip 2) ∷ (codes "ip:198.51.100.7", vpn_ip 2) ∷ [];
        };
      })))

returns : accept_client codecs (arrival 7 false) quiet ≡ ok (some (vpn_ip 2), returned)
unfolding accept_client assign_ip may_share vpn_ip decimal lookup text_eq insert
    handle_client_packet handle_server_control_message is_control_message
    is_disconnect_intent_message extract_control_command parse_disconnect_intent_message
    make_disconnect_intent_message make_message parse_message make_control_message starts_with
    record_connection deserves_invite broadcast_peer_list register was_routing status_of
    get_client_state
returns = refl

no_invite_after_intent-Steps_example :
    returned.sent ≡ greeted codecs (arrival 7 false) (vpn_ip 2) quiet
no_invite_after_intent-Steps_example =
    no_invite_after_intent-Steps codecs home (connect 5 (vpn_ip 2) (codes "laptop") true ∷ []) []
      (arrival 7 false) 6 (vpn_ip 2) (codes "user") [] refl two-Steps tt returns

-- The laptop's second connection, without an intent before it
abbrev reconnected : Bool → Server
reconnected route_all = record_connection codecs (arrival 7 route_all) (vpn_ip 2) one_client.store (
    broadcast_peer_list codecs (
      register (arrival 7 route_all) (vpn_ip 2) (record one_client {
        addresses = record {
          next_ip = 3;
          hostname_to_ip = (codes "laptop", vpn_ip 2) ∷ (codes "ip:198.51.100.7", vpn_ip 2) ∷ [];
        };
      })))

reconnects :
    accept_client codecs (arrival 7 false) one_client ≡ ok (some (vpn_ip 2), reconnected false)
unfolding accept_client assign_ip may_share vpn_ip decimal lookup text_eq insert record_connection
    deserves_invite broadcast_peer_list register was_routing status_of get_client_state
reconnects = refl

invite_after_crash-Steps_example :
    (reconnected false).sent
    ≡ greeted codecs (arrival 7 false) (vpn_ip 2) one_client
      ++ (
        7,
        make_reconnect_invite_message codecs.reconnect_invite (record {
          server_name = codes "home";
          reason = codes "reconnection";
          should_enable_routing = true;
        }),
      )
        ∷ []
unfolding record_connection deserves_invite broadcast_peer_list register was_routing status_of
    get_client_state lookup
invite_after_crash-Steps_example =
    invite_after_crash-Steps codecs home [] [] (arrival 7 false) 5 (vpn_ip 2) (codes "laptop") []
      refl (next here (accepted (arrival 5 true) (vpn_ip 2) arrives refl)) tt refl reconnects

home_room : HasRoom home.peers
unfolding in_use lookup
home_room = (3, omega arith, omega arith, refl)

stale_cleanup_example :
    (f g : Server) × (accept_client codecs (arrival 7 true) one_client ≡ ok (some (vpn_ip 2), f))
    × (lookup (vpn_ip 2) f.peer_conns ≡ some 7)
    × (drop_client codecs (vpn_ip 2) f ≡ ok g)
    × (route_tun_packet reply true g ≡ g)
stale_cleanup_example =
    stale_cleanup codecs (arrival 5 true) (arrival 7 true) (vpn_ip 2) reply true second home
      one_client home-IsConsistent home_room public_given arrives refl refl refl reply_dest
      second_text

recalculate_distances_total_example :
    (u : Topology) × (recalculate_distances one_client.topology ≡ some u)
recalculate_distances_total_example = recalculate_distances_total one_client.topology
