-- ===== src/Node/Server.antt =====
-- internal/node/daemon.go in server mode: the handlers of clients and of their packets. A handler
-- runs by itself here; the goroutines' orders are the orders in which they are called. `sent` is
-- every packet given to WritePacket, with its connection, whether or not the network takes it.
pub mod Registry
pub mod Invites
pub mod Delivery
pub mod Stale
pub mod Crash
pub mod Goodbye
use the_family_vpn.Base.{
  if◌then◌else◌, length, Bytes, codes, decimal, Result, ◌>>=◌, ◌>>◌, or_err, lookup, insert, delete,
  modify, Dict, ℕ, ◌+◌, ◌%◌, ◌^◌, Bool, true, not, ◌&&◌, Option, none, some, List, [], ◌∷◌, ◌++◌,
  ok, err,
}
use the_family_vpn.Tunnel.Packet.{is_valid_ip_packet, Ipv4, get_destination_ip}
use the_family_vpn.Protocol.Types.{
  GeoLocation, PeerInfo, PeerListEntry, DisconnectIntent, ReconnectInvite, Json,
}
use the_family_vpn.Protocol.Control.{
  cmd_server_restarting, is_control_message, extract_control_command, make_control_message,
  is_disconnect_intent_message, ParseError, make_peer_list_message, parse_disconnect_intent_message,
  make_reconnect_invite_message, make_disconnect_ack_message,
}
use the_family_vpn.Store.Clients.{
  ClientStates, set_client_connected, set_client_disconnected_intentional,
}
use the_family_vpn.Store.Clients.Intent.{status_of, was_routing}
use the_family_vpn.Node.Address.{Peer, Addresses, assign_ip}
use the_family_vpn.Node.Topology.{Topology, no_node, add_direct_peer, remove_peer}

-- encoding/json at the three types that travel
pub record Codecs : Type 0 where
  pub peer_list : Json (List PeerListEntry)
  pub disconnect_intent : Json DisconnectIntent
  pub reconnect_invite : Json ReconnectInvite

-- The fields of Daemon and its Config that the server's handlers use.
pub record Server : Type 0 where
  pub node_name : Bytes
  pub vpn_address : Bytes
  pub hostname : Bytes
  pub our_public_ip : Bytes
  pub our_geo : Option GeoLocation
  pub addresses : Addresses
  pub peers : Dict Peer
  pub peer_conns : Dict ℕ
  pub topology : Topology
  pub store : Option ClientStates
  pub bytes_in : ℕ
  pub bytes_out : ℕ
  pub sent : List (ℕ × Bytes)
  pub tun_out : List Bytes

-- A loop of the model that runs out of fuel.
pub data Fault : Type 0 where
  out_of_fuel : Fault

-- What a new connection brings: its remote address, the host part of that if it splits, what
-- geo.LookupIP finds for it, whether WriteAssignedIP succeeds, and the time.
pub record Hello : Type 0 where
  pub conn : ℕ
  pub remote_addr : Bytes
  pub public_ip : Bytes
  pub info : PeerInfo
  pub looked_up : Option GeoLocation
  pub ip_sent : Bool
  pub now : ℕ

abbrev send : ℕ → Bytes → Server → Server
send conn packet d = record d { sent = d.sent ++ (conn, packet) ∷ [] }

unfoldable pub send_all : Dict ℕ → Bytes → List (ℕ × Bytes)
send_all [] packet = []
send_all ((ip, conn) ∷ conns) packet = (conn, packet) ∷ send_all conns packet

peer_entries : Dict Peer → List PeerListEntry
peer_entries [] = []
peer_entries ((ip, p) ∷ peers) =
    record {
      name = p.name;
      vpn_address = p.vpn_address;
      hostname = p.name;
      os = p.os;
      public_ip = p.public_addr;
      geo = p.geo;
    }
    ∷ peer_entries peers

-- broadcastPeerList
unfoldable pub broadcast_peer_list : Codecs → Server → Server
unfolding send_all peer_entries
broadcast_peer_list codecs d =
    let server : PeerListEntry = record {
      name = d.node_name;
      vpn_address = d.vpn_address;
      hostname = d.hostname;
      os = codes "linux";
      public_ip = d.our_public_ip;
      geo = d.our_geo;
    } in
    let message = make_peer_list_message codecs.peer_list (server ∷ peer_entries d.peers) in
    record d { sent = d.sent ++ send_all d.peer_conns message }

first_some : Option GeoLocation → Option GeoLocation → Option GeoLocation
first_some none other = other
first_some (some g) other = some g

-- The registration of a client that has its address.
unfoldable pub register : Hello → Bytes → Server → Server
unfolding first_some
register h addr d =
    let geo = first_some h.info.geo h.looked_up in
    record d {
      peers =
          insert addr
            (record {
              name = h.info.hostname;
              vpn_address = addr;
              public_addr = h.remote_addr;
              os = h.info.os;
              geo = geo;
              bytes_in = 0;
              bytes_out = 0;
            })
            d.peers;
      peer_conns = insert addr h.conn d.peer_conns;
      topology =
          add_direct_peer h.now
            (record no_node {
              name = h.info.hostname;
              vpn_address = addr;
              public_addr = h.remote_addr;
              os = h.info.os;
              version = h.info.version;
              connected_at = h.now;
              geo = geo;
            })
            d.topology;
    }

-- Whether the client gets a RECONNECT_INVITE, from its state before this connection.
unfoldable pub deserves_invite : Bytes → Bool → ClientStates → Bool
deserves_invite addr route_all table = was_routing (status_of addr table) && not route_all

-- The Connection Intent Protocol's part of handleVPNClient.
unfoldable pub record_connection : Codecs → Hello → Bytes → Option ClientStates → Server → Server
record_connection codecs h addr none d = d
record_connection codecs h addr (some table) d =
    let d' = record d {
      store = some (set_client_connected h.now addr h.info.hostname h.info.route_all table);
    } in
    if deserves_invite addr h.info.route_all table
    then send h.conn
        (make_reconnect_invite_message codecs.reconnect_invite (record {
          server_name = d.node_name;
          reason = codes "reconnection";
          should_enable_routing = true;
        }))
        d'
    else d'

-- handleVPNClient, from the handshake that was read to the loop over the client's packets: the new
-- state, and the address if the client is registered.
unfoldable pub accept_client : Codecs → Hello → Server → Result Fault (Option Bytes × Server)
accept_client codecs h d = do
  (addr, addresses) ← or_err (assign_ip d.peers h.info.hostname h.public_ip d.addresses) out_of_fuel
  let d' = record d { addresses = addresses }
  if h.ip_sent
      then ok (
        some addr,
        record_connection codecs h addr d.store (broadcast_peer_list codecs (register h addr d')),
      )
      else ok (none, d')

-- handleVPNClient after the loop: the cleanup of the client's address.
unfoldable pub drop_client : Codecs → Bytes → Server → Result Fault Server
drop_client codecs addr d = do
  topology ← or_err (remove_peer addr d.topology) out_of_fuel
  ok (
      broadcast_peer_list codecs (record d {
        peers = delete addr d.peers;
        peer_conns = delete addr d.peer_conns;
        topology = topology;
      }))

record_intent : ℕ → Bytes → Bytes → Option ClientStates → Option ClientStates
record_intent now addr reason none = none
record_intent now addr reason (some table) =
    some (set_client_disconnected_intentional now addr reason table)

acknowledge : ℕ → ℕ → Bytes → Result ParseError DisconnectIntent → Server → Server
unfolding record_intent
acknowledge now conn addr (err e) d = d
acknowledge now conn addr (ok wish) d =
    send conn make_disconnect_ack_message
      (record d { store = record_intent now addr wish.reason d.store })

-- handleServerControlMessage
unfoldable pub handle_server_control_message : Codecs → ℕ → ℕ → Bytes → Bytes → Server → Server
unfolding acknowledge
handle_server_control_message codecs now conn addr packet d =
    if is_disconnect_intent_message (extract_control_command packet)
    then acknowledge now conn addr (parse_disconnect_intent_message codecs.disconnect_intent packet)
        d
    else d

abbrev pub u64 : ℕ → ℕ
u64 n = n % 2 ^ 64

-- One round of handleClientPackets, for a packet that was read.
unfoldable pub handle_client_packet : Codecs → ℕ → ℕ → Bytes → Bytes → Server → Server
handle_client_packet codecs now conn addr packet d =
    if is_control_message packet
    then handle_server_control_message codecs now conn addr packet d
    else if not (is_valid_ip_packet packet)
    then d
    else record d {
      tun_out = d.tun_out ++ packet ∷ [];
      bytes_in = u64 (d.bytes_in + length packet);
      peers = modify addr (λ p. record p { bytes_in = u64 (p.bytes_in + length packet) }) d.peers;
    }

-- The text of an IPv4 address, net.IP.String
unfoldable pub ip_text : Ipv4 → Bytes
ip_text i =
    decimal i.a
    ++ (codes "." ++ (decimal i.b ++ (codes "." ++ (decimal i.c ++ (codes "." ++ decimal i.d)))))

forward : Bytes → Bytes → Bool → Option ℕ → Server → Server
forward dest packet taken none d = d
forward dest packet taken (some conn) d =
    if taken
    then record (send conn packet d) {
      bytes_out = u64 (d.bytes_out + length packet);
      peers = modify dest (λ p. record p { bytes_out = u64 (p.bytes_out + length packet) }) d.peers;
    }
    else send conn packet d

route_to : Bytes → Bool → Option Ipv4 → Server → Server
unfolding forward
route_to packet taken none d = d
route_to packet taken (some dest) d =
    forward (ip_text dest) packet taken (lookup (ip_text dest) d.peer_conns) d

-- One round of routeTUNPackets, for a packet that the TUN device gave. `taken` says whether
-- WritePacket succeeds, where it is called.
unfoldable pub route_tun_packet : Bytes → Bool → Server → Server
unfolding route_to
route_tun_packet packet taken d = route_to packet taken (get_destination_ip packet) d

-- broadcastRestartNotification
unfoldable pub broadcast_restart_notification : Server → Server
unfolding send_all
broadcast_restart_notification d = record d {
  sent = d.sent ++ send_all d.peer_conns (make_control_message cmd_server_restarting);
}
