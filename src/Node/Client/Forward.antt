-- ===== src/Node/Client/Forward.antt =====
-- internal/node/daemon.go, the client's two forwarders, one round at a time, and the peer list that
-- arrives with the packets. A round says whether its loop goes on.
use mathlib.Core.List.{foldl}
use the_family_vpn.Base.{
  if◌then◌else◌, length, Bytes, codes, text_eq, Result, ℕ, ◌+◌, ◌%◌, ◌^◌, Bool, true, false, not,
  Option, none, some, List, [], ◌∷◌, ◌++◌, ok, err,
}
use the_family_vpn.Tunnel.Packet.{is_valid_ip_packet}
use the_family_vpn.Tunnel.Routing.{Host}
use the_family_vpn.Protocol.Types.{PeerListEntry, ReconnectInvite, Json}
use the_family_vpn.Protocol.Control.{
  cmd_update_available, cmd_server_restarting, is_control_message, extract_control_command,
  is_peer_list_message, is_reconnect_invite_message, ParseError, parse_peer_list_message,
  parse_reconnect_invite_message,
}
use the_family_vpn.Node.Topology.{Topology, no_node, add_direct_peer}
use the_family_vpn.Node.Client.{Client, handle_reconnect_invite, is_connected}

abbrev pub u64 : ℕ → ℕ
u64 n = n % 2 ^ 64

-- signalConnectionFailure: only the first call closes the channel.
unfoldable pub signal_connection_failure : {Net : Type 0} → Client Net → Client Net
signal_connection_failure d = record d { conn_failed = true }

-- One entry of handlePeerListMessage's loop. Our own is passed over.
add_peer : ℕ → Bytes → Topology → PeerListEntry → Topology
add_peer now our_address t p =
    if text_eq p.vpn_address our_address
    then t
    else add_direct_peer now
        (record no_node {
          name = p.name;
          vpn_address = p.vpn_address;
          os = p.os;
          is_direct = text_eq p.vpn_address (codes "10.8.0.1");
          geo = p.geo;
        })
        t

store_peers : {Net : Type 0} → ℕ → Result ParseError (List PeerListEntry) → Client Net → Client Net
unfolding add_peer
store_peers now (err e) d = d
store_peers now (ok peers) d = record d {
  network_peers = peers;
  topology = foldl (add_peer now d.vpn_address) d.topology peers;
}

-- handlePeerListMessage
unfoldable pub handle_peer_list_message :
    {Net : Type 0} → Json (List PeerListEntry) → ℕ → Bytes → Client Net → Client Net
unfolding store_peers
handle_peer_list_message json now packet d = store_peers now (parse_peer_list_message json packet) d

-- encoding/json at the two types that the client reads
pub record Readers : Type 0 where
  pub peer_list : Json (List PeerListEntry)
  pub reconnect_invite : Json ReconnectInvite

module _ {Net : Type 0} (host : Host Net) (split_host : Bytes → Option Bytes) where
  take_invite : Result ParseError ReconnectInvite → Client Net → Client Net
  take_invite (err e) d = d
  take_invite (ok invite) d = handle_reconnect_invite host split_host invite d

  -- The control messages of forwardServerToTUN.
  unfoldable pub handle_client_control_message :
      Readers → ℕ → Bytes → Bytes → Client Net → Client Net
  unfolding take_invite
  handle_client_control_message readers now cmd packet d =
      if text_eq cmd cmd_update_available
      then record d { updates = d.updates + 1 }
      else if text_eq cmd cmd_server_restarting
      then record d { server_restarting = true }
      else if is_peer_list_message cmd
      then handle_peer_list_message readers.peer_list now packet d
      else if is_reconnect_invite_message cmd
      then take_invite (parse_reconnect_invite_message readers.reconnect_invite packet) d
      else d

  -- A packet of the server: a control message, a packet for the TUN device, or neither. The bytes
  -- count whether or not the device takes the packet.
  unfoldable pub handle_server_packet : Readers → ℕ → Bytes → Client Net → Client Net
  handle_server_packet readers now packet d =
      if is_control_message packet
      then handle_client_control_message readers now (extract_control_command packet) packet d
      else if not (is_valid_ip_packet packet)
      then d
      else record d {
        tun_out = d.tun_out ++ packet ∷ [];
        bytes_in = u64 (d.bytes_in + length packet);
      }

  received : Readers → ℕ → Option Bytes → Client Net → Bool × Client Net
  received readers now none d = (false, signal_connection_failure d)
  received readers now (some packet) d = (true, handle_server_packet readers now packet d)

  -- forwardServerToTUN, `packet` being what ReadPacket returns if it does not fail.
  unfoldable pub forward_server_to_tun : Readers → ℕ → Option Bytes → Client Net → Bool × Client Net
  unfolding received
  forward_server_to_tun readers now packet d =
      if d.cancelled
      then (false, d)
      else if not (is_connected d.vpn_conn)
      then (false, d)
      else received readers now packet d

forwarded : {Net : Type 0} → Bytes → Bool → Option ℕ → Client Net → Bool × Client Net
forwarded packet taken none d = (false, d)
forwarded packet taken (some conn) d =
    let sent = record d { sent = d.sent ++ (conn, packet) ∷ [] } in
    if taken
    then (true, record sent { bytes_out = u64 (sent.bytes_out + length packet) })
    else (false, signal_connection_failure sent)

forward_read : {Net : Type 0} → Option Bytes → Option ℕ → Bool → Client Net → Bool × Client Net
unfolding forwarded
forward_read none still taken d = (true, d)
forward_read (some packet) still taken d = forwarded packet taken still d

-- forwardTUNToServer. `packet` is what the TUN device gives if its Read does not fail, `still` the
-- connection after that, and `taken` says whether WritePacket succeeds.
unfoldable pub forward_tun_to_server :
    {Net : Type 0} → Option Bytes → Option ℕ → Bool → Client Net → Bool × Client Net
unfolding forward_read
forward_tun_to_server packet still taken d =
    if d.cancelled
    then (false, d)
    else if not (is_connected d.vpn_conn)
    then (false, d)
    else forward_read packet still taken d
