-- ===== src/Node/Control/Peers.antt =====
-- internal/node/control.go: handleStatus, handlePeers and handleNetworkPeers, which copy fields of the
-- daemon into their results.
use the_family_vpn.Base.{
  ltb, if◌then◌else◌, length, Bytes, codes, decimal, Dict, ℕ, ◌/◌, ◌%◌, Bool, Option, none, some,
  List, [], ◌∷◌, ◌++◌,
}
use the_family_vpn.Protocol.Types.{PeerListEntry}
use the_family_vpn.Node.Address.{Peer}
use the_family_vpn.Node.Topology.{NetworkNode, Topology, get_node}

-- StatusResult; the duration is in nanoseconds.
pub record StatusResult : Type 0 where
  pub node_name : Bytes
  pub version : Bytes
  pub uptime : ℕ
  pub uptime_str : Bytes
  pub vpn_address : Bytes
  pub peer_count : ℕ
  pub bytes_in : ℕ
  pub bytes_out : ℕ
  pub server_mode : Bool
  pub reconnect_count : ℕ

-- PeerInfo as handlePeers makes it, but for the time of the connection
pub record PeerLine : Type 0 where
  pub hostname : Bytes
  pub name : Bytes
  pub vpn_address : Bytes
  pub public_ip : Bytes
  pub os : Bytes
  pub version : Bytes
  pub bytes_in : ℕ
  pub bytes_out : ℕ
  pub latency : Bytes
  pub bandwidth : ℕ

-- formatDuration, for a duration that is not negative
unfoldable pub format_uptime : ℕ → Bytes
format_uptime d =
    let whole_hours = d / 3600000000000 in
    let days = whole_hours / 24 in
    let hours = whole_hours % 24 in
    let minutes = d / 60000000000 % 60 in
    let minutes_text = decimal minutes ++ codes "m" in
    let hours_text = decimal hours ++ (codes "h " ++ minutes_text) in
    if ltb 0 days
    then decimal days ++ (codes "d " ++ hours_text)
    else if ltb 0 hours
    then hours_text
    else minutes_text

-- handleStatus
unfoldable pub handle_status :
    Bytes → Bytes → Bytes → ℕ → ℕ → ℕ → Bool → ℕ → Dict Peer → StatusResult
handle_status node_name version vpn_address uptime bytes_in bytes_out server_mode reconnect_count
      peers =
    record {
      node_name = node_name;
      version = version;
      uptime = uptime;
      uptime_str = format_uptime uptime;
      vpn_address = vpn_address;
      peer_count = length peers;
      bytes_in = bytes_in;
      bytes_out = bytes_out;
      server_mode = server_mode;
      reconnect_count = reconnect_count;
    }

-- `%.1f ms` of a latency
module _ (latency_text : ℕ → Bytes) where
  abbrev pub with_node : Option NetworkNode → PeerLine → PeerLine
  with_node none line = line
  with_node (some n) line = record line {
    latency = if ltb 0 n.latency_ms then latency_text n.latency_ms else [];
    bandwidth = n.bandwidth;
  }

  abbrev pub peer_line : Topology → Peer → PeerLine
  peer_line t p = with_node (get_node p.vpn_address t) (record {
    hostname = [];
    name = p.name;
    vpn_address = p.vpn_address;
    public_ip = p.public_addr;
    os = [];
    version = [];
    bytes_in = p.bytes_in;
    bytes_out = p.bytes_out;
    latency = [];
    bandwidth = 0;
  })

  -- handlePeers
  unfoldable pub handle_peers : Topology → Dict Peer → List PeerLine
  handle_peers t [] = []
  handle_peers t ((ip, p) ∷ peers) = peer_line t p ∷ handle_peers t peers

abbrev network_entries : Dict Peer → List PeerListEntry
network_entries [] = []
network_entries ((ip, p) ∷ peers) =
    record {
      name = p.name;
      vpn_address = p.vpn_address;
      hostname = p.name;
      os = p.os;
      public_ip = [];
      geo = none;
    }
    ∷ network_entries peers

-- handleNetworkPeers, for the mode, the names of the node, its peers and the list from PEER_LIST
unfoldable pub handle_network_peers :
    Bool → Bytes → Bytes → Bytes → Dict Peer → List PeerListEntry → List PeerListEntry
handle_network_peers server_mode node_name vpn_address hostname peers received =
    if server_mode
    then record {
      name = node_name;
      vpn_address = vpn_address;
      hostname = hostname;
      os = codes "linux";
      public_ip = [];
      geo = none;
    }
      ∷ network_entries peers
    else received
