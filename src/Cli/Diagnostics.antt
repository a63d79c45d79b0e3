-- ===== src/Cli/Diagnostics.antt =====
-- cmd/vpn/main.go: checkNetworkPeers and the summary of runDiagnostics.
use the_family_vpn.Base.{
  if◌then◌else◌, Bytes, codes, text_eq, lookup, insert, Dict, ℕ, ◌+◌, Bool, true, false, not, ◌&&◌,
  Option, none, some, List, [], ◌∷◌, ◌++◌,
}
use the_family_vpn.Protocol.Types.{PeerListEntry}
use the_family_vpn.Node.Address.{}
use the_family_vpn.Node.Topology.{}
use the_family_vpn.Node.Control.Peers.{PeerLine}

pub record DiagnosticResult : Type 0 where
  pub name : Bytes
  pub status : Bytes
  pub message : Bytes
  pub details : Bytes

pub record PeerDiagnostic : Type 0 where
  pub name : Bytes
  pub vpn_address : Bytes
  pub version : Bytes
  pub os : Bytes
  pub reachable : Bool
  pub version_match : Bool
  pub routing_vpn : Bool
  pub ssh_accessible : Bool
  pub public_ip : Bytes
  pub version_warning : Bytes
  pub routing_warning : Bytes
  pub ssh_warning : Bytes

pub record Summary : Type 0 where
  pub passed : ℕ
  pub failed : ℕ
  pub warned : ℕ

abbrev pub is_empty_text : Bytes → Bool
is_empty_text [] = true
is_empty_text (c ∷ cs) = false

-- peerVersions, from the peers that the node's own list has
unfoldable pub peer_versions : List PeerLine → Dict Bytes → Dict Bytes
peer_versions [] versions = versions
peer_versions (p ∷ ps) versions = peer_versions ps (insert p.vpn_address p.version versions)

abbrev pub or_empty : Option Bytes → Bytes
or_empty none = []
or_empty (some v) = v

abbrev pub expected_ip : Bytes
expected_ip = codes "95.217.238.72"

-- The outcomes of the ping and of the connection to port 22, by address
pub record Probes : Type 0 where
  pub pings : Bytes → Bool
  pub connects_to_ssh : Bytes → Bool

-- One round of the loop of checkNetworkPeers
unfoldable pub diagnose_peer : Probes → Bytes → Dict Bytes → PeerListEntry → PeerDiagnostic
diagnose_peer probes local_version versions p =
    let version = or_empty (lookup p.vpn_address versions) in
    let checked = not (is_empty_text version) && not (is_empty_text local_version) in
    let version_match = if checked then text_eq version local_version else true in
    let routed = not (is_empty_text p.public_ip) && text_eq p.public_ip expected_ip in
    let accessible = probes.connects_to_ssh p.vpn_address in
    record {
      name = p.name;
      vpn_address = p.vpn_address;
      version = version;
      os = p.os;
      reachable = probes.pings p.vpn_address;
      version_match = version_match;
      routing_vpn = routed;
      ssh_accessible = accessible;
      public_ip = p.public_ip;
      version_warning =
          if not version_match
          then codes "Version mismatch: "
            ++ (version ++ (codes " (local: " ++ (local_version ++ codes ")")))
          else [];
      routing_warning =
          if not (is_empty_text p.public_ip) && not routed
          then codes "Not routing through VPN (IP: " ++ (p.public_ip ++ codes ")")
          else [];
      ssh_warning = if not accessible then codes "SSH port 22 not accessible" else [];
    }

abbrev pub diagnose_all : Probes → Bytes → Dict Bytes → List PeerListEntry → List PeerDiagnostic
diagnose_all probes local_version versions [] = []
diagnose_all probes local_version versions (p ∷ ps) =
    diagnose_peer probes local_version versions p ∷ diagnose_all probes local_version versions ps

abbrev or_no_peers : Option (List PeerLine) → List PeerLine
or_no_peers none = []
or_no_peers (some ps) = ps

-- checkNetworkPeers, for what the node answers to "network_peers" and to "peers", `none` being a
-- failure
unfoldable pub check_network_peers :
    Probes → Bytes → Option (List PeerListEntry) → Option (List PeerLine) → List PeerDiagnostic
check_network_peers probes local_version none connected = []
check_network_peers probes local_version (some peers) connected =
    diagnose_all probes local_version (peer_versions (or_no_peers connected) []) peers

abbrev pub count_check : DiagnosticResult → Summary → Summary
count_check c s =
    if text_eq c.status (codes "pass")
    then record s { passed = s.passed + 1 }
    else if text_eq c.status (codes "fail")
    then record s { failed = s.failed + 1 }
    else if text_eq c.status (codes "warn")
    then record s { warned = s.warned + 1 }
    else s

abbrev pub one_if : Bool → ℕ
one_if b = if b then 1 else 0

abbrev pub count_peer : PeerDiagnostic → Summary → Summary
count_peer p s = record {
  passed = s.passed + one_if p.reachable;
  failed = s.failed + one_if (not p.reachable);
  warned =
      s.warned
      + one_if (not p.version_match && not (is_empty_text p.version))
      + one_if (not p.routing_vpn && not (is_empty_text p.public_ip))
      + one_if (not p.ssh_accessible);
}

unfoldable pub count_checks : List DiagnosticResult → Summary → Summary
count_checks [] s = s
count_checks (c ∷ cs) s = count_checks cs (count_check c s)

unfoldable pub count_peers : List PeerDiagnostic → Summary → Summary
count_peers [] s = s
count_peers (p ∷ ps) s = count_peers ps (count_peer p s)

-- The summary of runDiagnostics
unfoldable pub summarize_report : List DiagnosticResult → List PeerDiagnostic → Summary
summarize_report checks peers =
    count_peers peers (count_checks checks (record { passed = 0; failed = 0; warned = 0 }))
