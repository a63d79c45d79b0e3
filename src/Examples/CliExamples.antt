-- ===== src/Examples/CliExamples.antt =====
-- What the command line prints of some numbers, and a diagnosis of two peers.
use the_family_vpn.Base.{
  All, Bytes, codes, text_eq, decimal, lookup, insert, Dict, ℕ, ◌-◌, ◌/◌, ◌^◌, ◌≡◌, refl, true,
  false, none, some, List, [], ◌∷◌,
}
use the_family_vpn.Protocol.Types.{PeerListEntry}
use the_family_vpn.Node.Address.{Peer}
use the_family_vpn.Node.Topology.{Topology, new_network_topology, get_node}
use the_family_vpn.Node.Control.Peers.{format_uptime, handle_peers, handle_network_peers}
use the_family_vpn.Cli.Format.{scale, unit_letter, format_bytes, truncate_text}
use the_family_vpn.Cli.Diagnostics.{
  peer_versions, Probes, diagnose_peer, check_network_peers, count_checks, count_peers,
  summarize_report,
}
use the_family_vpn.Cli.Versions.{IsSilent, check_network_peers-handle_peers}

-- A ratio rounded down
abbrev whole_ratio : ℕ → ℕ → Bytes
whole_ratio b div = decimal (b / div)

sizes :
    (format_bytes whole_ratio 1000 ≡ some (codes "1000 B"))
    × ((format_bytes whole_ratio 5242880 ≡ some (codes "5 MB"))
        × (format_bytes whole_ratio (2 ^ 64 - 1) ≡ some (codes "15 EB")))
unfolding format_bytes scale unit_letter decimal
sizes = (refl, (refl, refl))

-- A cut of less than three has no room for the dots.
cuts :
    (truncate_text (codes "laptop") 5 ≡ some (codes "la..."))
    × (truncate_text (codes "laptop") 2 ≡ none)
unfolding truncate_text
cuts = (refl, refl)

uptime : format_uptime 93720000000000 ≡ codes "1d 2h 2m"
unfolding format_uptime decimal
uptime = refl

abbrev laptop : Peer
laptop = record {
  name = codes "laptop";
  vpn_address = codes "10.8.0.2";
  public_addr = codes "198.51.100.7";
  os = codes "linux";
  geo = none;
  bytes_in = 0;
  bytes_out = 0;
}

abbrev one_peer : Dict Peer
one_peer = (codes "10.8.0.2", laptop) ∷ []

abbrev all_reachable : Probes
all_reachable = record { pings = λ a. true; connects_to_ssh = λ a. false }

abbrev entries : List PeerListEntry
entries = handle_network_peers true (codes "home") (codes "10.8.0.1") (codes "home") one_peer []

abbrev silent_topology : Topology
silent_topology = new_network_topology 0 (codes "10.8.0.1") (codes "home")

-- Two peers that answer, and two warnings of their port 22
summed :
    summarize_report [] (
      check_network_peers all_reachable
        (codes "v2")
        (some entries)
        (some (handle_peers decimal silent_topology one_peer)))
    ≡ record { passed = 2; failed = 0; warned = 2 }
unfolding summarize_report count_peers count_checks check_network_peers diagnose_peer peer_versions
    handle_peers handle_network_peers get_node new_network_topology lookup insert text_eq
summed = refl

check_network_peers-handle_peers_example : All (IsSilent decimal silent_topology) (
    check_network_peers all_reachable
      (codes "v2")
      (some entries)
      (some (handle_peers decimal silent_topology one_peer)))
check_network_peers-handle_peers_example =
    check_network_peers-handle_peers decimal silent_topology all_reachable (codes "v2") entries
      one_peer
