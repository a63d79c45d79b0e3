-- ===== src/Cli/Versions.antt =====
-- What the diagnostics say of the versions of a server's peers, and how they are summed up.
use the_family_vpn.Base.{
  if◌then◌else◌, All, Bytes, text_eq, lookup, insert, Dict, lookup-insert, ℕ, ◌≡◌, refl, ap, ◌∙◌,
  Bool, true, false, Option, none, some, List, [], ◌∷◌,
}
use the_family_vpn.Protocol.Types.{PeerListEntry}
use the_family_vpn.Store.Rows.{}
use the_family_vpn.Node.Address.{Peer}
use the_family_vpn.Node.Topology.{NetworkNode, Topology, get_node}
use the_family_vpn.Node.Control.Peers.{PeerLine, with_node, peer_line, handle_peers}
use the_family_vpn.Cli.Diagnostics.{
  PeerDiagnostic, peer_versions, or_empty, Probes, diagnose_peer, check_network_peers,
}

with_node_version :
    (latency_text : ℕ → Bytes) (n : Option NetworkNode) (line : PeerLine)
    → (with_node latency_text n line).version ≡ line.version
with_node_version latency_text none line = refl
with_node_version latency_text (some n) line = refl

or_empty-insert :
    (k a v : Bytes) (m : Dict Bytes)
    → v ≡ []
    → or_empty (lookup a m) ≡ []
    → or_empty (lookup a (insert k v m)) ≡ []
or_empty-insert k a v m blank before = ap or_empty (lookup-insert k a v m) ∙ by_key (text_eq k a)
  where
    by_key : (b : Bool) → or_empty (if b then some v else lookup a m) ≡ []
    by_key true = blank
    by_key false = before

module _ (latency_text : ℕ → Bytes) (t : Topology) where
  peer_versions-handle_peers :
      (a : Bytes) (peers : Dict Peer) (m : Dict Bytes)
      → or_empty (lookup a m) ≡ []
      → or_empty (lookup a (peer_versions (handle_peers latency_text t peers) m)) ≡ []
  unfolding peer_versions handle_peers
  peer_versions-handle_peers a [] m before = before
  peer_versions-handle_peers a ((ip, p) ∷ peers) m before =
      let line = peer_line latency_text t p in
      peer_versions-handle_peers a peers (insert line.vpn_address line.version m) (
        or_empty-insert line.vpn_address a line.version m
          (with_node_version latency_text (get_node p.vpn_address t) _) before)

  -- A diagnosis that says nothing of the version.
  abbrev pub IsSilent : PeerDiagnostic → Type 0
  IsSilent d = (d.version ≡ []) × ((d.version_match ≡ true) × (d.version_warning ≡ []))

  silent :
      (probes : Probes) (local_version : Bytes) (versions : Dict Bytes) (p : PeerListEntry)
      → or_empty (lookup p.vpn_address versions) ≡ []
      → IsSilent (diagnose_peer probes local_version versions p)
  unfolding diagnose_peer
  silent probes local_version versions p blank = rw blank (refl, (refl, refl))

  -- handlePeers gives no versions, so checkNetworkPeers, which takes them from it, finds that every
  -- peer's version matches and warns of none, whatever versions the peers and this node run.
  pub check_network_peers-handle_peers :
      (probes : Probes) (local_version : Bytes) (entries : List PeerListEntry) (peers : Dict Peer)
      → All IsSilent (
          check_network_peers probes local_version
            (some entries)
            (some (handle_peers latency_text t peers)))
  unfolding check_network_peers lookup
  check_network_peers-handle_peers probes local_version [] peers = tt
  check_network_peers-handle_peers probes local_version (p ∷ entries) peers = (
    silent probes local_version (peer_versions (handle_peers latency_text t peers) []) p
        (peer_versions-handle_peers p.vpn_address peers [] (empty p.vpn_address)),
    check_network_peers-handle_peers probes local_version entries peers,
  )
    where
      empty : (a : Bytes) → or_empty (lookup a []) ≡ []
      empty a = refl
