-- ===== src/Node/Topology.antt =====
-- internal/node/topology.go: the graph of the mesh network. A method's time is an argument, and the
-- order of a `range` over a map is that of the association list, so what holds for every list holds
-- for every order. The pointers in the maps are not shared between keys.
pub mod Distances
pub mod Walks
use mathlib.Core.Option
use mathlib.Core.List.{foldl}
use the_family_vpn.Base.{
  ltb, ◌==◌, if◌then◌else◌, length, Bytes, codes, text_eq, lookup, insert, delete, modify,
  map_values, Dict, ℕ, zero, suc, ◌+◌, Bool, true, false, ◌&&◌, ◌||◌, Option, none, some, List, [],
  ◌∷◌, ◌++◌, map,
}
use the_family_vpn.Protocol.Types.{GeoLocation}

-- An `int` of -1 or more: `unknown` is -1.
pub data Distance : Type 0 where
  unknown : Distance
  hops : ℕ → Distance

-- d + 1
abbrev pub one_more : Distance → Distance
one_more unknown = hops 0
one_more (hops n) = hops (n + 1)

-- NetworkNode
pub record NetworkNode : Type 0 where
  pub name : Bytes
  pub vpn_address : Bytes
  pub public_addr : Bytes
  pub os : Bytes
  pub version : Bytes
  pub distance : Distance
  pub latency_ms : ℕ
  pub bandwidth : ℕ
  pub is_us : Bool
  pub is_direct : Bool
  pub connected_at : ℕ
  pub last_seen : ℕ
  pub bytes_in : ℕ
  pub bytes_out : ℕ
  pub geo : Option GeoLocation
  pub connections : List Bytes

-- NetworkEdge
pub record NetworkEdge : Type 0 where
  pub from : Bytes
  pub to : Bytes
  pub latency_ms : ℕ
  pub bandwidth : ℕ
  pub direct : Bool

-- NetworkTopology
pub record Topology : Type 0 where
  pub nodes : Dict NetworkNode
  pub edges : Dict NetworkEdge
  pub our_vpn_addr : Bytes
  pub our_name : Bytes

-- A node of which nothing is set.
abbrev pub no_node : NetworkNode
no_node = record {
  name = [];
  vpn_address = [];
  public_addr = [];
  os = [];
  version = [];
  distance = hops 0;
  latency_ms = 0;
  bandwidth = 0;
  is_us = false;
  is_direct = false;
  connected_at = 0;
  last_seen = 0;
  bytes_in = 0;
  bytes_out = 0;
  geo = none;
  connections = [];
}

-- NewNetworkTopology
unfoldable pub new_network_topology : ℕ → Bytes → Bytes → Topology
new_network_topology now our_vpn_addr our_name = record {
  nodes =
      insert our_vpn_addr
        (record no_node {
          name = our_name;
          vpn_address = our_vpn_addr;
          is_us = true;
          last_seen = now;
        })
        [];
  edges = [];
  our_vpn_addr = our_vpn_addr;
  our_name = our_name;
}

-- a < b on strings, byte by byte
unfoldable pub text_lt : Bytes → Bytes → Bool
text_lt xs [] = false
text_lt [] (y ∷ ys) = true
text_lt (x ∷ xs) (y ∷ ys) = ltb x y || ((x == y) && text_lt xs ys)

-- edgeKey
unfoldable pub edge_key : Bytes → Bytes → Bytes
unfolding text_lt
edge_key addr1 addr2 =
    if text_lt addr1 addr2 then addr1 ++ (codes "-" ++ addr2) else addr2 ++ (codes "-" ++ addr1)

-- The far end of an edge, seen from an address.
unfoldable pub other_end : Bytes → NetworkEdge → Option Bytes
other_end addr edge =
    if text_eq edge.from addr
    then some edge.to
    else if text_eq edge.to addr
    then some edge.from
    else none

with_end : Option Bytes → List Bytes → List Bytes
with_end none rest = rest
with_end (some a) rest = a ∷ rest

-- getConnectionsFor
unfoldable pub get_connections_for : Bytes → Dict NetworkEdge → List Bytes
unfolding other_end with_end
get_connections_for addr [] = []
get_connections_for addr ((k, edge) ∷ edges) =
    with_end (other_end addr edge) (get_connections_for addr edges)

-- AddDirectPeer. The stored node and the argument are one object, so the last line writes through
-- the map.
unfoldable pub add_direct_peer : ℕ → NetworkNode → Topology → Topology
add_direct_peer now node t =
    let node' = record node { distance = hops 1; is_direct = true; last_seen = now } in
    let edges =
      insert (edge_key t.our_vpn_addr node.vpn_address)
        (record {
          from = t.our_vpn_addr;
          to = node.vpn_address;
          latency_ms = node.latency_ms;
          bandwidth = node.bandwidth;
          direct = true;
        })
        t.edges in
    let nodes = insert node.vpn_address node' t.nodes in
    let nodes' =
      modify t.our_vpn_addr
        (λ us. record us { connections = get_connections_for t.our_vpn_addr edges }) nodes in
    record t {
      edges = edges;
      nodes =
          modify node.vpn_address
            (λ n. record n { connections = n.connections ++ t.our_vpn_addr ∷ [] }) nodes';
    }

unfoldable pub contains : List Bytes → Bytes → Bool
contains [] a = false
contains (x ∷ xs) a = text_eq x a || contains xs a

-- The state of the breadth-first search: the nodes, `visited` and `queue`.
pub record Search : Type 0 where
  pub nodes : Dict NetworkNode
  pub visited : List Bytes
  pub queue : List Bytes

-- A neighbour that is not visited yet: it is marked, and if the node is known it is numbered and
-- queued.
visit : Distance → Bytes → Search → Search
visit d neighbor s = if contains s.visited neighbor then s else elim (lookup neighbor s.nodes) [
  | none ↦ record s { visited = neighbor ∷ s.visited }
  | some n ↦ record {
    nodes = modify neighbor (λ node. record node { distance = d }) s.nodes;
    visited = neighbor ∷ s.visited;
    queue = s.queue ++ neighbor ∷ [];
  }
]

visit_end : Distance → Option Bytes → Search → Search
unfolding visit
visit_end d none s = s
visit_end d (some neighbor) s = visit d neighbor s

-- The inner loop, over the edges.
scan_edges : Bytes → Distance → Dict NetworkEdge → Search → Search
unfolding visit_end other_end
scan_edges current d [] s = s
scan_edges current d ((k, edge) ∷ edges) s =
    scan_edges current d edges (visit_end d (other_end current edge) s)

-- One round of the outer loop, after `current` left the queue.
expand : Dict NetworkEdge → Bytes → Option NetworkNode → Search → Search
unfolding scan_edges
expand edges current none s = s
expand edges current (some node) s = scan_edges current (one_more node.distance) edges s

-- The outer loop on fuel: none where it runs out.
search_loop : Dict NetworkEdge → ℕ → Search → Option (Dict NetworkNode)
unfolding expand
search_loop edges zero s = elim s.queue [ [] ↦ some s.nodes | _ ∷ _ ↦ none ]
search_loop edges (suc fuel) s = elim s.queue [
  | [] ↦ some s.nodes
  | current ∷ rest ↦
      search_loop edges fuel
        (expand edges current (lookup current s.nodes) (record s { queue = rest }))
]

-- The reset of all distances, to 0 for our node and -1 for the others.
reset : Bytes → NetworkNode → NetworkNode
reset our_vpn_addr node = record node {
  distance = if text_eq node.vpn_address our_vpn_addr then hops 0 else unknown;
}

-- recalculateDistances. Our address is queued first, and each known node at most once: the fuel is the
-- number of nodes and one more.
unfoldable pub recalculate_distances : Topology → Option Topology
unfolding search_loop reset
recalculate_distances t =
    Option.map (λ nodes. record t { nodes = nodes })
      (search_loop t.edges (length t.nodes + 1) (record {
        nodes = map_values (reset t.our_vpn_addr) t.nodes;
        visited = t.our_vpn_addr ∷ [];
        queue = t.our_vpn_addr ∷ [];
      }))

-- The edges that do not involve a node.
unfoldable pub without_edges : Bytes → Dict NetworkEdge → Dict NetworkEdge
without_edges addr [] = []
without_edges addr ((k, edge) ∷ edges) =
    let rest = without_edges addr edges in
    if text_eq edge.from addr || text_eq edge.to addr then rest else (k, edge) ∷ rest

-- RemovePeer
unfoldable pub remove_peer : Bytes → Topology → Option Topology
unfolding without_edges
remove_peer vpn_addr t =
    recalculate_distances
      (record t { nodes = delete vpn_addr t.nodes; edges = without_edges vpn_addr t.edges })

-- A node of MergePeerTopology's list: new ones are added, others are seen again.
merge_node : ℕ → Bytes → NetworkNode → Dict NetworkNode → Dict NetworkNode
merge_node now our_vpn_addr node nodes =
    if text_eq node.vpn_address our_vpn_addr then nodes else elim (lookup node.vpn_address nodes) [
      | none ↦ insert node.vpn_address (record node { is_direct = false; last_seen = now }) nodes
      | some existing ↦
          modify node.vpn_address
            (λ n. record n { last_seen = now; is_direct = n.is_direct || node.is_direct }) nodes
    ]

merge_edge : NetworkEdge → Dict NetworkEdge → Dict NetworkEdge
merge_edge edge edges = elim (lookup (edge_key edge.from edge.to) edges) [
  | none ↦ insert (edge_key edge.from edge.to) edge edges
  | some _ ↦ edges
]

-- MergePeerTopology
unfoldable pub merge_peer_topology :
    ℕ → List NetworkNode → List NetworkEdge → Topology → Option Topology
unfolding merge_node merge_edge
merge_peer_topology now nodes edges t = recalculate_distances (record t {
  nodes = foldl (λ m n. merge_node now t.our_vpn_addr n m) t.nodes nodes;
  edges = foldl (λ m e. merge_edge e m) t.edges edges;
})

-- UpdatePeerLatency
unfoldable pub update_peer_latency : ℕ → Bytes → ℕ → Topology → Topology
update_peer_latency now vpn_addr latency_ms t = record t {
  nodes = modify vpn_addr (λ n. record n { latency_ms = latency_ms; last_seen = now }) t.nodes;
  edges =
      modify (edge_key t.our_vpn_addr vpn_addr) (λ e. record e { latency_ms = latency_ms }) t.edges;
}

-- UpdatePeerStats
unfoldable pub update_peer_stats : ℕ → Bytes → ℕ → ℕ → Topology → Topology
update_peer_stats now vpn_addr bytes_in bytes_out t = record t {
  nodes =
      modify vpn_addr
        (λ n. record n { bytes_in = bytes_in; bytes_out = bytes_out; last_seen = now }) t.nodes;
}

our_info : ℕ → Bytes → Bytes → Bytes → Bytes → Bytes → Dict NetworkNode → Dict NetworkNode
our_info now name vpn_addr public_addr os version nodes = elim (lookup vpn_addr nodes) [
  | some _ ↦
      modify vpn_addr
        (λ n. record n { name = name; public_addr = public_addr; os = os; version = version }) nodes
  | none ↦
      insert vpn_addr
        (record no_node {
          name = name;
          vpn_address = vpn_addr;
          public_addr = public_addr;
          os = os;
          version = version;
          is_us = true;
          last_seen = now;
        })
        nodes
]

-- SetOurInfo
unfoldable pub set_our_info : ℕ → Bytes → Bytes → Bytes → Bytes → Bytes → Topology → Topology
unfolding our_info
set_our_info now name vpn_addr public_addr os version t = record t {
  our_vpn_addr = vpn_addr;
  our_name = name;
  nodes = our_info now name vpn_addr public_addr os version t.nodes;
}

-- SetOurGeo
unfoldable pub set_our_geo : Option GeoLocation → Topology → Topology
set_our_geo geo t = record t { nodes = modify t.our_vpn_addr (λ n. record n { geo = geo }) t.nodes }

-- GetNode
unfoldable pub get_node : Bytes → Topology → Option NetworkNode
get_node vpn_addr t = lookup vpn_addr t.nodes
