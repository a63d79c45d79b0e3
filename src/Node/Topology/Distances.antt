-- ===== src/Node/Topology/Distances.antt =====
-- The search of recalculateDistances ends: a node is queued only when it is first visited.
use the_family_vpn.Base.{
  if◌then◌else◌, Bool-cases, length, length-append, Bytes, text_eq, text_eq_iff, text_eq_refl,
  lookup, modify, map_values, Dict, ℕ, zero, suc, ◌+◌, ◌≤◌, ◌<◌, ◌≡◌, refl, ap, inl, inr, false,
  Option, none, some, List, [], ◌∷◌, ◌++◌, arith,
}
use the_family_vpn.Node.Topology.{
  Distance, one_more, NetworkNode, NetworkEdge, Topology, other_end, contains, Search, visit,
  visit_end, scan_edges, expand, search_loop, reset, recalculate_distances,
}

-- The entries of the map whose keys are not visited.
unvisited : {V : Type 0} → List Bytes → Dict V → ℕ
unvisited visited [] = 0
unvisited visited ((k, v) ∷ m) =
    let rest = unvisited visited m in if contains visited k then rest else suc rest

unvisited-length : {V : Type 0} (visited : List Bytes) (m : Dict V) → unvisited visited m ≤ length m
unfolding unvisited
unvisited-length visited [] = omega arith
unvisited-length visited ((k, v) ∷ m) = ground (arith, unvisited-length visited m)

unvisited-modify :
    {V : Type 0} (visited : List Bytes) (k : Bytes) (f : V → V) (m : Dict V)
    → unvisited visited (modify k f m) ≡ unvisited visited m
unfolding unvisited modify
unvisited-modify visited k f [] = refl
unvisited-modify visited k f ((j, v) ∷ m) = ground (arith, unvisited-modify visited k f m)

unvisited-more :
    {V : Type 0} (visited : List Bytes) (a : Bytes) (m : Dict V)
    → unvisited (a ∷ visited) m ≤ unvisited visited m
unfolding unvisited contains
unvisited-more visited a [] = omega arith
unvisited-more visited a ((k, v) ∷ m) = ground (arith, unvisited-more visited a m)

unvisited-known :
    {V : Type 0} (visited : List Bytes) (a : Bytes) (m : Dict V) {v : V}
    → contains visited a ≡ false
    → lookup a m ≡ some v
    → unvisited (a ∷ visited) m < unvisited visited m
unfolding unvisited contains lookup
unvisited-known visited a [] new known = cc
unvisited-known visited a ((k, w) ∷ m) new known = elim (Bool-cases (text_eq k a)) [
  | inl same ↦
      let here : k ≡ a = (text_eq_iff k a).0 same in
      ground (arith, unvisited-more visited a m, text_eq_refl a)
  | inr other ↦
      ground (
        arith,
        unvisited-known visited a m new (rw other at known),
        text_eq_iff k a,
        text_eq_iff a k,
      )
]

-- What the search has left to do.
measure : Search → ℕ
measure s = length s.queue + unvisited s.visited s.nodes

visit-measure :
    (d : Distance) (neighbor : Bytes) (s : Search) → measure (visit d neighbor s) ≤ measure s
unfolding visit measure
visit-measure d neighbor s = elim (Bool-cases (contains s.visited neighbor)) [
  | inl old ↦ rw old (omega arith)
  | inr new ↦ rw new (go (lookup neighbor s.nodes) refl new)
]
  where
    go :
        (o : Option NetworkNode)
        → lookup neighbor s.nodes ≡ o
        → contains s.visited neighbor ≡ false
        → measure (elim o [
          | none ↦ record s { visited = neighbor ∷ s.visited }
          | some n ↦ record {
            nodes = modify neighbor (λ node. record node { distance = d }) s.nodes;
            visited = neighbor ∷ s.visited;
            queue = s.queue ++ neighbor ∷ [];
          }
        ])
          ≤ measure s
    go none e new = omega (arith, unvisited-more s.visited neighbor s.nodes)
    go (some n) e new = omega (
      arith,
      unvisited-known s.visited neighbor s.nodes new e,
      unvisited-modify (neighbor ∷ s.visited) neighbor (λ node. record node { distance = d })
          s.nodes,
      length-append s.queue (neighbor ∷ []),
    )

visit_end-measure :
    (d : Distance) (o : Option Bytes) (s : Search) → measure (visit_end d o s) ≤ measure s
unfolding visit_end
visit_end-measure d none s = omega arith
visit_end-measure d (some neighbor) s = visit-measure d neighbor s

scan_edges-measure :
    (current : Bytes) (d : Distance) (edges : Dict NetworkEdge) (s : Search)
    → measure (scan_edges current d edges s) ≤ measure s
unfolding scan_edges
scan_edges-measure current d [] s = omega arith
scan_edges-measure current d ((k, edge) ∷ edges) s = omega (
  arith,
  visit_end-measure d (other_end current edge) s,
  scan_edges-measure current d edges (visit_end d (other_end current edge) s),
)

expand-measure :
    (edges : Dict NetworkEdge) (current : Bytes) (o : Option NetworkNode) (s : Search)
    → measure (expand edges current o s) ≤ measure s
unfolding expand
expand-measure edges current none s = omega arith
expand-measure edges current (some node) s =
    scan_edges-measure current (one_more node.distance) edges s

-- The outer loop ends if its fuel is no less than the measure.
search_loop_total :
    (edges : Dict NetworkEdge) (fuel : ℕ) (nodes : Dict NetworkNode) (visited queue : List Bytes)
    → measure (record { nodes = nodes; visited = visited; queue = queue }) ≤ fuel
    → (found : Dict NetworkNode) × (search_loop edges fuel
          (record { nodes = nodes; visited = visited; queue = queue })
        ≡ some found)
unfolding search_loop measure
search_loop_total edges zero nodes visited [] h = (nodes, refl)
search_loop_total edges zero nodes visited (a ∷ queue) h = absurd (omega arith)
search_loop_total edges (suc fuel) nodes visited [] h = (nodes, refl)
search_loop_total edges (suc fuel) nodes visited (a ∷ queue) h =
    let s : Search = record { nodes = nodes; visited = visited; queue = queue } in
    let t = expand edges a (lookup a nodes) s in
    search_loop_total edges fuel t.nodes t.visited t.queue
      (omega (arith, expand-measure edges a (lookup a nodes) s))

length-map_values : {V : Type 0} (f : V → V) (m : Dict V) → length (map_values f m) ≡ length m
unfolding map_values
length-map_values f [] = refl
length-map_values f ((k, v) ∷ m) = ap suc (length-map_values f m)

-- recalculateDistances ends within as many rounds as there are nodes, and one more, for any graph:
-- also one with edges to nodes that are not known, or from a node to itself.
pub recalculate_distances_total :
    (t : Topology) → (u : Topology) × (recalculate_distances t ≡ some u)
unfolding recalculate_distances measure
recalculate_distances_total t =
    let nodes = map_values (reset t.our_vpn_addr) t.nodes in
    let (found, ends) =
      search_loop_total t.edges (length t.nodes + 1) nodes (t.our_vpn_addr ∷ [])
        (t.our_vpn_addr ∷ [])
        (omega (
          arith,
          unvisited-length (t.our_vpn_addr ∷ []) nodes,
          length-map_values (reset t.our_vpn_addr) t.nodes,
        )) in
    (record t { nodes = found }, rw ends refl)
