-- ===== src/Node/Topology/Walks.antt =====
-- The distances of recalculateDistances are lengths of walks.
use mathlib.Core.Path.{subst}
use mathlib.Core.Option
use the_family_vpn.Base.{
  Bool-cases, if-true, if-false, length, All, Bytes, text_eq, text_eq_iff, text_eq_refl, lookup,
  modify, map_values, Dict, when_some, lookup-modify, lookup-map_values, ℕ, zero, suc, ◌+◌, ◌≡◌,
  refl, sym, ap, ◌∙◌, ◌≢◌, ◌⊎◌, inl, inr, Option, none, some, List, [], ◌∷◌, ◌++◌,
}
use the_family_vpn.Node.Topology.{
  Distance, unknown, hops, one_more, NetworkNode, NetworkEdge, Topology, other_end, contains,
  Search, visit, visit_end, scan_edges, expand, search_loop, reset, recalculate_distances, get_node,
}

-- An edge between two addresses, in either direction.
pub data Adjacent (a b : Bytes) : Dict NetworkEdge → Type 0 where
  first :
      {k : Bytes} {edge : NetworkEdge} {edges : Dict NetworkEdge}
      → other_end a edge ≡ some b
      → Adjacent a b ((k, edge) ∷ edges)
  later :
      {k : Bytes} {edge : NetworkEdge} {edges : Dict NetworkEdge}
      → Adjacent a b edges
      → Adjacent a b ((k, edge) ∷ edges)

-- So many edges lead from `start` to an address.
pub data Walk (edges : Dict NetworkEdge) (start : Bytes) : ℕ → Bytes → Type 0 where
  here : Walk edges start 0 start
  step :
      {n : ℕ} {a b : Bytes} → Walk edges start n a → Adjacent a b edges → Walk edges start (n + 1) b

-- Every node stands under its own address.
abbrev pub IsKeyed : Dict NetworkNode → Type 0
IsKeyed nodes = (a : Bytes) (n : NetworkNode) → lookup a nodes ≡ some n → n.vpn_address ≡ a

module _ (all : Dict NetworkEdge) (start : Bytes) where
  abbrev pub Placed : Bytes → NetworkNode → Type 0
  Placed a n = (k : ℕ) × (n.distance ≡ hops k) × Walk all start k a

  abbrev IsSound : Dict NetworkNode → Type 0
  IsSound nodes =
      (a : Bytes) (n : NetworkNode) → lookup a nodes ≡ some n → (n.distance ≡ unknown) ⊎ Placed a n

  abbrev AllPlaced : List Bytes → Dict NetworkNode → Type 0
  AllPlaced queue nodes = All (λ a. (n : NetworkNode) → lookup a nodes ≡ some n → Placed a n) queue

  abbrev Sound : Search → Type 0
  Sound s = IsSound s.nodes × AllPlaced s.queue s.nodes

  numbered :
      (d : Distance) (o : Option NetworkNode) (n : NetworkNode)
      → when_some o (λ node. record node { distance = d }) ≡ some n
      → n.distance ≡ d
  numbered d none n h = cc
  numbered d (some m) n h =
      let same : record m { distance = d } ≡ n = cc in ap (λ x. x.distance) (sym same)

  modified_cases :
      (b a : Bytes) (d : Distance) (nodes : Dict NetworkNode) (n : NetworkNode)
      → lookup a (modify b (λ node. record node { distance = d }) nodes) ≡ some n
      → ((b ≡ a) × (n.distance ≡ d)) ⊎ (lookup a nodes ≡ some n)
  modified_cases b a d nodes n h =
      let shape = lookup-modify b a (λ node. record node { distance = d }) nodes in
      elim (Bool-cases (text_eq b a)) [
        | inl same ↦ inl (
          (text_eq_iff b a).0 same,
          numbered d (lookup a nodes) n (sym (if-true (text_eq b a) _ _ same) ∙ (sym shape ∙ h)),
        )
        | inr other ↦ inr (sym (if-false (text_eq b a) _ _ other) ∙ (sym shape ∙ h))
      ]

  Placed-at :
      (m : ℕ) (b a : Bytes) (n : NetworkNode)
      → Walk all start m b
      → b ≡ a
      → n.distance ≡ hops m
      → Placed a n
  Placed-at m b a n w same at = (m, at, subst (Walk all start m) same w)

  modify-IsSound :
      (m : ℕ) (b : Bytes) (nodes : Dict NetworkNode)
      → Walk all start m b
      → IsSound nodes
      → IsSound (modify b (λ node. record node { distance = hops m }) nodes)
  modify-IsSound m b nodes w sound a n h = elim (modified_cases b a (hops m) nodes n h) [
    | inl (same, at) ↦ inr (Placed-at m b a n w same at)
    | inr old ↦ sound a n old
  ]

  modify-AllPlaced :
      (m : ℕ) (b : Bytes) (nodes : Dict NetworkNode) (queue : List Bytes)
      → Walk all start m b
      → AllPlaced queue nodes
      → AllPlaced (queue ++ b ∷ []) (modify b (λ node. record node { distance = hops m }) nodes)
  modify-AllPlaced m b nodes [] w placed = (mine, tt)
    where
      mine :
          (n : NetworkNode)
          → lookup b (modify b (λ node. record node { distance = hops m }) nodes) ≡ some n
          → Placed b n
      mine n h =
          let shape = lookup-modify b b (λ node. record node { distance = hops m }) nodes in
          Placed-at m b b n w refl (
            numbered (hops m) (lookup b nodes) n
              (sym (if-true (text_eq b b) _ _ (text_eq_refl b)) ∙ (sym shape ∙ h)))
  modify-AllPlaced m b nodes (a ∷ queue) w (p, placed) = (
    λ n h. elim (modified_cases b a (hops m) nodes n h) [
      | inl (same, at) ↦ Placed-at m b a n w same at
      | inr old ↦ p n old
    ],
    modify-AllPlaced m b nodes queue w placed,
  )

  visit-Sound :
      (m : ℕ) (b : Bytes) (s : Search) → Walk all start m b → Sound s → Sound (visit (hops m) b s)
  unfolding visit
  visit-Sound m b s w (sound, placed) = elim (Bool-cases (contains s.visited b)) [
    | inl old ↦ rw old (sound, placed)
    | inr new ↦ rw new (go (lookup b s.nodes))
  ]
    where
      go :
          (o : Option NetworkNode)
          → Sound (elim o [
            | none ↦ record s { visited = b ∷ s.visited }
            | some n ↦ record {
              nodes = modify b (λ node. record node { distance = hops m }) s.nodes;
              visited = b ∷ s.visited;
              queue = s.queue ++ b ∷ [];
            }
          ])
      go none = (sound, placed)
      go (some n) =
          (modify-IsSound m b s.nodes w sound, modify-AllPlaced m b s.nodes s.queue w placed)

  visit_end-Sound :
      (m : ℕ) (o : Option Bytes) (s : Search)
      → ((b : Bytes) → o ≡ some b → Walk all start m b)
      → Sound s
      → Sound (visit_end (hops m) o s)
  unfolding visit_end
  visit_end-Sound m none s w sound = sound
  visit_end-Sound m (some b) s w sound = visit-Sound m b s (w b refl) sound

  scan_edges-Sound :
      (m : ℕ) (current : Bytes) (edges : Dict NetworkEdge) (s : Search)
      → ((b : Bytes) → Adjacent current b edges → Walk all start m b)
      → Sound s
      → Sound (scan_edges current (hops m) edges s)
  unfolding scan_edges
  scan_edges-Sound m current [] s w sound = sound
  scan_edges-Sound m current ((k, edge) ∷ edges) s w sound =
      scan_edges-Sound m current edges _ (λ b adj. w b (later adj))
        (visit_end-Sound m (other_end current edge) s (λ b e. w b (first e)) sound)

  expand-Sound :
      (current : Bytes) (o : Option NetworkNode) (s : Search)
      → ((n : NetworkNode) → o ≡ some n → Placed current n)
      → Sound s
      → Sound (expand all current o s)
  unfolding expand
  expand-Sound current none s placed sound = sound
  expand-Sound current (some node) s placed sound =
      let (k, at, w) = placed node refl in
      subst (λ d. Sound (scan_edges current (one_more d) all s)) (sym at)
        (scan_edges-Sound (k + 1) current all s (λ b adj. step w adj) sound)

  search_loop-IsSound :
      (fuel : ℕ) (nodes : Dict NetworkNode) (visited queue : List Bytes) {found : Dict NetworkNode}
      → Sound (record { nodes = nodes; visited = visited; queue = queue })
      → search_loop all fuel (record { nodes = nodes; visited = visited; queue = queue })
        ≡ some found
      → IsSound found
  unfolding search_loop
  search_loop-IsSound zero nodes visited [] (sound, placed) h = subst IsSound (cc) sound
  search_loop-IsSound zero nodes visited (a ∷ queue) sound h = cc
  search_loop-IsSound (suc fuel) nodes visited [] (sound, placed) h = subst IsSound (cc) sound
  search_loop-IsSound (suc fuel) nodes visited (a ∷ queue) (sound, (p, placed)) h =
      let s : Search = record { nodes = nodes; visited = visited; queue = queue } in
      let t = expand all a (lookup a nodes) s in
      search_loop-IsSound fuel t.nodes t.visited t.queue
        (expand-Sound a (lookup a nodes) s p (sound, placed)) h

reset_cases :
    (our : Bytes) (o : Option NetworkNode) (a : Bytes) (n : NetworkNode)
    → ((m : NetworkNode) → o ≡ some m → m.vpn_address ≡ a)
    → when_some o (reset our) ≡ some n
    → ((n.distance ≡ hops 0) × (our ≡ a)) ⊎ ((n.distance ≡ unknown) × (our ≢ a))
unfolding reset
reset_cases our none a n keyed h = cc
reset_cases our (some m) a n keyed h =
    let at : reset our m ≡ n = cc in
    let where_to = keyed m refl in
    elim (Bool-cases (text_eq m.vpn_address our)) [
      | inl us ↦ inl (
        ap (λ x. x.distance) (sym at) ∙ if-true (text_eq m.vpn_address our) (hops 0) unknown us,
        sym ((text_eq_iff m.vpn_address our).0 us) ∙ where_to,
      )
      | inr other ↦ inr (
        ap (λ x. x.distance) (sym at) ∙ if-false (text_eq m.vpn_address our) (hops 0) unknown other,
        λ same. let yes_same = (text_eq_iff m.vpn_address our).1 (where_to ∙ sym same) in cc,
      )
    ]

mapped :
    {A B : Type 0} (f : A → B) (o : Option A) {b : B}
    → Option.map f o ≡ some b
    → (a : A) × (o ≡ some a) × (f a ≡ b)
mapped f none h = cc
mapped f (some a) h = (a, refl, cc)

reset-lookup :
    (t : Topology) (b : Bytes) (m : NetworkNode)
    → IsKeyed t.nodes
    → lookup b (map_values (reset t.our_vpn_addr) t.nodes) ≡ some m
    → ((m.distance ≡ hops 0) × (t.our_vpn_addr ≡ b))
      ⊎ ((m.distance ≡ unknown) × (t.our_vpn_addr ≢ b))
reset-lookup t b m keyed e =
    reset_cases t.our_vpn_addr (lookup b t.nodes) b m (keyed b)
      (sym (lookup-map_values b (reset t.our_vpn_addr) t.nodes) ∙ e)

reset-Sound :
    (t : Topology) (visited : List Bytes)
    → IsKeyed t.nodes
    → Sound t.edges t.our_vpn_addr (record {
      nodes = map_values (reset t.our_vpn_addr) t.nodes;
      visited = visited;
      queue = t.our_vpn_addr ∷ [];
    })
reset-Sound t visited keyed = (
  λ b m e. elim (reset-lookup t b m keyed e) [
    | inl (at, us) ↦ inr (0, at, subst (Walk t.edges t.our_vpn_addr 0) us here)
    | inr (at, _) ↦ inl at
  ],
  (
    λ m e. elim (reset-lookup t t.our_vpn_addr m keyed e) [
      | inl (at, _) ↦ (0, at, here)
      | inr (_, other) ↦ absurd (other refl)
    ],
    tt,
  ),
)

-- A map in which every node stands under its own address: if recalculateDistances gives a node a
-- distance other than -1, that many edges lead to the node from our address.
pub recalculate_distances-Walk :
    (t u : Topology) (a : Bytes) (n : NetworkNode)
    → IsKeyed t.nodes
    → recalculate_distances t ≡ some u
    → get_node a u ≡ some n
    → (n.distance ≡ unknown) ⊎ Placed t.edges t.our_vpn_addr a n
unfolding recalculate_distances get_node
recalculate_distances-Walk t u a n keyed h known =
    let our = t.our_vpn_addr in
    let (found, ends, at) = mapped (λ (nodes : Dict NetworkNode). record t { nodes = nodes }) _ h in
    search_loop-IsSound t.edges our (length t.nodes + 1) (map_values (reset our) t.nodes) (our ∷ [])
      (our ∷ []) (reset-Sound t (our ∷ []) keyed) ends a n (ap (λ x. lookup a x.nodes) at ∙ known)
