-- ===== src/Examples/TopologyExamples.antt =====
-- Two nodes and the edge between them.
use the_family_vpn.Base.{
  Bool-cases, if-true, if-false, Bytes, codes, text_eq, text_eq_iff, lookup, modify, map_values,
  Dict, ◌≡◌, refl, sym, ap, ◌∙◌, ◌⊎◌, inl, inr, true, some, [], ◌∷◌,
}
use the_family_vpn.Node.Topology.{
  NetworkNode, Topology, no_node, other_end, contains, recalculate_distances, get_node, unknown,
  hops,
}
use the_family_vpn.Node.Topology.Walks.{IsKeyed, Placed, recalculate_distances-Walk}

IsKeyed-[] : IsKeyed []
unfolding lookup
IsKeyed-[] a n h = cc

IsKeyed-cons :
    (k : Bytes) (v : NetworkNode) (m : Dict NetworkNode)
    → v.vpn_address ≡ k
    → IsKeyed m
    → IsKeyed ((k, v) ∷ m)
unfolding lookup
IsKeyed-cons k v m at keyed a n h = elim (Bool-cases (text_eq k a)) [
  | inl same ↦
      let it : some v ≡ some n = sym (if-true (text_eq k a) _ _ same) ∙ h in
      let one : v ≡ n = cc in ap (λ x. x.vpn_address) (sym one) ∙ (at ∙ (text_eq_iff k a).0 same)
  | inr other ↦ keyed a n (sym (if-false (text_eq k a) _ _ other) ∙ h)
]

abbrev us : Bytes
us = codes "10.8.0.2"

abbrev hub : Bytes
hub = codes "10.8.0.1"

abbrev our_node : NetworkNode
our_node = record no_node { vpn_address = us; is_us = true }

abbrev hub_node : NetworkNode
hub_node = record no_node { vpn_address = hub; distance = unknown }

abbrev pair : Topology
pair = record {
  nodes = (us, our_node) ∷ (hub, hub_node) ∷ [];
  edges =
      (
        codes "10.8.0.1-10.8.0.2",
        record { from = us; to = hub; latency_ms = 3; bandwidth = 0; direct = true },
      )
      ∷ [];
  our_vpn_addr = us;
  our_name = codes "laptop";
}

pair-IsKeyed : IsKeyed pair.nodes
pair-IsKeyed = IsKeyed-cons us our_node _ refl (IsKeyed-cons hub hub_node [] refl IsKeyed-[])

abbrev found : Topology
found = record pair { nodes = (us, our_node) ∷ (hub, record hub_node { distance = hops 1 }) ∷ [] }

finds : recalculate_distances pair ≡ some found
unfolding recalculate_distances map_values text_eq other_end contains lookup modify
finds = refl

knows_hub : get_node hub found ≡ some (record hub_node { distance = hops 1 })
unfolding get_node lookup text_eq
knows_hub = refl

recalculate_distances-Walk_example :
    (hops 1 ≡ unknown) ⊎ Placed pair.edges us hub (record hub_node { distance = hops 1 })
recalculate_distances-Walk_example =
    recalculate_distances-Walk pair found hub (record hub_node { distance = hops 1 }) pair-IsKeyed
      finds knows_hub
