-- ===== src/Node/Server/Registry.antt =====
-- The server's registry of clients: who is connected, and what is delivered to whom.
use the_family_vpn.Base.{
  if◌then◌else◌, Bool-cases, Bytes, text_eq, lookup, insert, delete, Dict, lookup-insert,
  lookup-delete, ℕ, ◌≡◌, refl, ◌⊎◌, inl, inr, Bool, true, false, not, ◌&&◌, ◌||◌, Option, none,
  some, arith, ok,
}
use the_family_vpn.Store.Clients.{ClientStates}
use the_family_vpn.Node.Address.{Peer, in_use}
use the_family_vpn.Node.Address.Cases.{InPool, IsValid}
use the_family_vpn.Node.Address.Pool.{assign_ip-InPool}
use the_family_vpn.Node.Topology.{without_edges, remove_peer}
use the_family_vpn.Node.Topology.{without_edges, remove_peer}
use the_family_vpn.Node.Topology.Distances.{recalculate_distances_total}
use the_family_vpn.Node.Server.{
  Codecs, Server, Hello, broadcast_peer_list, register, deserves_invite, record_connection,
  accept_client, drop_client,
}

abbrev has_conn : Option ℕ → Bool
has_conn none = false
has_conn (some conn) = true

-- A state of the server between two handlers: every peer has a connection and every connection a
-- peer, and the addresses are valid.
pub record IsConsistent (d : Server) : Type 0 where
  pub valid : IsValid d.addresses
  pub paired : (a : Bytes) → in_use d.peers a ≡ has_conn (lookup a d.peer_conns)

-- The parts of the state that routing and the registry read.
abbrev SameRegistry : Server → Server → Type 0
SameRegistry d e = (d.addresses ≡ e.addresses) × (d.peers ≡ e.peers) × (d.peer_conns ≡ e.peer_conns)

pub record_connection_registry :
    (codecs : Codecs) (h : Hello) (addr : Bytes) (store : Option ClientStates) (d : Server)
    → SameRegistry (record_connection codecs h addr store d) d
unfolding record_connection
record_connection_registry codecs h addr none d = (refl, refl, refl)
record_connection_registry codecs h addr (some table) d =
    elim (Bool-cases (deserves_invite addr h.info.route_all table)) [
      | inl invited ↦ (rw invited, rw invited, rw invited)
      | inr silent ↦ (rw silent, rw silent, rw silent)
    ]

-- The registry after a client has been accepted.
abbrev pub Registers : Hello → Bytes → Server → Server → Type 0
Registers h addr d e =
    (e.peer_conns ≡ insert addr h.conn d.peer_conns)
    × ((p : Peer) × (p.name ≡ h.info.hostname) × (e.peers ≡ insert addr p d.peers))

register-Registers :
    (codecs : Codecs) (h : Hello) (addr : Bytes) (d : Server)
    → Registers h addr d
        (record_connection codecs h addr d.store (broadcast_peer_list codecs (register h addr d)))
unfolding broadcast_peer_list register
register-Registers codecs h addr d =
    let d' = broadcast_peer_list codecs (register h addr d) in
    let (_, peers, conns) = record_connection_registry codecs h addr d.store d' in
    (conns, (_, refl, peers))

in_use-insert :
    (addr a : Bytes) (p : Peer) (peers : Dict Peer)
    → in_use (insert addr p peers) a ≡ text_eq addr a || in_use peers a
unfolding in_use
in_use-insert addr a p peers = ground (arith, lookup-insert addr a p peers)

registered-IsConsistent :
    (h : Hello) (addr : Bytes) (d e : Server)
    → IsConsistent d
    → IsValid e.addresses
    → Registers h addr d e
    → IsConsistent e
registered-IsConsistent h addr d e c v (conns, (p, _, peers)) = record {
  valid = v;
  paired = λ a.
      rw (peers, conns)
        (ground (
          arith,
          in_use-insert addr a p d.peers,
          lookup-insert addr a h.conn d.peer_conns,
          c.paired a,
        ));
}

-- Accepting a client never fails for want of an address. A client that its address cannot be sent to
-- is dropped with the registry as it was; any other is registered under an address of the pool, with
-- its own connection and host name there, and no other address's connection is touched. The state
-- stays consistent.
pub accept_client_lem :
    (codecs : Codecs) (h : Hello) (d : Server)
    → IsConsistent d
    → (ip : Option Bytes) × (e : Server) × (accept_client codecs h d ≡ ok (ip, e))
      × IsConsistent e
      × (((ip ≡ none) × (h.ip_sent ≡ false) × (e.peer_conns ≡ d.peer_conns) × (e.peers ≡ d.peers))
          ⊎ ((addr : Bytes) × (ip ≡ some addr)
              × (h.ip_sent ≡ true)
              × InPool addr
              × Registers h addr d e))
unfolding accept_client broadcast_peer_list register
accept_client_lem codecs h d c =
    let (addr, t, given, pool, v) =
      assign_ip-InPool d.peers h.info.hostname h.public_ip d.addresses c.valid in
    let d' = record d { addresses = t } in
    elim (Bool-cases h.ip_sent) [
      | inl yes_sent ↦
          let e =
            record_connection codecs h addr d.store
              (broadcast_peer_list codecs (register h addr d')) in
          let done = register-Registers codecs h addr d' in
          (
            some addr,
            e,
            rw given (rw yes_sent),
            registered-IsConsistent h addr d e c
                (rw
                  ((record_connection_registry codecs h addr d.store
                    (broadcast_peer_list codecs (register h addr d'))).0)
                  v)
                done,
            inr (addr, refl, yes_sent, pool, done),
          )
      | inr not_sent ↦ (
        none,
        d',
        rw given (rw not_sent),
        record { valid = v; paired = c.paired },
        inl (refl, not_sent, refl, refl),
      )
    ]

-- The cleanup of an address takes that address out of the registry, and no other.
pub drop_client_lem :
    (codecs : Codecs) (addr a : Bytes) (d : Server) {e : Server}
    → drop_client codecs addr d ≡ ok e
    → (lookup a e.peer_conns ≡ (if text_eq addr a then none else lookup a d.peer_conns))
      × (in_use e.peers a ≡ (not (text_eq addr a) && in_use d.peers a))
      × (e.addresses ≡ d.addresses)
unfolding drop_client broadcast_peer_list in_use
drop_client_lem codecs addr a d h =
    ground (arith, lookup-delete addr a d.peer_conns, lookup-delete addr a d.peers)

-- The cleanup of an address always ends, whatever the topology holds.
pub drop_client_total :
    (codecs : Codecs) (addr : Bytes) (d : Server)
    → (e : Server) × (drop_client codecs addr d ≡ ok e)
unfolding drop_client remove_peer
drop_client_total codecs addr d =
    let (topology, ends) = recalculate_distances_total (record d.topology {
      nodes = delete addr d.topology.nodes;
      edges = without_edges addr d.topology.edges;
    }) in
    let e = broadcast_peer_list codecs (record d {
      peers = delete addr d.peers;
      peer_conns = delete addr d.peer_conns;
      topology = topology;
    }) in
    (e, rw ends refl)
