-- ===== src/Node/Server/Stale.antt =====
-- A client that comes back before its old connection is found dead.
use the_family_vpn.Base.{
  if◌then◌else◌, Bytes, text_eq_refl, Result, or_err, ok-injective, >>=-eq-ok, lookup,
  lookup-insert_self, ◌≡◌, refl, sym, ap, ◌∙◌, inl, inr, Bool, true, false, Option, none, some,
  arith, ok,
}
use the_family_vpn.Tunnel.Packet.{Ipv4, get_destination_ip}
use the_family_vpn.Node.Address.{Addresses, is_empty, may_share, assign_ip, out_of_fuel}
use the_family_vpn.Node.Address.Cases.{HasRoom}
use the_family_vpn.Node.Address.Pool.{assign_ip_again}
use the_family_vpn.Node.Server.{
  Codecs, Server, Fault, out_of_fuel, Hello, broadcast_peer_list, register, record_connection,
  accept_client, drop_client, ip_text, forward, route_to, route_tun_packet,
}
use the_family_vpn.Node.Server.Registry.{
  IsConsistent, record_connection_registry, Registers, accept_client_lem, drop_client_lem,
  drop_client_total,
}

or_err-ok :
    {A : Type 0} (o : Option A) (f : Fault) (a : A)
    → ◌≡◌ {A = Result Fault A} (or_err o f) (ok a)
    → o ≡ some a
or_err-ok none f a h = cc
or_err-ok (some b) f a h = ap some (ok-injective h)

-- The address of an accepted client is the one that assignIP gave, with the addresses it left.
accept_client-assign_ip :
    (codecs : Codecs) (h : Hello) (addr : Bytes) (d e : Server)
    → accept_client codecs h d ≡ ok (some addr, e)
    → assign_ip d.peers h.info.hostname h.public_ip d.addresses ≡ some (addr, e.addresses)
unfolding accept_client broadcast_peer_list register
accept_client-assign_ip codecs h addr d e came =
    let answer = assign_ip d.peers h.info.hostname h.public_ip d.addresses in
    let ((a, t), given, rest) = >>=-eq-ok (or_err answer out_of_fuel) _ came in
    or_err-ok answer out_of_fuel (a, t) given ∙ ap some (by_sent a t h.ip_sent rest)
  where
    by_sent :
        (a : Bytes) (t : Addresses) (b : Bool)
        → ◌≡◌ {A = Result Fault (Option Bytes × Server)}
            (if b
              then ok (
                some a,
                record_connection codecs h a d.store
                    (broadcast_peer_list codecs (register h a (record d { addresses = t }))),
              )
              else ok (none, record d { addresses = t }))
            (ok (some addr, e))
        → ◌≡◌ {A = Bytes × Addresses} (a, t) (addr, e.addresses)
    by_sent a t true r =
        let d' = broadcast_peer_list codecs (register h a (record d { addresses = t })) in
        let (kept, _, _) = record_connection_registry codecs h a d.store d' in
        let made : (record_connection codecs h a d.store d').addresses ≡ e.addresses =
          ap (λ x. x.1.addresses) (ok-injective r) in
        let at : a ≡ addr = cc in rw at (ap (λ s. (addr, s)) (sym kept ∙ made))
    by_sent a t false r = cc

accepted :
    (codecs : Codecs) (h : Hello) (addr : Bytes) (d e : Server)
    → IsConsistent d
    → accept_client codecs h d ≡ ok (some addr, e)
    → IsConsistent e × Registers h addr d e
accepted codecs h addr d e c came =
    let (ip, e', came', c', outcome) = accept_client_lem codecs h d c in
    let both : ◌≡◌ {A = Option Bytes × Server} (ip, e') (some addr, e) =
      ok-injective (sym came' ∙ came) in
    let state : e' ≡ e = ap (λ x. x.1) both in
    rw (← state) (
      c',
      elim outcome [
        | inl (missing, _, _, _) ↦ cc
        | inr (a, found, _, _, registers) ↦ let same : a ≡ addr = cc in rw (← same) registers
      ],
    )

-- A client that its address can be sent to is registered.
answered :
    (codecs : Codecs) (h : Hello) (d : Server)
    → IsConsistent d
    → h.ip_sent ≡ true
    → (addr : Bytes) × (e : Server) × (accept_client codecs h d ≡ ok (some addr, e))
answered codecs h d c sent =
    let (ip, e, came, _, outcome) = accept_client_lem codecs h d c in
    elim outcome [
      | inl (_, unsent, _, _) ↦ cc
      | inr (addr, found, _, _, _) ↦ (addr, e, rw (← found) came)
    ]

shared_after :
    (h : Hello) (addr hostname : Bytes) (d e : Server)
    → Registers h addr d e
    → hostname ≡ h.info.hostname
    → may_share e.peers hostname addr ≡ true
unfolding may_share
shared_after h addr hostname d e (_, (p, named, peers)) same = rw peers (
    rw (may_share, lookup-insert_self addr p d.peers)
      (rw (named, same) (text_eq_refl h.info.hostname)))

comes_back :
    (codecs : Codecs) (h h' : Hello) (addr : Bytes) (d e : Server)
    → IsConsistent d
    → HasRoom d.peers
    → is_empty h.public_ip ≡ false
    → accept_client codecs h d ≡ ok (some addr, e)
    → h'.info.hostname ≡ h.info.hostname
    → h'.public_ip ≡ h.public_ip
    → h'.ip_sent ≡ true
    → (f : Server) × (accept_client codecs h' e ≡ ok (some addr, f))
comes_back codecs h h' addr d e c room given came named placed sent =
    let (c', registers) = accepted codecs h addr d e c came in
    let (a, f, back) = answered codecs h' e c' sent in
    let shared = shared_after h addr h'.info.hostname d e registers named in
    let again =
      assign_ip_again d.peers e.peers h.info.hostname h'.info.hostname h.public_ip d.addresses
        c.valid room given (accept_client-assign_ip codecs h addr d e came) shared in
    let now : assign_ip e.peers h'.info.hostname h.public_ip e.addresses ≡ some (a, f.addresses) =
      ap (λ p. assign_ip e.peers h'.info.hostname p e.addresses) (sym placed)
      ∙ accept_client-assign_ip codecs h' a e f back in
    let same : a ≡ addr = cc in (f, back ∙ ap (λ x. ok (some x, f)) same)

-- While the pool has room, a client that was accepted and comes back from the same public address
-- under the same host name, before its old connection is found dead, gets its old address with its new
-- connection. When the handler of the old connection then cleans up, the address has no connection,
-- although the new one is alive, and every packet for it changes nothing.
pub stale_cleanup :
    (codecs : Codecs) (h h' : Hello) (addr packet : Bytes) (taken : Bool) (i : Ipv4) (d e : Server)
    → IsConsistent d
    → HasRoom d.peers
    → is_empty h.public_ip ≡ false
    → accept_client codecs h d ≡ ok (some addr, e)
    → h'.info.hostname ≡ h.info.hostname
    → h'.public_ip ≡ h.public_ip
    → h'.ip_sent ≡ true
    → get_destination_ip packet ≡ some i
    → ip_text i ≡ addr
    → (f g : Server) × (accept_client codecs h' e ≡ ok (some addr, f))
      × (lookup addr f.peer_conns ≡ some h'.conn)
      × (drop_client codecs addr f ≡ ok g)
      × (route_tun_packet packet taken g ≡ g)
unfolding route_tun_packet route_to forward
stale_cleanup codecs h h' addr packet taken i d e c room given came named placed sent dest at =
    let (c', _) = accepted codecs h addr d e c came in
    let (f, back) = comes_back codecs h h' addr d e c room given came named placed sent in
    let (_, (conns, _)) = accepted codecs h' addr e f c' back in
    let (g, dropped) = drop_client_total codecs addr f in
    let gone = (drop_client_lem codecs addr addr f dropped).0 in
    let none_left : lookup addr g.peer_conns ≡ none = ground (arith, text_eq_refl addr) in
    (
      f,
      g,
      back,
      rw conns (lookup-insert_self addr h'.conn e.peer_conns),
      dropped,
      rw dest (rw at (rw none_left refl)),
    )
