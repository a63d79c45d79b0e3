-- ===== src/Node/Server/Delivery.antt =====
-- What routeTUNPackets delivers, from the bytes of the packet.
use the_family_vpn.Base.{
  ltb, Bool-cases, length, get_or, take, drop, length-take, length-drop, take-drop, Bytes, codes,
  decimal, lookup, ℕ, zero, suc, ◌+◌, ◌≤◌, ◌<◌, ◌≡◌, refl, sym, ap, ◌∙◌, ◌⊎◌, inl, inr, Bool,
  Option, none, some, [], ◌∷◌, ◌++◌, arith,
}
use the_family_vpn.Tunnel.Packet.{Ipv4, get_destination_ip}
use the_family_vpn.Node.Server.{Server, ip_text, forward, route_to, route_tun_packet}

-- The destination of an IPv4 header are its bytes 16 to 19, written as numbers between dots.
abbrev pub HasDestination : Bytes → Bytes → Type 0
HasDestination packet dest =
    (head rest : Bytes) × (a b c e : ℕ) × (length head ≡ 16)
    × (packet ≡ head ++ (a ∷ b ∷ c ∷ e ∷ rest))
    × (dest
        ≡ decimal a
          ++ (codes "." ++ (decimal b ++ (codes "." ++ (decimal c ++ (codes "." ++ decimal e))))))

get_or-drop : (n k : ℕ) (xs : Bytes) → get_or (drop n xs) k 0 ≡ get_or xs (n + k) 0
get_or-drop zero k xs = let same : 0 + k ≡ k = omega arith in rw same refl
get_or-drop (suc n) k [] = refl
get_or-drop (suc n) k (x ∷ xs) =
    let same : suc n + k ≡ suc (n + k) = omega arith in rw same (get_or-drop n k xs)

abbrev first_four : Bytes → Ipv4
first_four tail = record {
  a = get_or tail 0 0;
  b = get_or tail 1 0;
  c = get_or tail 2 0;
  d = get_or tail 3 0;
}

after_sixteen :
    (packet tail : Bytes)
    → drop 16 packet ≡ tail
    → 16 ≤ length packet
    → 4 ≤ length tail
    → HasDestination packet (ip_text (first_four tail))
unfolding ip_text
after_sixteen packet (a ∷ b ∷ c ∷ e ∷ rest) split full long = (
  take 16 packet,
  rest,
  a,
  b,
  c,
  e,
  omega (arith, length-take 16 packet),
  sym (take-drop 16 packet) ∙ ap (◌++◌ (take 16 packet)) split,
  refl,
)
after_sixteen packet (a ∷ b ∷ c ∷ []) split full long = absurd (omega arith)
after_sixteen packet (a ∷ b ∷ []) split full long = absurd (omega arith)
after_sixteen packet (a ∷ []) split full long = absurd (omega arith)
after_sixteen packet [] split full long = absurd (omega arith)

-- GetDestinationIP has no answer, or the header's destination.
destination_cases :
    (packet : Bytes)
    → ((length packet < 20) × (get_destination_ip packet ≡ none))
      ⊎ ((i : Ipv4) × (get_destination_ip packet ≡ some i) × HasDestination packet (ip_text i))
unfolding get_destination_ip
destination_cases packet = elim (Bool-cases (ltb (length packet) 20)) [
  | inl short ↦ inl (ground (arith, short), rw short refl)
  | inr full ↦
      let long : 20 ≤ length packet = ground (arith, full) in
      inr (
        first_four (drop 16 packet),
        rw full (
            rw
              (
                get_or-drop 16 0 packet,
                get_or-drop 16 1 packet,
                get_or-drop 16 2 packet,
                get_or-drop 16 3 packet,
              )
              refl),
        after_sixteen packet (drop 16 packet) refl (omega (arith, long))
            (omega (arith, long, length-drop 16 packet)),
      )
]

abbrev pub Delivers : Bytes → Server → Server → Type 0
Delivers packet d e =
    (dest : Bytes) × (conn : ℕ) × HasDestination packet dest
    × (lookup dest d.peer_conns ≡ some conn)
    × (e.sent ≡ d.sent ++ (conn, packet) ∷ [])

abbrev pub HasNoPeer : Bytes → Server → Type 0
HasNoPeer packet d =
    (length packet < 20)
    ⊎ ((dest : Bytes) × HasDestination packet dest × (lookup dest d.peer_conns ≡ none))

forward_cases :
    (dest packet : Bytes) (taken : Bool) (d : Server) (o : Option ℕ)
    → HasDestination packet dest
    → lookup dest d.peer_conns ≡ o
    → Delivers packet d (forward dest packet taken o d)
      ⊎ (HasNoPeer packet d × (forward dest packet taken o d ≡ d))
unfolding forward
forward_cases dest packet taken d none at e = inr (inr (dest, at, e), refl)
forward_cases dest packet taken d (some conn) at e = inl (dest, conn, at, e, ground arith)

-- A packet from the TUN device whose destination, the bytes 16 to 19 as an address, has a connection
-- in the registry is sent on that connection, unchanged, and nothing else is sent. A packet shorter
-- than 20 bytes, or whose destination has no connection, changes nothing.
pub route_tun_packet_lem :
    (packet : Bytes) (taken : Bool) (d : Server)
    → Delivers packet d (route_tun_packet packet taken d)
      ⊎ (HasNoPeer packet d × (route_tun_packet packet taken d ≡ d))
unfolding route_tun_packet route_to
route_tun_packet_lem packet taken d = elim (destination_cases packet) [
  | inl (short, nowhere) ↦ inr (inl short, rw nowhere refl)
  | inr (i, found, at) ↦
      rw found (forward_cases (ip_text i) packet taken d (lookup (ip_text i) d.peer_conns) at refl)
]
