-- ===== src/Node/Address/Pool.antt =====
-- What assignIP promises: addresses of the pool, none that another host uses while one is free, and
-- the same one again for the same public address.
use the_family_vpn.Base.{
  Bytes, lookup, insert, Dict, lookup-insert, lookup-insert_self, ℕ, ◌+◌, ◌≤◌, ◌≡◌, refl, sym, ◌∙◌,
  inl, inr, true, false, Option, none, some, arith,
}
use the_family_vpn.Node.Address.{
  Peer, Addresses, vpn_ip, in_use, ip_key, is_empty, remember, may_share, public_entry, assign_ip,
}
use the_family_vpn.Node.Address.Search.{}
use the_family_vpn.Node.Address.Cases.{
  InPool, IsValid, HasRoom, AllInPool-insert, AllInPool-remember, assign_ip_cases, assign_new_cases,
  public_entry_known,
}

-- In a state where nextIP is 2 to 255 and every remembered address is one of 10.8.0.2 to 10.8.0.254,
-- assignIP returns: its loop does not run out of rounds, the address is one of 10.8.0.2 to
-- 10.8.0.254, and the new state is again such a state.
pub assign_ip-InPool :
    (peers : Dict Peer) (hostname public_ip : Bytes) (s : Addresses)
    → IsValid s
    → (ip : Bytes) × (t : Addresses) × (assign_ip peers hostname public_ip s ≡ some (ip, t))
      × InPool ip
      × IsValid t
assign_ip-InPool peers hostname public_ip s v = elim (assign_ip_cases peers hostname public_ip s) [
  | inl (ip, entry, shared, shape) ↦
      let known = public_entry_known peers hostname public_ip s v entry in
      (
        ip,
        record s { hostname_to_ip = insert hostname ip s.hostname_to_ip },
        shape,
        known,
        record {
          next_low = v.next_low;
          next_high = v.next_high;
          known = AllInPool-insert hostname ip s.hostname_to_ip known v.known;
        },
      )
  | inr (inl (ip, entry, unused, shape)) ↦
      let known = v.known hostname ip entry in
      (
        ip,
        record s { hostname_to_ip = remember public_ip ip s.hostname_to_ip },
        shape,
        known,
        record {
          next_low = v.next_low;
          next_high = v.next_high;
          known = AllInPool-remember public_ip ip s.hostname_to_ip known v.known;
        },
      )
  | inr (inr shape) ↦ elim (assign_new_cases peers hostname public_ip s v) [
    | inl (n, next, lo, hi, next_lo, next_hi, unused, made) ↦
        let known : InPool (vpn_ip n) = (n, lo, hi, refl) in
        let m = insert hostname (vpn_ip n) s.hostname_to_ip in
        (
          vpn_ip n,
          record { next_ip = next; hostname_to_ip = remember public_ip (vpn_ip n) m },
          shape ∙ made,
          known,
          record {
            next_low = next_lo;
            next_high = omega arith;
            known =
                AllInPool-remember public_ip (vpn_ip n) m known
                  (AllInPool-insert hostname (vpn_ip n) s.hostname_to_ip known v.known);
          },
        )
    | inr (n, lo, hi, all, made) ↦ (
      vpn_ip n,
      record s { next_ip = n + 1 },
      shape ∙ made,
      (n, lo, hi, refl),
      record { next_low = omega arith; next_high = omega arith; known = v.known },
    )
  ]
]

may_share_unused :
    (peers : Dict Peer) (hostname ip : Bytes)
    → in_use peers ip ≡ false
    → may_share peers hostname ip ≡ true
unfolding in_use may_share
may_share_unused peers hostname ip h = ground arith

-- While some address of the pool has no peer, assignIP gives no host an address that a peer of
-- another name uses.
pub assign_ip-may_share :
    (peers : Dict Peer) (hostname public_ip : Bytes) (s : Addresses) {ip : Bytes} {t : Addresses}
    → IsValid s
    → HasRoom peers
    → assign_ip peers hostname public_ip s ≡ some (ip, t)
    → may_share peers hostname ip ≡ true
assign_ip-may_share peers hostname public_ip s {ip} v (n, lo, hi, room) h =
    elim (assign_ip_cases peers hostname public_ip s) [
      | inl (i, entry, shared, shape) ↦ let same : i ≡ ip = cc in rw (← same) shared
      | inr (inl (i, entry, unused, shape)) ↦
          let same : i ≡ ip = cc in rw (← same) (may_share_unused peers hostname i unused)
      | inr (inr shape) ↦ elim (assign_new_cases peers hostname public_ip s v) [
        | inl (k, next, _, _, _, _, unused, made) ↦
            let same : vpn_ip k ≡ ip = cc in
            rw (← same) (may_share_unused peers hostname (vpn_ip k) unused)
        | inr (k, _, _, all, made) ↦ cc (all n lo hi)
      ]
    ]

lookup-remember :
    (public_ip ip : Bytes) (m : Dict Bytes)
    → is_empty public_ip ≡ false
    → lookup (ip_key public_ip) (remember public_ip ip m) ≡ some ip
unfolding remember
lookup-remember public_ip ip m given = rw given (lookup-insert_self (ip_key public_ip) ip m)

transfer :
    (k i ip : Bytes) (x t : Addresses)
    → ◌≡◌ {A = Option (Bytes × Addresses)} (some (i, x)) (some (ip, t))
    → lookup k x.hostname_to_ip ≡ some i
    → lookup k t.hostname_to_ip ≡ some ip
transfer k i ip x t e h = ground arith

remembered :
    (peers : Dict Peer) (hostname public_ip : Bytes) (s : Addresses) {ip : Bytes} {t : Addresses}
    → IsValid s
    → HasRoom peers
    → is_empty public_ip ≡ false
    → assign_ip peers hostname public_ip s ≡ some (ip, t)
    → lookup (ip_key public_ip) t.hostname_to_ip ≡ some ip
remembered peers hostname public_ip s {ip} {t} v (n, lo, hi, room) given h =
    elim (assign_ip_cases peers hostname public_ip s) [
      | inl (i, entry, shared, shape) ↦
          transfer (ip_key public_ip) i ip _ t (sym shape ∙ h)
            (ground (arith, lookup-insert hostname (ip_key public_ip) i s.hostname_to_ip))
      | inr (inl (i, entry, unused, shape)) ↦
          transfer (ip_key public_ip) i ip _ t (sym shape ∙ h)
            (lookup-remember public_ip i s.hostname_to_ip given)
      | inr (inr shape) ↦ elim (assign_new_cases peers hostname public_ip s v) [
        | inl (k, next, _, _, _, _, unused, made) ↦
            transfer (ip_key public_ip) (vpn_ip k) ip _ t (sym made ∙ sym shape ∙ h)
              (lookup-remember public_ip (vpn_ip k) _ given)
        | inr (k, _, _, all, made) ↦ cc (all n lo hi)
      ]
    ]

-- While there is room, the address that assignIP gives a client with a public address is remembered for
-- that: a call from the same public address on the state as the first call left it gets the address
-- again and puts it down for its host name, under any host name and with any peers, unless a peer of
-- another name has the address then.
pub assign_ip_again :
    (peers peers' : Dict Peer) (hostname hostname' public_ip : Bytes) (s : Addresses) {ip : Bytes}
    {t : Addresses}
    → IsValid s
    → HasRoom peers
    → is_empty public_ip ≡ false
    → assign_ip peers hostname public_ip s ≡ some (ip, t)
    → may_share peers' hostname' ip ≡ true
    → assign_ip peers' hostname' public_ip t
      ≡ some (ip, record t { hostname_to_ip = insert hostname' ip t.hostname_to_ip })
unfolding assign_ip
assign_ip_again peers peers' hostname hostname' public_ip s {ip} {t} v room given h shared =
    rw given (rw (remembered peers hostname public_ip s v room given h) (rw shared))

-- Where every address of the pool has a peer, a host that is not remembered gets an address that
-- another connection is using.
pub assign_ip_full :
    (peers : Dict Peer) (hostname public_ip : Bytes) (s : Addresses)
    → IsValid s
    → ((k : ℕ) → 2 ≤ k → k ≤ 254 → in_use peers (vpn_ip k) ≡ true)
    → public_entry public_ip s ≡ none
    → lookup hostname s.hostname_to_ip ≡ none
    → (ip : Bytes) × (t : Addresses) × (assign_ip peers hostname public_ip s ≡ some (ip, t))
      × (in_use peers ip ≡ true)
unfolding assign_ip
assign_ip_full peers hostname public_ip s v full no_public no_host =
    elim (assign_new_cases peers hostname public_ip s v) [
      | inl (n, next, lo, hi, _, _, unused, made) ↦ cc (full n lo hi)
      | inr (n, lo, hi, all, made) ↦
          (vpn_ip n, record s { next_ip = n + 1 }, rw no_public (rw no_host made), full n lo hi)
    ]
