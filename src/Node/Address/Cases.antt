-- ===== src/Node/Address/Cases.antt =====
-- How assignIP goes: the address that a host or a public address has, or the loop.
use the_family_vpn.Base.{
  Bool-cases, Bytes, lookup, insert, Dict, lookup-insert, ℕ, ◌+◌, ◌-◌, ◌%◌, ◌≤◌, ◌<◌, ◌≡◌, refl,
  ◌⊎◌, inl, inr, true, false, Option, none, some, arith,
}
use the_family_vpn.Node.Address.{
  Peer, Addresses, vpn_ip, in_use, ip_key, is_empty, remember, may_share, first_ip, assign_new,
  by_hostname, by_public_ip, public_entry, assign_ip,
}
use the_family_vpn.Node.Address.Search.{slot, find_unused_lem}

abbrev pub InPool : Bytes → Type 0
InPool ip = (n : ℕ) × (2 ≤ n) × (n ≤ 254) × (ip ≡ vpn_ip n)

abbrev pub AllInPool : Dict Bytes → Type 0
AllInPool m = (k ip : Bytes) → lookup k m ≡ some ip → InPool ip

-- The loop starts at nextIP, or at 2 where that is past 254, as it is after a search that found nothing
-- and had started at 254.
pub record IsValid (s : Addresses) : Type 0 where
  pub next_low : 2 ≤ s.next_ip
  pub next_high : s.next_ip ≤ 255
  pub known : AllInPool s.hostname_to_ip

-- Some address of the pool has no peer.
abbrev pub HasRoom : Dict Peer → Type 0
HasRoom peers = (n : ℕ) × (2 ≤ n) × (n ≤ 254) × (in_use peers (vpn_ip n) ≡ false)

pub AllInPool-insert :
    (k ip : Bytes) (m : Dict Bytes) → InPool ip → AllInPool m → AllInPool (insert k ip m)
AllInPool-insert k ip m h all j i e = ground (arith, lookup-insert k j ip m, all j i)

pub AllInPool-remember :
    (public_ip ip : Bytes) (m : Dict Bytes)
    → InPool ip
    → AllInPool m
    → AllInPool (remember public_ip ip m)
unfolding remember
AllInPool-remember public_ip ip m h all = elim (Bool-cases (is_empty public_ip)) [
  | inl none_given ↦ rw none_given all
  | inr given ↦ rw given (AllInPool-insert (ip_key public_ip) ip m h all)
]

module _ (peers : Dict Peer) (hostname public_ip : Bytes) (s : Addresses) where
  abbrev Kept : Option (Bytes × Addresses) → Type 0
  Kept x =
      (ip : Bytes) × (public_entry public_ip s ≡ some ip)
      × (may_share peers hostname ip ≡ true)
      × (x ≡ some (ip, record s { hostname_to_ip = insert hostname ip s.hostname_to_ip }))

  abbrev Resumed : Option (Bytes × Addresses) → Type 0
  Resumed x =
      (ip : Bytes) × (lookup hostname s.hostname_to_ip ≡ some ip)
      × (in_use peers ip ≡ false)
      × (x ≡ some (ip, record s { hostname_to_ip = remember public_ip ip s.hostname_to_ip }))

  abbrev New : Option (Bytes × Addresses) → Type 0
  New x = x ≡ assign_new peers hostname public_ip s

  by_hostname_cases :
      (o : Option Bytes)
      → lookup hostname s.hostname_to_ip ≡ o
      → Resumed (by_hostname peers hostname public_ip s o)
        ⊎ New (by_hostname peers hostname public_ip s o)
  unfolding by_hostname
  by_hostname_cases none e = inr refl
  by_hostname_cases (some ip) e = elim (Bool-cases (in_use peers ip)) [
    | inl used ↦ inr (rw used)
    | inr unused ↦ inl (ip, e, unused, rw unused)
  ]

  by_public_ip_cases :
      (o : Option Bytes)
      → public_entry public_ip s ≡ o
      → Kept (by_public_ip peers hostname public_ip s o)
        ⊎ (Resumed (by_public_ip peers hostname public_ip s o)
            ⊎ New (by_public_ip peers hostname public_ip s o))
  unfolding by_public_ip
  by_public_ip_cases none e = inr (by_hostname_cases (lookup hostname s.hostname_to_ip) refl)
  by_public_ip_cases (some ip) e = elim (Bool-cases (may_share peers hostname ip)) [
    | inl shared ↦ inl (ip, e, shared, rw shared)
    | inr taken ↦ rw taken (inr (by_hostname_cases (lookup hostname s.hostname_to_ip) refl))
  ]

  -- The three ways in which assignIP goes on.
  pub assign_ip_cases :
      Kept (assign_ip peers hostname public_ip s)
      ⊎ (Resumed (assign_ip peers hostname public_ip s)
          ⊎ New (assign_ip peers hostname public_ip s))
  unfolding assign_ip
  assign_ip_cases = by_public_ip_cases (public_entry public_ip s) refl

  abbrev Fresh : Type 0
  Fresh =
      (n next : ℕ) × (2 ≤ n)
      × (n ≤ 254)
      × (2 ≤ next)
      × (next ≤ 254)
      × (in_use peers (vpn_ip n) ≡ false)
      × (assign_new peers hostname public_ip s
          ≡ some (
            vpn_ip n,
            record {
              next_ip = next;
              hostname_to_ip =
                  remember public_ip (vpn_ip n) (insert hostname (vpn_ip n) s.hostname_to_ip);
            },
          ))

  abbrev Crowded : Type 0
  Crowded =
      (n : ℕ) × (2 ≤ n)
      × (n ≤ 254)
      × ((k : ℕ) → 2 ≤ k → k ≤ 254 → in_use peers (vpn_ip k) ≡ true)
      × (assign_new peers hostname public_ip s ≡ some (vpn_ip n, record s { next_ip = n + 1 }))

  first_ip_range : IsValid s → (2 ≤ first_ip s) × (first_ip s ≤ 254)
  unfolding first_ip
  first_ip_range v = ground arith

  pub assign_new_cases : IsValid s → Fresh ⊎ Crowded
  unfolding assign_new
  assign_new_cases v =
      go (first_ip s - 2) (omega (arith, first_ip_range v)) (omega (arith, first_ip_range v))
    where
      go : (b : ℕ) → b < 253 → first_ip s ≡ b + 2 → Fresh ⊎ Crowded
      go b small e = elim (find_unused_lem peers b small) [
        | inl (k, lt, shape, unused) ↦ inl (
          slot b k,
          slot b (k + 1),
          omega arith,
          omega arith,
          omega arith,
          omega arith,
          unused,
          rw e (rw shape),
        )
        | inr (shape, all) ↦ inr (
          b + 2,
          omega arith,
          omega arith,
          λ k lo hi.
              let at : k ≡ slot b ((k - 2 + 253 - b) % 253) = omega arith in
              rw at (all ((k - 2 + 253 - b) % 253) (omega arith)),
          let step : b + 3 ≡ b + 2 + 1 = omega arith in rw e (rw (shape, step)),
        )
      ]

  pub public_entry_known : IsValid s → {ip : Bytes} → public_entry public_ip s ≡ some ip → InPool ip
  public_entry_known v {ip} e = elim (Bool-cases (is_empty public_ip)) [
    | inl none_given ↦ cc (rw none_given at e)
    | inr given ↦ v.known (ip_key public_ip) ip (rw given at e)
  ]
