-- ===== src/Node/Address.antt =====
-- assignIP of internal/node/daemon.go: which VPN address a client gets.
pub mod Decimal
pub mod Search
pub mod Cases
pub mod Pool
use the_family_vpn.Base.{
  ltb, ◌==◌, if◌then◌else◌, Bytes, codes, text_eq, decimal, lookup, insert, Dict, ℕ, zero, suc, ◌+◌,
  Bool, true, false, not, Option, none, some, [], ◌++◌,
}
use the_family_vpn.Protocol.Types.{GeoLocation}

-- Peer
pub record Peer : Type 0 where
  pub name : Bytes
  pub vpn_address : Bytes
  pub public_addr : Bytes
  pub os : Bytes
  pub geo : Option GeoLocation
  pub bytes_in : ℕ
  pub bytes_out : ℕ

-- The part of the daemon that assignIP writes: `nextIP` and `hostnameToIP`.
pub record Addresses : Type 0 where
  pub next_ip : ℕ
  pub hostname_to_ip : Dict Bytes

-- fmt.Sprintf("10.8.0.%d", n)
unfoldable pub vpn_ip : ℕ → Bytes
vpn_ip n = codes "10.8.0." ++ decimal n

-- `_, inUse := d.peers[ip]`
unfoldable pub in_use : Dict Peer → Bytes → Bool
in_use peers ip = elim (lookup ip peers) [ none ↦ false | some _ ↦ true ]

-- `d.nextIP++` and the wrap at 254
unfoldable pub bump : ℕ → ℕ
bump n = if ltb 254 (n + 1) then 2 else n + 1

-- How the loop ends: with a free address or with none, each with the new `nextIP`.
pub data Found : Type 0 where
  free : ℕ → ℕ → Found
  exhausted : ℕ → ℕ → Found
  out_of_fuel : Found

-- The loop from `d.nextIP == next`, begun at `start`.
unfoldable pub find_unused : Dict Peer → ℕ → ℕ → ℕ → Found
find_unused peers start zero next = out_of_fuel
find_unused peers start (suc fuel) next =
    let after = bump next in
    let rest = find_unused peers start fuel after in
    if not (in_use peers (vpn_ip next))
    then free next after
    else if after == start
    then exhausted after (after + 1)
    else rest

-- The pool has 253 addresses, 10.8.0.2 to 10.8.0.254.
abbrev pub pool_size : ℕ
pool_size = 253

-- "ip:" + publicIP
abbrev pub ip_key : Bytes → Bytes
ip_key public_ip = codes "ip:" ++ public_ip

abbrev pub is_empty : Bytes → Bool
is_empty s = text_eq s []

-- `if publicIP != "" { d.hostnameToIP["ip:"+publicIP] = ip }`
unfoldable pub remember : Bytes → Bytes → Dict Bytes → Dict Bytes
remember public_ip ip m = if is_empty public_ip then m else insert (ip_key public_ip) ip m

-- `peer, inUse := d.peers[ip]; !inUse || (inUse && peer.Name == hostname)`
unfoldable pub may_share : Dict Peer → Bytes → Bytes → Bool
may_share peers hostname ip = elim (lookup ip peers) [
  | none ↦ true
  | some peer ↦ text_eq peer.name hostname
]

-- A new address, or none where the fuel runs out.
settle : Bytes → Bytes → Addresses → Found → Option (Bytes × Addresses)
settle hostname public_ip s (free n next) = some (
  vpn_ip n,
  record {
    next_ip = next;
    hostname_to_ip = remember public_ip (vpn_ip n) (insert hostname (vpn_ip n) s.hostname_to_ip);
  },
)
settle hostname public_ip s (exhausted n next) = some (vpn_ip n, record s { next_ip = next })
settle hostname public_ip s out_of_fuel = none

-- `if d.nextIP > 254 { d.nextIP = 2 }`
unfoldable pub first_ip : Addresses → ℕ
first_ip s = if ltb 254 s.next_ip then 2 else s.next_ip

unfoldable pub assign_new : Dict Peer → Bytes → Bytes → Addresses → Option (Bytes × Addresses)
unfolding settle
assign_new peers hostname public_ip s =
    settle hostname public_ip s (find_unused peers (first_ip s) pool_size (first_ip s))

-- The address that the host name has, unless it is in use.
by_hostname : Dict Peer → Bytes → Bytes → Addresses → Option Bytes → Option (Bytes × Addresses)
by_hostname peers hostname public_ip s none = assign_new peers hostname public_ip s
by_hostname peers hostname public_ip s (some ip) =
    if in_use peers ip
    then assign_new peers hostname public_ip s
    else some (ip, record s { hostname_to_ip = remember public_ip ip s.hostname_to_ip })

-- The address that the public address has, unless another host uses it.
by_public_ip : Dict Peer → Bytes → Bytes → Addresses → Option Bytes → Option (Bytes × Addresses)
unfolding by_hostname
by_public_ip peers hostname public_ip s none =
    by_hostname peers hostname public_ip s (lookup hostname s.hostname_to_ip)
by_public_ip peers hostname public_ip s (some ip) =
    if may_share peers hostname ip
    then some (ip, record s { hostname_to_ip = insert hostname ip s.hostname_to_ip })
    else by_hostname peers hostname public_ip s (lookup hostname s.hostname_to_ip)

abbrev pub public_entry : Bytes → Addresses → Option Bytes
public_entry public_ip s =
    if is_empty public_ip then none else lookup (ip_key public_ip) s.hostname_to_ip

-- assignIP
unfoldable pub assign_ip : Dict Peer → Bytes → Bytes → Addresses → Option (Bytes × Addresses)
unfolding by_public_ip
assign_ip peers hostname public_ip s =
    by_public_ip peers hostname public_ip s (public_entry public_ip s)
