-- ===== src/Node/Client/Start.antt =====
-- internal/node/daemon.go, how a client starts: startClient and completeClientSetup. The goroutines
-- that are started then are those of Forward and of Reconnect.
use the_family_vpn.Base.{
  ltb, if◌then◌else◌, Bytes, codes, Result, ℕ, zero, suc, ◌+◌, ◌-◌, ◌*◌, true, false, Option, none,
  some, [], ok, err,
}
use the_family_vpn.Protocol.Types.{GeoLocation}
use the_family_vpn.Tunnel.Routing.{Tun, Host, attempt, route_all_traffic}
use the_family_vpn.Node.Topology.{Topology, no_node, add_direct_peer, set_our_info, set_our_geo}
use the_family_vpn.Node.Client.{Client, host_or, server_ip}
use the_family_vpn.Node.Client.Reconnect.{second, backoff, Attempt, greet, handshake, on_tun}

pub data StartError : Type 0 where
  startup_cancelled tun_failed unreachable : StartError

our_geo_in : Option GeoLocation → Topology → Topology
our_geo_in none t = t
our_geo_in (some geo) t = set_our_geo (some geo) t

module _ {Net : Type 0} (host : Host Net) (split_host : Bytes → Option Bytes) where
  -- The topology with ourselves and the server.
  meet_server : ℕ → Bytes → Client Net → Topology
  unfolding our_geo_in
  meet_server now ip d =
      add_direct_peer now
        (record no_node {
          name = host_or (split_host d.connect_to) (codes "server");
          vpn_address = codes "10.8.0.1";
          public_addr = d.connect_to;
          is_direct = true;
          connected_at = now;
        })
        (our_geo_in d.our_geo
          (set_our_info now d.node_name ip [] (codes "darwin") d.version d.topology))

  -- completeClientSetup, `made` being the device that tunnel.New makes. The flag stays set where
  -- RouteAllTraffic fails.
  unfoldable pub complete_client_setup :
      ℕ → Bytes → Option Tun → Client Net → Result StartError (Unit {0}) × Client Net
  unfolding meet_server
  complete_client_setup now ip none d = (err tun_failed, d)
  complete_client_setup now ip (some t) d =
      let d1 = record d { tun = some t } in
      let d2 =
        if d.route_all
        then on_tun host split_host (some t) (route_all_traffic host (server_ip host split_host d1))
            d1
        else d1 in
      (ok tt, record d2 { topology = meet_server now ip d2 })

  -- The wait before an attempt: none before the first.
  abbrev pub start_delay : ℕ → ℕ
  start_delay attempt =
      if ltb 1 attempt then backoff (2 * second) (30 * second) (attempt - 2) else 0

  began :
      ℕ
      → Option Tun
      → ℕ
      → Option Bytes
      → (Client Net → Result StartError (Unit {0}) × Client Net)
      → Client Net
      → Result StartError (Unit {0}) × Client Net
  began now made conn none others d = others d
  began now made conn (some ip) others d =
      complete_client_setup now ip made (record d { vpn_conn = some conn; vpn_address = ip })

  try_start :
      ℕ
      → Option Tun
      → Option ℕ
      → Option Bytes
      → (Client Net → Result StartError (Unit {0}) × Client Net)
      → Client Net
      → Result StartError (Unit {0}) × Client Net
  unfolding began
  try_start now made none ip others d = others d
  try_start now made (some conn) ip others d = began now made conn ip others (greet d)

  start_from :
      ℕ
      → ℕ
      → (ℕ → Attempt)
      → ℕ
      → Option Tun
      → Client Net
      → Result StartError (Unit {0}) × Client Net
  unfolding try_start
  start_from zero attempt meets now made d = (err unreachable, d)
  start_from (suc left) attempt meets now made d =
      let a = meets attempt in
      if a.cancelled_before
      then (err startup_cancelled, record d { cancelled = true })
      else try_start now made a.dialled (handshake a) (start_from left (attempt + 1) meets now made)
          (record d { waited = d.waited + start_delay attempt })

  located : Option (GeoLocation × Bytes) → Client Net → Client Net
  located none d = d
  located (some (geo, ip)) d = record d { our_geo = some geo; our_public_ip = ip }

  -- startClient. `found` is what geo.LookupSelf finds.
  unfoldable pub start_client :
      Option (GeoLocation × Bytes)
      → (ℕ → Attempt)
      → ℕ
      → Option Tun
      → Client Net
      → Result StartError (Unit {0}) × Client Net
  unfolding located start_from
  start_client found meets now made d =
      start_from 10 1 meets now made (located found (record d { conn_failed = false }))
