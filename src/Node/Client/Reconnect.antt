-- ===== src/Node/Client/Reconnect.antt =====
-- internal/node/daemon.go, the life of the client's connection: startClient, the monitor of its
-- failure, attemptReconnect, and the shutdown. What the network answers is an argument.
pub mod Backoff
pub mod Attempts
pub mod Failure
use the_family_vpn.Base.{
  ltb, if◌then◌else◌, length, take, Bytes, codes, text_eq, decimal, Result, ℕ, zero, suc, ◌+◌, ◌-◌,
  ◌*◌, ◌^◌, Bool, true, false, not, ◌&&◌, Option, none, some, [], ◌∷◌, ◌++◌, ok, err,
}
use the_family_vpn.Protocol.Types.{PeerInfo}
use the_family_vpn.Tunnel.Routing.{
  Tun, Host, RouteError, attempt, route_all_traffic, restore_routing, reconfigure,
}
use the_family_vpn.Node.Client.{LifecycleEvent, Client, rerouted, record_event, server_ip}

-- Durations are nanoseconds in an int64.
abbrev pub second : ℕ
second = 1000000000

-- `baseDelay * time.Duration(1<<uint(k))`, at most `maxDelay`
unfoldable pub backoff : ℕ → ℕ → ℕ → ℕ
backoff base_delay max_delay k =
    let delay = base_delay * 2 ^ k in if ltb max_delay delay then max_delay else delay

-- What one attempt meets: a cancellation at either check, the connection that Dial makes, whether
-- WriteHandshake succeeds, and the address that ReadAssignedIP reads.
pub record Attempt : Type 0 where
  pub cancelled_before : Bool
  pub cancelled_after : Bool
  pub dialled : Option ℕ
  pub hello_sent : Bool
  pub assigned_ip : Option Bytes

-- The PeerInfo of the handshake.
abbrev pub our_peer_info : {Net : Type 0} → Client Net → PeerInfo
our_peer_info d = record {
  hostname = d.hostname;
  os = codes "darwin";
  version = d.version;
  public_ip = d.our_public_ip;
  geo = d.our_geo;
  route_all = d.route_all;
}

abbrev pub greet : {Net : Type 0} → Client Net → Client Net
greet d = record d { hellos = d.hellos ++ our_peer_info d ∷ [] }

-- What becomes of a connection that Dial made: the address, if there is one.
abbrev pub handshake : Attempt → Option Bytes
handshake a = if a.hello_sent then a.assigned_ip else none

-- How attemptReconnect ends, with a connection after so many attempts.
pub data Ending : Type 0 where
  reconnected : ℕ → Ending
  stopped gave_up : Ending

-- The reset of the connection before an attempt.
abbrev reset_connection : {Net : Type 0} → Client Net → Client Net
reset_connection d = record d { vpn_conn = none; conn_failed = false; server_restarting = false }

abbrev pub max_retries : ℕ
max_retries = 30

abbrev pub failure : LifecycleEvent
failure = record {
  event = codes "RECONNECT_FAILED";
  reason = codes "Failed after " ++ (decimal max_retries ++ codes " attempts");
  route_all = false;
  route_restored = false;
}

-- The event of a lost connection.
abbrev pub lost : {Net : Type 0} → Client Net → Bool → LifecycleEvent
lost d routed = record {
  event = codes "CONNECTION_LOST";
  reason =
      if d.server_restarting
      then codes "Server restart notification received"
      else codes "VPN connection to server lost";
  route_all = d.route_all;
  route_restored = routed;
}

module _ {Net : Type 0} (host : Host Net) (split_host : Bytes → Option Bytes) where
  -- A routing function whose error is only logged.
  abbrev pub on_tun :
      Option Tun
      → (Tun × Net → Result RouteError (Unit {0}) × (Tun × Net))
      → Client Net
      → Client Net
  on_tun none f d = d
  on_tun (some t) f d = let (_, (t', n')) = f (t, d.net) in record d { tun = some t'; net = n' }

  reroute : Option Tun → Bool → Client Net → Client Net
  reroute none restore d = d
  reroute (some t) false d = d
  reroute (some t) true d =
      (rerouted true d (route_all_traffic host (server_ip host split_host d) (t, d.net))).1

  -- The TUN device gets a new address where it has another.
  retune : Bytes → Bytes → Client Net → Client Net
  retune old ip d = if text_eq old ip then d else on_tun d.tun (reconfigure host ip) d

  -- The rest of an attempt once the address is there.
  resume : Bool → ℕ → ℕ → Bytes → Client Net → Client Net
  unfolding retune reroute
  resume restore_route_all attempt conn ip d =
      let d1 = record d { vpn_conn = some conn; vpn_address = ip } in
      let d2 = retune d.vpn_address ip d1 in
      let d3 = reroute d2.tun restore_route_all d2 in
      record_event
        (record {
          event = codes "RECONNECTED";
          reason = codes "Reconnected after " ++ (decimal attempt ++ codes " attempts");
          route_all = d3.route_all;
          route_restored = false;
        })
        d3

  -- The shutdown that an attempt finds.
  stop : Client Net → Ending × Client Net
  stop d = (stopped, record d { cancelled = true })

  finish :
      Bool
      → ℕ
      → ℕ
      → Option Bytes
      → (Client Net → Ending × Client Net)
      → Client Net
      → Ending × Client Net
  unfolding resume
  finish restore_route_all attempt conn none others d = others d
  finish restore_route_all attempt conn (some ip) others d =
      (reconnected attempt, resume restore_route_all attempt conn ip d)

  connect :
      Bool
      → ℕ
      → Option ℕ
      → Option Bytes
      → (Client Net → Ending × Client Net)
      → Client Net
      → Ending × Client Net
  unfolding finish
  connect restore_route_all attempt none ip others d = others (reset_connection d)
  connect restore_route_all attempt (some conn) ip others d =
      finish restore_route_all attempt conn ip others (greet (reset_connection d))

  -- One attempt, with those that follow it if it fails.
  unfoldable pub try_attempt :
      Bool → ℕ → Attempt → (Client Net → Ending × Client Net) → Client Net → Ending × Client Net
  unfolding stop connect
  try_attempt restore_route_all attempt a others d =
      let slept = record d { waited = d.waited + backoff second (30 * second) (attempt - 1) } in
      if a.cancelled_before
      then stop d
      else if a.cancelled_after
      then stop slept
      else connect restore_route_all attempt a.dialled (handshake a) others slept

  unfoldable pub give_up : Client Net → Ending × Client Net
  give_up d = (gave_up, record (record_event failure d) { cancelled = true })

  -- The loop, with so many attempts left; the argument that follows is the next attempt's number.
  unfoldable pub attempts_from : ℕ → ℕ → (ℕ → Attempt) → Bool → Client Net → Ending × Client Net
  attempts_from zero attempt meets restore_route_all d = give_up d
  attempts_from (suc left) attempt meets restore_route_all d =
      try_attempt restore_route_all attempt (meets attempt)
        (attempts_from left (attempt + 1) meets restore_route_all) d

  -- attemptReconnect
  unfoldable pub attempt_reconnect : (ℕ → Attempt) → Bool → Client Net → Ending × Client Net
  attempt_reconnect meets restore_route_all d =
      attempts_from max_retries 1 meets restore_route_all
        (record d { reconnect_count = d.reconnect_count + 1 })

  abbrev routes_back : Client Net → Result RouteError (Unit {0}) × (Tun × Net) → Bool × Client Net
  routes_back d (err e, (t, n)) = (false, record d { tun = some t; net = n })
  routes_back d (ok _, (t, n)) = (true, record d { tun = some t; net = n })

  -- The routes are given back; whether they were, and the client.
  restore_routes : Option Tun → Client Net → Bool × Client Net
  restore_routes none d = (false, d)
  restore_routes (some t) d =
      if d.route_all then routes_back d (restore_routing host (t, d.net)) else (false, d)

  -- monitorConnectionFailure, where the connection has failed: the client as attemptReconnect finds
  -- it.
  unfoldable pub on_connection_failure : Client Net → Client Net
  unfolding restore_routes
  on_connection_failure d =
      let (routed, d1) = restore_routes d.tun d in
      let d2 = record d1 { route_all = d.route_all && not routed } in
      record_event (lost d routed) d2

  -- monitorConnectionFailure
  unfoldable pub monitor_connection_failure : (ℕ → Attempt) → Client Net → Ending × Client Net
  monitor_connection_failure meets d = attempt_reconnect meets d.route_all (on_connection_failure d)

  -- shutdownWithReason, what happens once. Its broadcast goes to the peers' connections, of which a
  -- client has none.
  unfoldable pub shutdown_with_reason : Bytes → Client Net → Client Net
  unfolding restore_routes
  shutdown_with_reason reason d =
      if d.shut_down
      then d
      else (let (routed, d1) = restore_routes d.tun d in
          record_event
            (record {
              event =
                  if ltb 6 (length reason) && text_eq (take 6 reason) (codes "signal")
                  then codes "SIGNAL"
                  else codes "STOP";
              reason = reason;
              route_all = d1.route_all;
              route_restored = routed;
            })
            (record d1 { cancelled = true; shut_down = true }))
