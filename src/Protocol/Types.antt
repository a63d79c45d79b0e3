-- ===== src/Protocol/Types.antt =====
-- The messages' data, from internal/protocol/vpn.go and internal/protocol/control.go. A float64 is
-- only copied here, and stands as its bit pattern.
use the_family_vpn.Base.{Bytes, ℕ, Bool, Option}

pub record GeoLocation : Type 0 where
  pub latitude : ℕ
  pub longitude : ℕ
  pub city : Bytes
  pub country : Bytes
  pub isp : Bytes

-- The fields of PeerInfo that the handshake fills in; the rest stay at their zero values.
pub record PeerInfo : Type 0 where
  pub hostname : Bytes
  pub os : Bytes
  pub version : Bytes
  pub public_ip : Bytes
  pub geo : Option GeoLocation
  pub route_all : Bool

pub record PeerListEntry : Type 0 where
  pub name : Bytes
  pub vpn_address : Bytes
  pub hostname : Bytes
  pub os : Bytes
  pub public_ip : Bytes
  pub geo : Option GeoLocation

pub record DisconnectIntent : Type 0 where
  pub node_name : Bytes
  pub vpn_address : Bytes
  pub reason : Bytes
  pub route_all : Bool

pub record ReconnectInvite : Type 0 where
  pub server_name : Bytes
  pub reason : Bytes
  pub should_enable_routing : Bool

-- encoding/json at one type: `Marshal` and `Unmarshal` may fail.
pub record Json (A : Type 0) : Type 0 where
  pub marshal : A → Option Bytes
  pub unmarshal : Bytes → Option A
