-- ===== src/Store/Clients.antt =====
-- The client states of internal/store/store.go, the server's side of the Connection Intent Protocol.
-- The table's primary key is the VPN address. A statement that fails changes no row, and its
-- callers only log the error, so each function here is the statement that succeeds.
pub mod Intent
use the_family_vpn.Base.{
  if◌then◌else◌, Bytes, lookup, insert, modify, map_values, Dict, ℕ, Bool, true, false, Option,
  none, some, [], ◌∷◌,
}

-- The three constants of the column `state`.
pub data Status : Type 0 where
  connected_routing connected_no_routing disconnected_intentional : Status

-- A row, `vpn_address` being its key. NULL is `none`.
pub record ClientState : Type 0 where
  pub node_name : Bytes
  pub state : Status
  pub route_all : Bool
  pub connected_at : Option ℕ
  pub disconnected_at : Option ℕ
  pub disconnect_reason : Option Bytes
  pub last_updated : ℕ

abbrev pub ClientStates : Type 0
ClientStates = Dict ClientState

abbrev pub connected_status : Bool → Status
connected_status route_all = if route_all then connected_routing else connected_no_routing

-- SetClientConnected: the INSERT and its ON CONFLICT clause leave the same row.
unfoldable pub set_client_connected : ℕ → Bytes → Bytes → Bool → ClientStates → ClientStates
set_client_connected now vpn_address node_name route_all = insert vpn_address (record {
  node_name = node_name;
  state = connected_status route_all;
  route_all = route_all;
  connected_at = some now;
  disconnected_at = none;
  disconnect_reason = none;
  last_updated = now;
})

-- SetClientRouteAll
unfoldable pub set_client_route_all : ℕ → Bytes → Bool → ClientStates → ClientStates
set_client_route_all now vpn_address route_all =
    modify vpn_address λ r. record r {
      state = connected_status route_all;
      route_all = route_all;
      last_updated = now;
    }

-- SetClientDisconnectedIntentional
unfoldable pub set_client_disconnected_intentional : ℕ → Bytes → Bytes → ClientStates → ClientStates
set_client_disconnected_intentional now vpn_address reason = modify vpn_address λ r. record r {
  state = disconnected_intentional;
  disconnected_at = some now;
  disconnect_reason = some reason;
  last_updated = now;
}

-- `WHERE state = connected_routing`
abbrev pub is_routing : Status → Bool
is_routing connected_routing = true
is_routing _ = false

-- GetClientsForReconnectInvite
unfoldable pub get_clients_for_reconnect_invite : ClientStates → ClientStates
get_clients_for_reconnect_invite [] = []
get_clients_for_reconnect_invite ((k, r) ∷ t) =
    let rest = get_clients_for_reconnect_invite t in
    if is_routing r.state then (k, r) ∷ rest else rest

-- GetClientState
unfoldable pub get_client_state : Bytes → ClientStates → Option ClientState
get_client_state vpn_address t = lookup vpn_address t

-- `WHERE state != disconnected_intentional`
cleared : ℕ → Status → ClientState → ClientState
cleared now disconnected_intentional r = r
cleared now _ r = record r { disconnected_at = some now; last_updated = now }

-- ClearAllClientStates
unfoldable pub clear_all_client_states : ℕ → ClientStates → ClientStates
unfolding cleared
clear_all_client_states now = map_values λ r. cleared now r.state r
