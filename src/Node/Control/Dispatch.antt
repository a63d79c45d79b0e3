-- ===== src/Node/Control/Dispatch.antt =====
-- internal/node/control.go: handleControlConnection and handleRequest, for any handlers of the methods.
use the_family_vpn.Base.{
  if◌then◌else◌, Bytes, codes, text_eq, Dict, ℕ, Option, none, some, List, [], ◌∷◌, ◌++◌,
}
use the_family_vpn.Node.Control.{Request, ErrorCode, invalid_method, invalid_params}

-- The handlers, of which some change the daemon
pub record Handlers (Daemon A : Type 0) : Type 0 where
  pub status : Request → Daemon → A × Daemon
  pub peers : Request → Daemon → A × Daemon
  pub update : Request → Daemon → A × Daemon
  pub logs : Request → Daemon → A × Daemon
  pub stats : Request → Daemon → A × Daemon
  pub connect : Request → Daemon → A × Daemon
  pub disconnect : Request → Daemon → A × Daemon
  pub connection_status : Request → Daemon → A × Daemon
  pub topology : Request → Daemon → A × Daemon
  pub network_peers : Request → Daemon → A × Daemon
  pub lifecycle : Request → Daemon → A × Daemon
  pub crash_stats : Request → Daemon → A × Daemon
  pub install_handshake : Request → Daemon → A × Daemon
  pub handshake_history : Request → Daemon → A × Daemon

-- The first entry of a name, or what is done without one
abbrev pub select : {H : Type 0} → Bytes → Dict H → H → H
select name [] other = other
select name ((n, h) ∷ hs) other = if text_eq name n then h else select name hs other

module _ {Daemon A : Type 0} (h : Handlers Daemon A) (fail : ErrorCode → Bytes → A) where
  -- The cases of the switch
  unfoldable pub cases : Dict (Request → Daemon → A × Daemon)
  cases =
      (codes "status", h.status)
      ∷ (codes "peers", h.peers)
      ∷ (codes "update", h.update)
      ∷ (codes "logs", h.logs)
      ∷ (codes "stats", h.stats)
      ∷ (codes "connect", h.connect)
      ∷ (codes "disconnect", h.disconnect)
      ∷ (codes "connection_status", h.connection_status)
      ∷ (codes "topology", h.topology)
      ∷ (codes "network_peers", h.network_peers)
      ∷ (codes "lifecycle", h.lifecycle)
      ∷ (codes "crash_stats", h.crash_stats)
      ∷ (codes "handshake", h.install_handshake)
      ∷ (codes "handshake_history", h.handshake_history)
      ∷ []

  abbrev pub unknown_method : Request → Daemon → A × Daemon
  unknown_method req d = (fail invalid_method (codes "unknown method: " ++ req.method), d)

  -- handleRequest
  unfoldable pub handle_request : Request → Daemon → A × Daemon
  handle_request req d = select req.method cases unknown_method req d

  unfoldable pub answer_line : Option Request → Daemon → (ℕ × A) × Daemon
  answer_line none d = ((0, fail invalid_params (codes "invalid JSON")), d)
  answer_line (some req) d = with_id (handle_request req d)
    where
      with_id : A × Daemon → (ℕ × A) × Daemon
      with_id (a, d') = ((req.id, a), d')

  -- handleControlConnection, for the lines that the scanner gives, each decoded: the answers with
  -- their identifiers
  unfoldable pub handle_control_connection : List (Option Request) → Daemon → List (ℕ × A) × Daemon
  unfolding answer_line
  handle_control_connection [] d = ([], d)
  handle_control_connection (line ∷ lines) d =
      let first = answer_line line d in
      let rest = handle_control_connection lines first.1 in (first.0 ∷ rest.0, rest.1)
