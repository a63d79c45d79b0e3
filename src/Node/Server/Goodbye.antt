-- ===== src/Node/Server/Goodbye.antt =====
-- A disconnection from end to end: the client's handleDisconnect, the server's handler of its message.
use the_family_vpn.Base.{
  Bool-cases, if-true, if-false, Bytes, codes, text_eq_refl, Result, ℕ, ◌≡◌, refl, ap, ◌∙◌, inl,
  inr, Bool, true, false, not, Option, none, some, [], ◌∷◌, ◌++◌, arith, ok, err,
}
use the_family_vpn.Protocol.Types.{DisconnectIntent, Json}
use the_family_vpn.Protocol.Control.{
  cmd_disconnect_intent, is_control_message, extract_control_command, is_disconnect_intent_message,
  make_disconnect_intent_message, parse_disconnect_intent_message, make_disconnect_ack_message,
}
use the_family_vpn.Protocol.Control.RoundTrip.{
  parse_message-make_message, is_disconnect_intent-make,
}
use the_family_vpn.Store.Clients.{Status, ClientStates, disconnected_intentional}
use the_family_vpn.Store.Clients.Intent.{perform, status_of, status_of-perform, intent}
use the_family_vpn.Tunnel.Routing.{Tun, Host, RouteError, restore_routing}
use the_family_vpn.Node.Server.{
  Codecs, Server, record_intent, acknowledge, handle_server_control_message, handle_client_packet,
}
use the_family_vpn.Node.Client.{
  Client, Done, rerouted, route_directly, disable_route_all, reply, send_intent, handle_disconnect,
  server_mode_only,
}

-- The intent that handleDisconnect makes.
abbrev pub our_intent : {Net : Type 0} → Client Net → DisconnectIntent
our_intent d = record {
  node_name = d.hostname;
  vpn_address = d.vpn_address;
  reason = codes "user_request";
  route_all = d.route_all;
}

-- The server records the intent that a client's message carries, and answers.
server_records :
    (codecs : Codecs) (now conn : ℕ) (addr : Bytes) (wish : DisconnectIntent) (body : Bytes)
    (s : Server) (table : ClientStates)
    → codecs.disconnect_intent.marshal wish ≡ some body
    → codecs.disconnect_intent.unmarshal body ≡ some wish
    → s.store ≡ some table
    → let e =
        handle_client_packet codecs now conn addr
          (make_disconnect_intent_message codecs.disconnect_intent wish)
          s in
      (e.store ≡ some (perform (intent now addr wish.reason) table))
      × (e.sent ≡ s.sent ++ (conn, make_disconnect_ack_message) ∷ [])
unfolding handle_client_packet handle_server_control_message parse_disconnect_intent_message
    acknowledge record_intent perform make_disconnect_intent_message
server_records codecs now conn addr wish body s table made back stored =
    let packet = make_disconnect_intent_message codecs.disconnect_intent wish in
    let (control, kind) = is_disconnect_intent-make codecs.disconnect_intent wish in
    let parsed =
      parse_message-make_message codecs.disconnect_intent cmd_disconnect_intent wish body made
        back in
    let shape =
      if-true (is_control_message packet) _ _ control
      ∙ (if-true (is_disconnect_intent_message (extract_control_command packet)) _ s kind
          ∙ ap (λ r. acknowledge now conn addr r s) parsed) in
    (
      ap (λ x. x.store) shape ∙ ap (record_intent now addr wish.reason) stored,
      ap (λ x. x.sent) shape,
    )

rerouted_sends :
    {Net : Type 0} (b : Bool) (d : Client Net) (r : Result RouteError (Unit {0}) × (Tun × Net))
    → (reply (rerouted b d r)).1.sent ≡ d.sent
rerouted_sends b d (err e, s) = refl
rerouted_sends b d (ok u, s) = refl

module _ {Net : Type 0} (host : Host Net) (split_host : Bytes → Option Bytes) where
  direct_sends :
      (t : Option Tun) (d : Client Net)
      → (reply (route_directly host split_host t d)).1.sent ≡ d.sent
  unfolding route_directly
  direct_sends none d = refl
  direct_sends (some t) d = elim (Bool-cases (not d.route_all)) [
    | inl direct ↦
        ap {A = Done Net} (λ x. (reply x).1.sent) (if-true (not d.route_all) (ok tt, d) _ direct)
    | inr routed ↦
        ap {A = Done Net} (λ x. (reply x).1.sent) (if-false (not d.route_all) (ok tt, d) _ routed)
        ∙ rerouted_sends false d (restore_routing host (t, d.net))
  ]

  disable_sends : (d : Client Net) → (reply (disable_route_all host split_host d)).1.sent ≡ d.sent
  unfolding disable_route_all
  disable_sends d = elim (Bool-cases d.server_mode) [
    | inl server ↦
        ap {A = Done Net} (λ x. (reply x).1.sent)
          (if-true d.server_mode (err server_mode_only, d) _ server)
    | inr client ↦
        ap {A = Done Net} (λ x. (reply x).1.sent)
          (if-false d.server_mode (err server_mode_only, d) _ client)
        ∙ direct_sends d.tun d
  ]

  intent_sent :
      (json : Json DisconnectIntent) (d : Client Net) (c : Option ℕ) (conn : ℕ)
      → c ≡ some conn
      → d.route_all ≡ true
      → (send_intent json c d).sent
        ≡ d.sent ++ (conn, make_disconnect_intent_message json (our_intent d)) ∷ []
  intent_sent json d none conn e routed = cc
  intent_sent json d (some c) conn e routed =
      let same : c ≡ conn = cc in
      ap (λ x. x.sent) (if-true d.route_all _ d routed)
      ∙ ap (λ x. d.sent ++ (x, make_disconnect_intent_message json (our_intent d)) ∷ []) same

  -- A client that is connected and routes sends, on `vpn disconnect`, one packet more than before,
  -- whether or not its routes can be restored. A server with a row for the address that the packet
  -- comes from then holds that the disconnection was intended, so that the address does not count as
  -- routing, and answers with the acknowledgement. The intent's JSON has to read back.
  pub handle_client_packet-handle_disconnect :
      (codecs : Codecs) (d : Client Net) (s : Server) (now conn server_conn : ℕ) (addr body : Bytes)
      (table : ClientStates) {status : Status}
      → d.vpn_conn ≡ some conn
      → d.route_all ≡ true
      → codecs.disconnect_intent.marshal (our_intent d) ≡ some body
      → codecs.disconnect_intent.unmarshal body ≡ some (our_intent d)
      → s.store ≡ some table
      → status_of addr table ≡ some status
      → (packet : Bytes) × (t : ClientStates) × ((handle_disconnect host split_host
            codecs.disconnect_intent d).1.sent
          ≡ d.sent ++ (conn, packet) ∷ [])
        × ((handle_client_packet codecs now server_conn addr packet s).store ≡ some t)
        × (status_of addr t ≡ some disconnected_intentional)
        × ((handle_client_packet codecs now server_conn addr packet s).sent
            ≡ s.sent ++ (server_conn, make_disconnect_ack_message) ∷ [])
  unfolding handle_disconnect
  handle_client_packet-handle_disconnect codecs d s now conn server_conn addr body table linked
        routed made back stored known =
      let (kept, answered) =
        server_records codecs now server_conn addr (our_intent d) body s table made back stored in
      (
        make_disconnect_intent_message codecs.disconnect_intent (our_intent d),
        perform (intent now addr (codes "user_request")) table,
        disable_sends (send_intent codecs.disconnect_intent d.vpn_conn d)
            ∙ intent_sent codecs.disconnect_intent d d.vpn_conn conn linked routed,
        kept,
        status_of-perform addr (intent now addr (codes "user_request")) table
            ∙ rw known (ground (arith, text_eq_refl addr)),
        answered,
      )
