-- ===== src/Node/Server/Invites.antt =====
-- The Connection Intent Protocol from end to end: the server's handlers, the table, the invitation.
use the_family_vpn.Base.{
  if◌then◌else◌, Bool-cases, All, Bytes, codes, Result, or_err, >>=-eq-ok, ℕ, ◌≡◌, sym, ap, ◌∙◌,
  inl, inr, Bool, true, false, not, ◌&&◌, Option, none, some, List, [], ◌∷◌, ◌++◌, append-nil,
  arith, ok, err,
}
use the_family_vpn.Tunnel.Packet.{is_valid_ip_packet}
use the_family_vpn.Protocol.Types.{DisconnectIntent}
use the_family_vpn.Protocol.Control.{
  is_control_message, extract_control_command, is_disconnect_intent_message, ParseError,
  parse_disconnect_intent_message, make_reconnect_invite_message,
}
use the_family_vpn.Store.Clients.{ClientStates}
use the_family_vpn.Store.Clients.Intent.{
  Call, perform, perform_all, status_of, perform_all-append, was_routing, routes,
  no_invite_after_intent, connect, intent,
}
use the_family_vpn.Node.Address.{Addresses, assign_ip, out_of_fuel}
use the_family_vpn.Node.Server.{
  Codecs, Server, Fault, out_of_fuel, Hello, broadcast_peer_list, register, deserves_invite,
  record_connection, accept_client, drop_client, record_intent, acknowledge,
  handle_server_control_message, handle_client_packet, route_tun_packet,
}

-- The invitation that handleVPNClient writes.
abbrev pub invitation : Codecs → Server → Bytes
invitation codecs d = make_reconnect_invite_message codecs.reconnect_invite (record {
  server_name = d.node_name;
  reason = codes "reconnection";
  should_enable_routing = true;
})

-- What the server has sent when it has greeted a client, before the invitation if there is one.
unfoldable pub greeted : Codecs → Hello → Bytes → Server → List (ℕ × Bytes)
greeted codecs h addr d = (broadcast_peer_list codecs (register h addr d)).sent

record_connection_lem :
    (codecs : Codecs) (h : Hello) (addr : Bytes) (table : ClientStates) (d : Server)
    → let e = record_connection codecs h addr (some table) d in
      (e.store ≡ some (perform (connect h.now addr h.info.hostname h.info.route_all) table))
      × (e.sent
          ≡ d.sent
            ++ (if deserves_invite addr h.info.route_all table
                then (h.conn, invitation codecs d) ∷ []
                else []))
unfolding record_connection perform
record_connection_lem codecs h addr table d =
    elim (Bool-cases (deserves_invite addr h.info.route_all table)) [
      | inl invited ↦ (rw invited, rw invited)
      | inr silent ↦ (rw silent, rw silent (sym (append-nil d.sent)))
    ]

abbrev settled : Codecs → Hello → Bytes → Server → Addresses → Server
settled codecs h addr d t =
    record_connection codecs h addr d.store
      (broadcast_peer_list codecs (register h addr (record d { addresses = t })))

accept_client_shape :
    (codecs : Codecs) (h : Hello) (addr : Bytes) (d e : Server)
    → accept_client codecs h d ≡ ok (some addr, e)
    → (t : Addresses) × (settled codecs h addr d t ≡ e)
unfolding accept_client
accept_client_shape codecs h addr d e came =
    let ((a, t), given, rest) =
      >>=-eq-ok (or_err (assign_ip d.peers h.info.hostname h.public_ip d.addresses) out_of_fuel) _
        came in
    (t, by_sent a t h.ip_sent rest)
  where
    by_sent :
        (a : Bytes) (t : Addresses) (b : Bool)
        → ◌≡◌ {A = Result Fault (Option Bytes × Server)}
            (if b
              then ok (some a, settled codecs h a d t)
              else ok (none, record d { addresses = t }))
            (ok (some addr, e))
        → settled codecs h addr d t ≡ e
    by_sent a t true r = let at : a ≡ addr = cc in rw (← at) (cc)
    by_sent a t false r = cc

-- A server with a store that registers a client records the connection, and invites the client
-- exactly if the table said that its address was routing and it now comes without routing.
pub accept_client_invites :
    (codecs : Codecs) (h : Hello) (addr : Bytes) (table : ClientStates) (d e : Server)
    → d.store ≡ some table
    → accept_client codecs h d ≡ ok (some addr, e)
    → (e.store ≡ some (perform (connect h.now addr h.info.hostname h.info.route_all) table))
      × (e.sent
          ≡ greeted codecs h addr d
            ++ (if was_routing (status_of addr table) && not h.info.route_all
                then (h.conn, invitation codecs d) ∷ []
                else []))
unfolding greeted broadcast_peer_list register deserves_invite
accept_client_invites codecs h addr table d e stored came =
    let (t, shape) = accept_client_shape codecs h addr d e came in
    let d' = broadcast_peer_list codecs (register h addr (record d { addresses = t })) in
    let shape' : record_connection codecs h addr (some table) d' ≡ e =
      ap (λ st. record_connection codecs h addr st d') (sym stored) ∙ shape in
    let (kept, sent) = record_connection_lem codecs h addr table d' in
    (ap (λ x. x.store) (sym shape') ∙ kept, ap (λ x. x.sent) (sym shape') ∙ sent)

abbrev intent_call : ℕ → Bytes → Result ParseError DisconnectIntent → List Call
intent_call now addr (err e) = []
intent_call now addr (ok wish) = intent now addr wish.reason ∷ []

-- The messages of a client: the ones that record something make one call each.
abbrev pub calls_of : ℕ → Bytes → Bytes → Codecs → List Call
calls_of now addr packet codecs =
    if is_control_message packet && is_disconnect_intent_message (extract_control_command packet)
    then intent_call now addr (parse_disconnect_intent_message codecs.disconnect_intent packet)
    else []

acknowledge_store :
    (now conn : ℕ) (addr : Bytes) (r : Result ParseError DisconnectIntent) (table : ClientStates)
    (d : Server)
    → d.store ≡ some table
    → (acknowledge now conn addr r d).store ≡ some (perform_all (intent_call now addr r) table)
unfolding acknowledge perform_all perform
acknowledge_store now conn addr (err e) table d stored = stored
acknowledge_store now conn addr (ok wish) table d stored = rw (stored, record_intent)

handle_client_packet_store :
    (codecs : Codecs) (now conn : ℕ) (addr packet : Bytes) (table : ClientStates) (d : Server)
    → d.store ≡ some table
    → (handle_client_packet codecs now conn addr packet d).store
      ≡ some (perform_all (calls_of now addr packet codecs) table)
unfolding handle_client_packet handle_server_control_message perform_all
handle_client_packet_store codecs now conn addr packet table d stored =
    elim (Bool-cases (is_control_message packet)) [
      | inl control ↦
          elim (Bool-cases (is_disconnect_intent_message (extract_control_command packet))) [
            | inl wish ↦ rw control (
                rw wish (
                  acknowledge_store now conn addr
                    (parse_disconnect_intent_message codecs.disconnect_intent packet) table d
                    stored))
            | inr other ↦ rw control (rw other stored)
          ]
      | inr plain ↦ rw plain (elim (Bool-cases (is_valid_ip_packet packet)) [
        | inl valid ↦ rw valid stored
        | inr invalid ↦ rw invalid stored
      ])
    ]

-- What can happen to the server, one handler at a time and in any order, with the calls on the
-- table that each step makes.
pub data Step (codecs : Codecs) (d e : Server) (cs : List Call) : Type 0 where
  accepted :
      (h : Hello) (addr : Bytes)
      → accept_client codecs h d ≡ ok (some addr, e)
      → cs ≡ connect h.now addr h.info.hostname h.info.route_all ∷ []
      → Step codecs d e cs
  unanswered : (h : Hello) → accept_client codecs h d ≡ ok (none, e) → cs ≡ [] → Step codecs d e cs
  dropped : (addr : Bytes) → drop_client codecs addr d ≡ ok e → cs ≡ [] → Step codecs d e cs
  packet :
      (now conn : ℕ) (addr p : Bytes)
      → handle_client_packet codecs now conn addr p d ≡ e
      → cs ≡ calls_of now addr p codecs
      → Step codecs d e cs
  routed :
      (p : Bytes) (taken : Bool) → route_tun_packet p taken d ≡ e → cs ≡ [] → Step codecs d e cs

pub data Steps (codecs : Codecs) (d : Server) : Server → List Call → Type 0 where
  here : Steps codecs d d []
  next :
      {e f : Server} {cs ds : List Call}
      → Steps codecs d e cs
      → Step codecs e f ds
      → Steps codecs d f (cs ++ ds)

-- A client that its address cannot be sent to leaves no row.
unanswered_store :
    (codecs : Codecs) (h : Hello) (d e : Server)
    → accept_client codecs h d ≡ ok (none, e)
    → e.store ≡ d.store
unfolding accept_client
unanswered_store codecs h d e came =
    let ((a, t), given, rest) =
      >>=-eq-ok (or_err (assign_ip d.peers h.info.hostname h.public_ip d.addresses) out_of_fuel) _
        came in
    by_sent a t h.ip_sent rest
  where
    by_sent :
        (a : Bytes) (t : Addresses) (b : Bool)
        → ◌≡◌ {A = Result Fault (Option Bytes × Server)}
            (if b
              then ok (some a, settled codecs h a d t)
              else ok (none, record d { addresses = t }))
            (ok (none, e))
        → e.store ≡ d.store
    by_sent a t true r = cc
    by_sent a t false r =
        let same : record d { addresses = t } ≡ e = cc in sym (ap (λ x. x.store) same)

drop_client_store :
    (codecs : Codecs) (addr : Bytes) (d : Server) {e : Server}
    → drop_client codecs addr d ≡ ok e
    → e.store ≡ d.store
unfolding drop_client broadcast_peer_list
drop_client_store codecs addr d h = ground arith

route_tun_packet_store :
    (p : Bytes) (taken : Bool) (d : Server) → (route_tun_packet p taken d).store ≡ d.store
unfolding route_tun_packet
route_tun_packet_store p taken d = ground arith

Step-store :
    (codecs : Codecs) (d e : Server) (cs : List Call) (table : ClientStates)
    → d.store ≡ some table
    → Step codecs d e cs
    → e.store ≡ some (perform_all cs table)
unfolding perform_all
Step-store codecs d e cs table stored (accepted h addr came made) =
    rw made ((accept_client_invites codecs h addr table d e stored came).0)
Step-store codecs d e cs table stored (unanswered h gone made) =
    rw made (unanswered_store codecs h d e gone ∙ stored)
Step-store codecs d e cs table stored (dropped addr gone made) =
    rw made (drop_client_store codecs addr d gone ∙ stored)
Step-store codecs d e cs table stored (packet now conn addr p handled made) =
    rw made (rw (← handled) (handle_client_packet_store codecs now conn addr p table d stored))
Step-store codecs d e cs table stored (routed p taken done made) =
    rw made (rw (← done) (route_tun_packet_store p taken d ∙ stored))

-- Whatever handlers run, and in whatever order, the server's table is the one that their calls make
-- of the table at the start.
pub Steps-store :
    (codecs : Codecs) (d : Server) {e : Server} {cs : List Call} (table : ClientStates)
    → d.store ≡ some table
    → Steps codecs d e cs
    → e.store ≡ some (perform_all cs table)
unfolding perform_all
Steps-store codecs d table stored here = stored
Steps-store codecs d table stored (next {e} {f} {cs} {ds} r s) =
    Step-store codecs e f ds (perform_all cs table) (Steps-store codecs d table stored r) s
    ∙ ap some (sym (perform_all-append cs ds table))

-- On a server with a store, once an intent to disconnect has been recorded for an address, whatever
-- of the handlers of Step have run before or since, a client that is given this address and comes
-- without routing is sent the peer list and no more, provided that no client with routing on has
-- been registered under this address since the intent.
pub no_invite_after_intent-Steps :
    (codecs : Codecs) (d : Server) {e f : Server} (cs ds : List Call) (h : Hello) (now : ℕ)
    (addr reason : Bytes) (table : ClientStates)
    → d.store ≡ some table
    → Steps codecs d e (cs ++ intent now addr reason ∷ ds)
    → All (λ c. routes addr c ≡ false) ds
    → accept_client codecs h e ≡ ok (some addr, f)
    → f.sent ≡ greeted codecs h addr e
no_invite_after_intent-Steps codecs d {e} {f} cs ds h now addr reason table stored steps quiet
      came =
    let t = perform_all (cs ++ intent now addr reason ∷ ds) table in
    let (_, sent) =
      accept_client_invites codecs h addr t e f (Steps-store codecs d table stored steps) came in
    let silent = no_invite_after_intent cs ds now addr reason table quiet in
    sent ∙ rw silent (append-nil (greeted codecs h addr e))
