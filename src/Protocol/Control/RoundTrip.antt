-- ===== src/Protocol/Control/RoundTrip.antt =====
-- What a Make… function builds, the tests and the Parse… functions take apart.
use the_family_vpn.Base.{
  length-append, take-append, drop-append, Bytes, text_eq, text_eq_refl, ℕ, ◌≤◌, ◌≡◌, refl, true,
  false, some, List, ◌∷◌, ◌++◌, arith, ok, err,
}
use the_family_vpn.Tunnel.Packet.{is_valid_ip_packet}
use the_family_vpn.Protocol.Types.{PeerListEntry, DisconnectIntent, ReconnectInvite, Json}
use the_family_vpn.Protocol.Control.{
  cmd_peer_list, cmd_disconnect_intent, cmd_reconnect_invite, starts_with, is_control_message,
  extract_control_command, make_control_message, is_disconnect_intent_message, marshalled,
  make_message, parse_message, make_peer_list_message, parse_peer_list_message,
  make_disconnect_intent_message, parse_disconnect_intent_message, make_reconnect_invite_message,
  parse_reconnect_invite_message, wrong_kind,
}

-- What the command is does not matter: a message that MakeControlMessage builds passes
-- IsControlMessage, ExtractControlCommand gives the command back, and the message would also pass
-- IsValidIPPacket, since its first byte is that of an IPv4 header.
pub make_control_message_lem :
    (command : Bytes)
    → (is_control_message (make_control_message command) ≡ true)
      × (extract_control_command (make_control_message command) ≡ command)
      × (is_valid_ip_packet (make_control_message command) ≡ true)
unfolding make_control_message is_control_message extract_control_command text_eq is_valid_ip_packet
make_control_message_lem command = (ground arith, ground arith, refl)

-- A packet whose first byte is 0x45 or more, as in every IPv4 header (five words at least) and every
-- IPv6 header, is no control message.
pub ip_packet_is_no_control :
    (b : ℕ) (rest : Bytes) → (0x45 ≤ b) → is_control_message (b ∷ rest) ≡ false
unfolding is_control_message text_eq
ip_packet_is_no_control b rest h = ground arith

pub starts_with-append : (kind s : Bytes) → starts_with (kind ++ s) kind ≡ true
unfolding starts_with
starts_with-append kind s =
    rw (take-append kind s) (rw (text_eq_refl kind) (ground (arith, length-append kind s)))

pub parse_message-make_message :
    {A : Type 0} (json : Json A) (kind : Bytes) (a : A) (body : Bytes)
    → json.marshal a ≡ some body
    → json.unmarshal body ≡ some a
    → parse_message json kind (make_message json kind a) ≡ ok a
unfolding make_message parse_message
parse_message-make_message json kind a body made back = rw made (
    rw ((make_control_message_lem (kind ++ body)).1)
      (rw (starts_with-append kind body) (rw (drop-append kind body) (rw back))))

-- A value whose JSON reads back is what its message parses to: the peer list, the intent to
-- disconnect and the invitation to reconnect.
pub parse-make :
    (peers_json : Json (List PeerListEntry)) (intent_json : Json DisconnectIntent)
    (invite_json : Json ReconnectInvite) (peers : List PeerListEntry) (intent : DisconnectIntent)
    (invite : ReconnectInvite) (p i v : Bytes)
    → peers_json.marshal peers ≡ some p
    → peers_json.unmarshal p ≡ some peers
    → intent_json.marshal intent ≡ some i
    → intent_json.unmarshal i ≡ some intent
    → invite_json.marshal invite ≡ some v
    → invite_json.unmarshal v ≡ some invite
    → (parse_peer_list_message peers_json (make_peer_list_message peers_json peers) ≡ ok peers)
      × (parse_disconnect_intent_message intent_json
            (make_disconnect_intent_message intent_json intent)
          ≡ ok intent)
      × (parse_reconnect_invite_message invite_json
            (make_reconnect_invite_message invite_json invite)
          ≡ ok invite)
unfolding make_peer_list_message parse_peer_list_message make_disconnect_intent_message
    parse_disconnect_intent_message make_reconnect_invite_message parse_reconnect_invite_message
parse-make peers_json intent_json invite_json peers intent invite p i v mp up mi ui mv uv = (
  parse_message-make_message peers_json cmd_peer_list peers p mp up,
  parse_message-make_message intent_json cmd_disconnect_intent intent i mi ui,
  parse_message-make_message invite_json cmd_reconnect_invite invite v mv uv,
)

starts_with-head : (c k : ℕ) (cmd kind : Bytes) → starts_with (c ∷ cmd) (k ∷ kind) ≡ true → c ≡ k
unfolding starts_with text_eq
starts_with-head c k cmd kind h = ground arith

-- No packet parses as two kinds of message.
pub parse_exclusive :
    (peers_json : Json (List PeerListEntry)) (intent_json : Json DisconnectIntent)
    (invite_json : Json ReconnectInvite) (packet : Bytes) {peers : List PeerListEntry}
    → parse_peer_list_message peers_json packet ≡ ok peers
    → (parse_disconnect_intent_message intent_json packet ≡ err wrong_kind)
      × (parse_reconnect_invite_message invite_json packet ≡ err wrong_kind)
unfolding parse_peer_list_message parse_disconnect_intent_message parse_reconnect_invite_message
    parse_message starts_with text_eq
parse_exclusive peers_json intent_json invite_json packet h = (ground arith, ground arith)

-- The message of an intent to disconnect is recognised as one.
pub is_disconnect_intent-make :
    (json : Json DisconnectIntent) (wish : DisconnectIntent)
    → (is_control_message (make_disconnect_intent_message json wish) ≡ true)
      × (is_disconnect_intent_message
            (extract_control_command (make_disconnect_intent_message json wish))
          ≡ true)
unfolding make_disconnect_intent_message make_message is_disconnect_intent_message
is_disconnect_intent-make json wish =
    let command = cmd_disconnect_intent ++ marshalled (json.marshal wish) in
    let (control, back, _) = make_control_message_lem command in
    (control, rw back (starts_with-append cmd_disconnect_intent (marshalled (json.marshal wish))))
