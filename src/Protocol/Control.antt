-- ===== src/Protocol/Control.antt =====
-- The control messages of internal/protocol/vpn.go: `CTRL:` before a command, and the commands that
-- carry JSON. The three kinds of those have the same code, once per type.
pub mod RoundTrip
use the_family_vpn.Base.{
  ltb, leb, if◌then◌else◌, length, take, drop, Bytes, codes, text_eq, Result, ◌>>=◌, ◌>>◌,
  reject_if, or_err, Bool, false, not, ◌&&◌, Option, none, some, List, [], ◌++◌,
}
use the_family_vpn.Protocol.Types.{Json, PeerListEntry, DisconnectIntent, ReconnectInvite}

abbrev pub control_prefix : Bytes
control_prefix = codes "CTRL:"

abbrev pub cmd_peer_list : Bytes
cmd_peer_list = codes "PEER_LIST:"

abbrev pub cmd_update_available : Bytes
cmd_update_available = codes "UPDATE_AVAILABLE"

abbrev pub cmd_server_restarting : Bytes
cmd_server_restarting = codes "SERVER_RESTARTING"

abbrev pub cmd_disconnect_intent : Bytes
cmd_disconnect_intent = codes "DISCONNECT_INTENT:"

abbrev pub cmd_reconnect_invite : Bytes
cmd_reconnect_invite = codes "RECONNECT_INVITE:"

abbrev pub cmd_disconnect_ack : Bytes
cmd_disconnect_ack = codes "DISCONNECT_ACK"

-- `len(s) >= len(p) && s[:len(p)] == p`
unfoldable pub starts_with : Bytes → Bytes → Bool
starts_with s p = leb (length p) (length s) && text_eq (take (length p) s) p

-- IsControlMessage
unfoldable pub is_control_message : Bytes → Bool
is_control_message packet =
    if ltb (length packet) (length control_prefix)
    then false
    else text_eq (take (length control_prefix) packet) control_prefix

-- ExtractControlCommand
unfoldable pub extract_control_command : Bytes → Bytes
extract_control_command packet =
    if not (is_control_message packet) then [] else drop (length control_prefix) packet

-- MakeControlMessage
unfoldable pub make_control_message : Bytes → Bytes
make_control_message command = control_prefix ++ command

-- IsPeerListMessage, IsDisconnectIntentMessage, IsReconnectInviteMessage, IsDisconnectAckMessage
unfoldable pub is_peer_list_message : Bytes → Bool
is_peer_list_message cmd = starts_with cmd cmd_peer_list

unfoldable pub is_disconnect_intent_message : Bytes → Bool
is_disconnect_intent_message cmd = starts_with cmd cmd_disconnect_intent

unfoldable pub is_reconnect_invite_message : Bytes → Bool
is_reconnect_invite_message cmd = starts_with cmd cmd_reconnect_invite

unfoldable pub is_disconnect_ack_message : Bytes → Bool
is_disconnect_ack_message cmd = text_eq cmd cmd_disconnect_ack

-- `data, _ := json.Marshal(v)`: a failure leaves no bytes.
marshalled : Option Bytes → Bytes
marshalled none = []
marshalled (some json) = json

-- MakePeerListMessage, MakeDisconnectIntentMessage, MakeReconnectInviteMessage: the command `kind`
-- with the JSON of a value.
unfoldable pub make_message : {A : Type 0} → Json A → Bytes → A → Bytes
unfolding marshalled
make_message json kind a = make_control_message (kind ++ marshalled (json.marshal a))

pub data ParseError : Type 0 where
  wrong_kind bad_json : ParseError

-- ParsePeerListMessage, ParseDisconnectIntentMessage, ParseReconnectInviteMessage
unfoldable pub parse_message : {A : Type 0} → Json A → Bytes → Bytes → Result ParseError A
parse_message json kind packet = do
  let cmd = extract_control_command packet
  reject_if (not (starts_with cmd kind)) wrong_kind
  or_err (json.unmarshal (drop (length kind) cmd)) bad_json

unfoldable pub make_peer_list_message : Json (List PeerListEntry) → List PeerListEntry → Bytes
make_peer_list_message json peers = make_message json cmd_peer_list peers

unfoldable pub parse_peer_list_message :
    Json (List PeerListEntry) → Bytes → Result ParseError (List PeerListEntry)
parse_peer_list_message json packet = parse_message json cmd_peer_list packet

unfoldable pub make_disconnect_intent_message : Json DisconnectIntent → DisconnectIntent → Bytes
make_disconnect_intent_message json intent = make_message json cmd_disconnect_intent intent

unfoldable pub parse_disconnect_intent_message :
    Json DisconnectIntent → Bytes → Result ParseError DisconnectIntent
parse_disconnect_intent_message json packet = parse_message json cmd_disconnect_intent packet

unfoldable pub make_reconnect_invite_message : Json ReconnectInvite → ReconnectInvite → Bytes
make_reconnect_invite_message json invite = make_message json cmd_reconnect_invite invite

unfoldable pub parse_reconnect_invite_message :
    Json ReconnectInvite → Bytes → Result ParseError ReconnectInvite
parse_reconnect_invite_message json packet = parse_message json cmd_reconnect_invite packet

unfoldable pub make_disconnect_ack_message : Bytes
make_disconnect_ack_message = make_control_message cmd_disconnect_ack
