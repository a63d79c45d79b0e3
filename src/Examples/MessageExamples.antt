-- ===== src/Examples/MessageExamples.antt =====
-- Handshakes and control messages, and the calls of one client on the server's table.
use the_family_vpn.Base.{
  if◌then◌else◌, Bytes, codes, text_eq, text_eq_refl, ◌≡◌, refl, true, false, none, some, List, [],
  ◌∷◌, ◌++◌, arith, ok,
}
use the_family_vpn.Wire.{put_uint32}
use the_family_vpn.Protocol.Types.{PeerInfo, PeerListEntry, DisconnectIntent, ReconnectInvite, Json}
use the_family_vpn.Protocol.Handshake.{
  write_handshake, read_handshake, read_handshake-write_handshake,
}
use the_family_vpn.Protocol.Control.{
  make_peer_list_message, parse_peer_list_message, make_disconnect_intent_message,
  parse_disconnect_intent_message, make_reconnect_invite_message, parse_reconnect_invite_message,
}
use the_family_vpn.Protocol.Control.RoundTrip.{parse-make}
use the_family_vpn.Store.Clients.Intent.{
  Call, perform_all, status_after, status_of, status_of-perform_all, concerns, connect, intent,
}

abbrev pub laptop : PeerInfo
laptop = record {
  hostname = codes "laptop";
  os = codes "darwin";
  version = codes "1.0";
  public_ip = [];
  geo = none;
  route_all = true;
}

-- A format that writes one value, and reads it back.
abbrev pub only : {A : Type 0} → A → Bytes → Json A
only a body = record {
  marshal = λ _. some body;
  unmarshal = λ s. if text_eq s body then some a else none;
}

abbrev info_json : Json PeerInfo
info_json = only laptop (123 ∷ 125 ∷ [])

abbrev hello : Bytes
hello = 1 ∷ 0 ∷ 0 ∷ 0 ∷ 2 ∷ 123 ∷ 125 ∷ []

writes_hello : write_handshake info_json true laptop ≡ some hello
unfolding write_handshake put_uint32
writes_hello = refl

reads_info : info_json.unmarshal (123 ∷ 125 ∷ []) ≡ some laptop
unfolding text_eq
reads_info = refl

read_handshake-write_handshake_example :
    read_handshake info_json (hello ++ 7 ∷ []) ≡ ok (true, laptop, 7 ∷ [])
read_handshake-write_handshake_example =
    read_handshake-write_handshake info_json true laptop (123 ∷ 125 ∷ []) (7 ∷ []) refl reads_info
      (omega arith) writes_hello

abbrev pub goodbye : DisconnectIntent
goodbye = record {
  node_name = codes "laptop";
  vpn_address = codes "10.8.0.2";
  reason = codes "user";
  route_all = true;
}

abbrev come_back : ReconnectInvite
come_back = record {
  server_name = codes "home";
  reason = codes "reconnection";
  should_enable_routing = true;
}

abbrev peers_json : Json (List PeerListEntry)
peers_json = only [] (91 ∷ 93 ∷ [])

abbrev intent_json : Json DisconnectIntent
intent_json = only goodbye (123 ∷ 125 ∷ [])

abbrev invite_json : Json ReconnectInvite
invite_json = only come_back (123 ∷ 125 ∷ [])

reads_only : {A : Type 0} (a : A) (body : Bytes) → (only a body).unmarshal body ≡ some a
reads_only a body = ground (arith, text_eq_refl body)

parse-make_example :
    (parse_peer_list_message peers_json (make_peer_list_message peers_json []) ≡ ok [])
    × (parse_disconnect_intent_message intent_json
          (make_disconnect_intent_message intent_json goodbye)
        ≡ ok goodbye)
    × (parse_reconnect_invite_message invite_json
          (make_reconnect_invite_message invite_json come_back)
        ≡ ok come_back)
parse-make_example =
    parse-make peers_json intent_json invite_json [] goodbye come_back (91 ∷ 93 ∷ [])
      (123 ∷ 125 ∷ []) (123 ∷ 125 ∷ []) refl (reads_only [] (91 ∷ 93 ∷ [])) refl
      (reads_only goodbye (123 ∷ 125 ∷ [])) refl (reads_only come_back (123 ∷ 125 ∷ []))

abbrev calls : List Call
calls = connect 10 (codes "10.8.0.2") (codes "laptop") true ∷ []

status_of-perform_all_example :
    status_of (codes "10.8.0.2") (perform_all calls [])
    ≡ status_after (codes "10.8.0.2") calls (status_of (codes "10.8.0.2") [])
status_of-perform_all_example = status_of-perform_all (codes "10.8.0.2") calls []

concerns_other : concerns (codes "10.8.0.2") (intent 11 (codes "10.8.0.3") []) ≡ false
unfolding text_eq
concerns_other = refl
