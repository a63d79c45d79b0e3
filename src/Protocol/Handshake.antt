-- ===== src/Protocol/Handshake.antt =====
-- The handshake of internal/protocol/vpn.go: the client's PeerInfo one way, the assigned address
-- the other. What the network does to a write is not modelled: the functions give what is sent.
use mathlib.Core.Option
use the_family_vpn.Base.{
  ltb, ◌==◌, if◌then◌else◌, le→ltb, length, get_or, Bytes, Result, ◌>>=◌, ◌>>◌, reject_if, or_err,
  ℕ, ◌^◌, ◌≤◌, ◌<◌, ◌≡◌, refl, ap, Bool, true, false, Option, some, [], ◌∷◌, ◌++◌, append_assoc,
  arith, ok, err,
}
use the_family_vpn.Wire.{
  put_uint32, uint32, read_full, uint32-put_uint32, read_full-put_uint32, read_full-append,
}
use the_family_vpn.Protocol.Types.{PeerInfo, Json}

pub data HandshakeError : Type 0 where
  no_flag no_length no_body bad_json : HandshakeError
  too_large : ℕ → HandshakeError

-- WriteHandshake, up to the errors of the writer itself
unfoldable pub write_handshake : Json PeerInfo → Bool → PeerInfo → Option Bytes
write_handshake json encryption info =
    Option.map (λ body. (if encryption then 1 else 0) ∷ (put_uint32 (length body) ++ body))
      (json.marshal info)

-- A length prefix of at most `limit`, and that many bytes.
unfoldable pub read_sized : ℕ → Bytes → Result HandshakeError (Bytes × Bytes)
read_sized limit s = do
  (prefix, s') ← or_err (read_full 4 s) no_length
  reject_if (ltb limit (uint32 prefix)) (too_large (uint32 prefix))
  or_err (read_full (uint32 prefix) s') no_body

-- ReadHandshake: the flag, the info, and the bytes that follow.
unfoldable pub read_handshake :
    Json PeerInfo → Bytes → Result HandshakeError (Bool × PeerInfo × Bytes)
read_handshake json s = do
  (flag, s') ← or_err (read_full 1 s) no_flag
  (body, s'') ← read_sized 4096 s'
  info ← or_err (json.unmarshal body) bad_json
  ok (get_or flag 0 0 == 1, info, s'')

-- WriteAssignedIP
unfoldable pub write_assigned_ip : Bytes → Bytes
write_assigned_ip vpn_ip = put_uint32 (length vpn_ip) ++ vpn_ip

-- ReadAssignedIP
unfoldable pub read_assigned_ip : Bytes → Result HandshakeError (Bytes × Bytes)
read_assigned_ip s = read_sized 64 s

read_sized-append :
    (limit : ℕ) (body rest : Bytes)
    → length body ≤ limit
    → length body < 2 ^ 32
    → read_sized limit (put_uint32 (length body) ++ (body ++ rest)) ≡ ok (body, rest)
unfolding read_sized
read_sized-append limit body rest fits word =
    let size : uint32 (put_uint32 (length body)) ≡ length body =
      omega (arith, uint32-put_uint32 (length body)) in
    rw (read_full-put_uint32 (length body) (body ++ rest))
      (rw size (rw (le→ltb limit (length body) fits) (rw (read_full-append body rest))))

-- The address that WriteAssignedIP sends, of at most 64 bytes, is what ReadAssignedIP returns, and
-- nothing that follows it is read.
pub read_assigned_ip-write_assigned_ip :
    (vpn_ip rest : Bytes)
    → length vpn_ip ≤ 64
    → read_assigned_ip (write_assigned_ip vpn_ip ++ rest) ≡ ok (vpn_ip, rest)
unfolding read_assigned_ip write_assigned_ip
read_assigned_ip-write_assigned_ip vpn_ip rest fits =
    rw (append_assoc (put_uint32 (length vpn_ip)) vpn_ip rest)
      (read_sized-append 64 vpn_ip rest fits (omega arith))

abbrev flag_byte : Bool → ℕ
flag_byte encryption = if encryption then 1 else 0

flag_byte_back : (encryption : Bool) → (flag_byte encryption == 1) ≡ encryption
flag_byte_back true = refl
flag_byte_back false = refl

write_handshake_shape :
    (json : Json PeerInfo) (encryption : Bool) (info : PeerInfo) (body rest : Bytes) {sent : Bytes}
    → json.marshal info ≡ some body
    → write_handshake json encryption info ≡ some sent
    → sent ++ rest ≡ flag_byte encryption ∷ (put_uint32 (length body) ++ (body ++ rest))
unfolding write_handshake
write_handshake_shape json encryption info body rest {sent} made h =
    let shape : sent ≡ flag_byte encryption ∷ (put_uint32 (length body) ++ body) = ground arith in
    rw shape (ap (◌∷◌ (flag_byte encryption)) (append_assoc (put_uint32 (length body)) body rest))

read_sized_too_large :
    (limit : ℕ) (body rest : Bytes)
    → limit < length body
    → length body < 2 ^ 32
    → read_sized limit (put_uint32 (length body) ++ (body ++ rest)) ≡ err (too_large (length body))
unfolding read_sized
read_sized_too_large limit body rest big word =
    let size : uint32 (put_uint32 (length body)) ≡ length body =
      omega (arith, uint32-put_uint32 (length body)) in
    rw (read_full-put_uint32 (length body) (body ++ rest)) (rw size (ground arith))

-- If the info marshals to at most 4096 bytes, and those unmarshal to it again, ReadHandshake returns
-- the flag and the info that WriteHandshake was given, and leaves what follows.
pub read_handshake-write_handshake :
    (json : Json PeerInfo) (encryption : Bool) (info : PeerInfo) (body rest : Bytes) {sent : Bytes}
    → json.marshal info ≡ some body
    → json.unmarshal body ≡ some info
    → length body ≤ 4096
    → write_handshake json encryption info ≡ some sent
    → read_handshake json (sent ++ rest) ≡ ok (encryption, info, rest)
unfolding read_handshake write_handshake
read_handshake-write_handshake json encryption info body rest made back fits h =
    rw (write_handshake_shape json encryption info body rest made h) (
      rw (read_full-append (flag_byte encryption ∷ []) (put_uint32 (length body) ++ (body ++ rest)))
        (rw (read_sized-append 4096 body rest fits (omega arith))
          (rw back (rw (flag_byte_back encryption)))))

-- ReadHandshake refuses an info of more than 4096 bytes before it reads it.
pub read_handshake_too_large :
    (json : Json PeerInfo) (encryption : Bool) (info : PeerInfo) (body rest : Bytes) {sent : Bytes}
    → json.marshal info ≡ some body
    → 4096 < length body
    → length body < 2 ^ 32
    → write_handshake json encryption info ≡ some sent
    → read_handshake json (sent ++ rest) ≡ err (too_large (length body))
unfolding read_handshake write_handshake
read_handshake_too_large json encryption info body rest made big word h =
    rw (write_handshake_shape json encryption info body rest made h) (
      rw (read_full-append (flag_byte encryption ∷ []) (put_uint32 (length body) ++ (body ++ rest)))
        (rw (read_sized_too_large 4096 body rest big word)))
