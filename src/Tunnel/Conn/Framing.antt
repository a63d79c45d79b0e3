-- ===== src/Tunnel/Conn/Framing.antt =====
-- The packet framing of internal/tunnel/conn.go: what WritePacket sends, ReadPacket takes apart.
use the_family_vpn.Base.{
  ltb, ◌==◌, Bool-cases, length, drop, length-append, Bytes, ok-injective, >>=-eq-ok, ℕ, ◌+◌, ◌*◌,
  ◌^◌, ◌≤◌, ◌<◌, ◌≡◌, refl, sym, ap, ◌≢◌, ◌⊎◌, inl, inr, true, ◌||◌, Option, none, some, ◌++◌,
  append_assoc, arith, ok, err,
}
use the_family_vpn.Wire.{
  u32, put_uint32, uint32, read_full, uint32-put_uint32, length-put_uint32, drop-put_uint32,
  read_full-append, read_full-put_uint32, read_full-length,
}
use the_family_vpn.Tunnel.Crypto.{Gcm, IsAead, overhead, decrypt-encrypt, length-encrypt}
use the_family_vpn.Tunnel.Conn.{
  mtu, u64, Conn, fresh, new_conn, WriteFault, active_cipher, to_send, no_fault, write_packet,
  ReadError, invalid_length, ReadResult, open_packet, receive, read_body, after_length, read_packet,
  no_length, no_packet,
}

-- The cipher in use, if one is, keeps the promises of an AEAD.
abbrev pub IsSound : Option Gcm → Type 0
IsSound none = Unit
IsSound (some g) = IsAead g

-- The bytes that encryption adds to a packet.
abbrev pub extra : Option Gcm → ℕ
extra none = 0
extra (some g) = overhead g

length-to_send :
    (g : Option Gcm) (random packet payload : Bytes)
    → IsSound g
    → to_send g random packet ≡ ok payload
    → length payload ≡ length packet + extra g
unfolding to_send
length-to_send none random packet payload law h = rw (ok-injective h) (omega arith)
length-to_send (some g) random packet payload law h =
    length-encrypt g random packet law (ground arith)

open_packet-to_send :
    (g : Option Gcm) (random packet payload : Bytes)
    → IsSound g
    → to_send g random packet ≡ ok payload
    → open_packet g payload ≡ ok packet
unfolding to_send open_packet
open_packet-to_send none random packet payload law h = ap ok (sym (ok-injective h))
open_packet-to_send (some g) random packet payload law h =
    rw (decrypt-encrypt g random packet {cipher = payload} law (ground arith))

read_body-append :
    (c : Conn) (payload rest : Bytes)
    → 0 < length payload
    → length payload ≤ mtu * 2
    → read_body c (length payload) (payload ++ rest)
      ≡ receive c (length payload) (some (payload, rest))
unfolding read_body
read_body-append c payload rest pos fits = ground (arith, read_full-append payload rest)

-- A whole frame is taken off the front of the stream, whatever follows it.
read_packet-frame :
    (c : Conn) (payload rest : Bytes)
    → 0 < length payload
    → length payload ≤ mtu * 2
    → read_packet c (put_uint32 (length payload) ++ (payload ++ rest))
      ≡ receive c (length payload) (some (payload, rest))
unfolding read_packet
read_packet-frame c payload rest pos fits =
    let size : uint32 (put_uint32 (length payload)) ≡ length payload =
      omega (arith, uint32-put_uint32 (length payload)) in
    rw (read_full-put_uint32 (length payload) (payload ++ rest), read_packet)
      (rw size (read_body-append c payload rest pos fits))

abbrev pub counted : Conn → ℕ → Conn
counted c n = record c {
  bytes_sent = u64 (c.bytes_sent + n + 4);
  packets_sent = u64 (c.packets_sent + 1);
}

-- What a successful WritePacket has put on the wire.
write_packet_shape :
    (fault : Option WriteFault) (random : Bytes) (c : Conn) (packet : Bytes) {sent : Bytes × Conn}
    → write_packet fault random c packet ≡ ok sent
    → (payload : Bytes) × (to_send (active_cipher c) random packet ≡ ok payload)
      × (sent ≡ (put_uint32 (length payload) ++ payload, counted c (length payload)))
unfolding write_packet
write_packet_shape fault random c packet h =
    let (payload, made, rest) = >>=-eq-ok (to_send (active_cipher c) random packet) _ h in
    let (_, sound, last) = >>=-eq-ok (no_fault fault) _ rest in
    (payload, made, sym (ok-injective last))

-- The connections agree on the cipher, and the cipher is an AEAD.
pub record IsPaired (w r : Conn) : Type 0 where
  pub same : active_cipher w ≡ active_cipher r
  pub sound : IsSound (active_cipher w)

-- The reader after one packet whose frame holds `n` bytes.
abbrev pub received : Conn → ℕ → Conn
received r n = record r {
  bytes_recv = u64 (r.bytes_recv + u32 (n + 4));
  packets_recv = u64 (r.packets_recv + 1);
}

receive_opened :
    (r : Conn) (n : ℕ) (payload rest : Bytes) {packet : Bytes}
    → open_packet (active_cipher r) payload ≡ ok packet
    → receive r n (some (payload, rest))
      ≡ record { outcome = ok packet; left = rest; after = received r n }
unfolding receive
receive_opened r n payload rest h = rw h

-- If WritePacket succeeds on one end of a pair, and the packet is not empty and, with what
-- encryption adds, at most twice the MTU, then ReadPacket on the other end returns that packet,
-- leaves exactly what followed it on the stream, and counts its frame.
pub read_packet-write_packet :
    (fault : Option WriteFault) (random : Bytes) (w r : Conn) (packet rest : Bytes)
    {sent : Bytes × Conn}
    → IsPaired w r
    → 0 < length packet
    → length packet + extra (active_cipher w) ≤ mtu * 2
    → write_packet fault random w packet ≡ ok sent
    → read_packet r (sent.0 ++ rest) ≡ record {
      outcome = ok packet;
      left = rest;
      after = received r (length packet + extra (active_cipher w));
    }
read_packet-write_packet fault random w r packet rest {sent} pair pos fits h =
    let (payload, made, shape) = write_packet_shape fault random w packet h in
    let size = length-to_send (active_cipher w) random packet payload pair.sound made in
    let back = open_packet-to_send (active_cipher w) random packet payload pair.sound made in
    rw shape (
      rw (append_assoc (put_uint32 (length payload)) payload rest) (
        rw (read_packet-frame r payload rest (omega arith) (omega arith))
          (rw size (receive_opened r _ payload rest (rw pair.same at back)))))

-- A packet that WritePacket has sent and that, with what encryption adds, is longer than twice the MTU
-- and shorter than 2 ^ 32 is refused by ReadPacket on the other end: no counter has moved, and the
-- stream stands behind the first four bytes of the frame, so that its payload is read next.
pub read_packet_too_long :
    (fault : Option WriteFault) (random : Bytes) (w r : Conn) (packet rest : Bytes)
    {sent : Bytes × Conn}
    → IsPaired w r
    → mtu * 2 < length packet + extra (active_cipher w)
    → length packet + extra (active_cipher w) < 2 ^ 32
    → write_packet fault random w packet ≡ ok sent
    → ((read_packet r (sent.0 ++ rest)).outcome
        ≡ err (invalid_length (length packet + extra (active_cipher w))))
      × ((read_packet r (sent.0 ++ rest)).after ≡ r)
      × ((read_packet r (sent.0 ++ rest)).left ≡ drop 4 (sent.0 ++ rest))
      × (length (sent.0) ≡ 4 + (length packet + extra (active_cipher w)))
unfolding read_packet read_body
read_packet_too_long fault random w r packet rest {sent} pair long fits h =
    let (payload, made, shape) = write_packet_shape fault random w packet h in
    let size = length-to_send (active_cipher w) random packet payload pair.sound made in
    let prefix : uint32 (put_uint32 (length payload)) ≡ length packet + extra (active_cipher w) =
      omega (arith, uint32-put_uint32 (length payload)) in
    let full = length packet + extra (active_cipher w) in
    let over : (ltb (mtu * 2) full || full == 0) ≡ true = ground (arith, long) in
    rw shape (
      rw (append_assoc (put_uint32 (length payload)) payload rest) (
        rw (read_full-put_uint32 (length payload) (payload ++ rest)) (
          rw prefix (
            rw over (
              refl,
              refl,
              sym (drop-put_uint32 (length payload) (payload ++ rest)),
              omega (
                arith,
                length-append (put_uint32 (length payload)) payload,
                length-put_uint32 (length payload),
                size,
              ),
            )))))

-- The stream is shorter by `k` bytes and one whole frame, which the counters have taken in.
abbrev pub TookFrame : Conn → Bytes → ℕ → ReadResult → Type 0
TookFrame c s k x =
    (n : ℕ) × (0 < n)
    × (n ≤ mtu * 2)
    × (length s ≡ length x.left + n + k)
    × (x.after ≡ received c n)

abbrev pub Refused : Conn → ReadResult → Type 0
Refused c x = (e : ReadError) × (x.outcome ≡ err e) × (x.after ≡ c)

receive_progress :
    (c : Conn) (n : ℕ) (s : Bytes)
    → 0 < n
    → n ≤ mtu * 2
    → (r : Option (Bytes × Bytes)) → read_full n s ≡ r
    → TookFrame c s 0 (receive c n r) ⊎ Refused c (receive c n r)
unfolding receive
receive_progress c n s pos fits none e = inr (no_packet, refl, refl)
receive_progress c n s pos fits (some (packet, left)) e =
    inl (n, pos, fits, omega (arith, read_full-length n s e), refl)

read_body_progress :
    (c : Conn) (n : ℕ) (s : Bytes) → TookFrame c s 0 (read_body c n s) ⊎ Refused c (read_body c n s)
unfolding read_body
read_body_progress c n s = elim (Bool-cases (ltb (mtu * 2) n || (n == 0))) [
  | inl bad ↦ rw bad (inr (invalid_length n, refl, refl))
  | inr good ↦ rw good (receive_progress c n s (ground arith) (ground arith) (read_full n s) refl)
]

after_length_progress :
    (c : Conn) (s : Bytes) (r : Option (Bytes × Bytes))
    → read_full 4 s ≡ r
    → TookFrame c s 4 (after_length c r) ⊎ Refused c (after_length c r)
unfolding after_length
after_length_progress c s none e = inr (no_length, refl, refl)
after_length_progress c s (some (prefix, left)) e =
    elim (read_body_progress c (uint32 prefix) left) [
      | inl (n, pos, fits, size, counted) ↦
          inl (n, pos, fits, omega (arith, read_full-length 4 s e), counted)
      | inr refused ↦ inr refused
    ]

-- ReadPacket either takes one frame of 1 to 2800 bytes and its four-byte prefix off the stream and
-- counts it, whether or not the frame decrypts, or it fails and no counter moves.
pub read_packet_progress :
    (c : Conn) (s : Bytes) → TookFrame c s 4 (read_packet c s) ⊎ Refused c (read_packet c s)
unfolding read_packet
read_packet_progress c s = after_length_progress c s (read_full 4 s) refl

-- With a key that is not 32 bytes long, a connection with encryption switched on is made with no
-- error, and WritePacket sends every packet in the clear.
pub new_conn_bad_key :
    {Block : Type 0} (aes : Bytes → Option Block) (gcm : Block → Option Gcm)
    (key addr random packet : Bytes)
    → length key ≢ 32
    → (c : Conn) × (new_conn aes gcm true key addr ≡ ok c)
      × (c.encryption ≡ true)
      × ((write_packet none random c packet)
          ≡ ok (put_uint32 (length packet) ++ packet, counted c (length packet)))
unfolding new_conn write_packet active_cipher to_send
new_conn_bad_key aes gcm key addr random packet h = (fresh true addr, ground arith, refl, refl)
