-- ===== src/Examples/WireExamples.antt =====
-- Two ends of one encrypted connection, and the frames between them.
use the_family_vpn.Base.{
  ◌==◌, if◌then◌else◌, length, drop, Bytes, codes, ℕ, zero, suc, ◌+◌, ◌*◌, ◌^◌, ◌<◌, ◌≡◌, refl,
  true, false, Option, none, some, [], ◌∷◌, ◌++◌, arith, ok, err,
}
use the_family_vpn.Wire.{put_uint32, read_full}
use the_family_vpn.Tunnel.Crypto.{Gcm, IsAead, encrypt, overhead}
use the_family_vpn.Tunnel.Conn.{
  mtu, u64, Conn, fresh, new_conn, active_cipher, to_send, write_packet, read_packet,
  invalid_length,
}
use the_family_vpn.Tunnel.Conn.Framing.{
  counted, IsPaired, read_packet-write_packet, read_packet_too_long, new_conn_bad_key,
}

first : Bytes → ℕ
first [] = 0
first (b ∷ bs) = b

-- A cipher that puts a tag of one byte before the text, and asks for it again.
abbrev check_tag : ℕ → Bytes → Option Bytes
check_tag tag [] = none
check_tag tag (t ∷ plain) = if t == tag then some plain else none

abbrev tagging : Gcm
tagging = record {
  nonce_size = 2;
  overhead = 1;
  seal = λ nonce plain. first nonce ∷ plain;
  unseal = λ nonce sealed. check_tag (first nonce) sealed;
}

tagging-IsAead : IsAead tagging
tagging-IsAead = record {
  unseal-seal = λ nonce plain size. ground arith;
  length-seal = λ nonce plain. ground arith;
}

abbrev alice : Conn
alice = record (fresh true (codes "192.0.2.1:7777")) { cipher = some tagging; bytes_sent = 100 }

abbrev bob : Conn
bob = record (fresh true (codes "192.0.2.2:51000")) { cipher = some tagging; bytes_recv = 100 }

abbrev packet : Bytes
packet = 69 ∷ 0 ∷ 0 ∷ 20 ∷ []

abbrev frame : Bytes × Conn
frame = (0 ∷ 0 ∷ 0 ∷ 7 ∷ 9 ∷ 8 ∷ 9 ∷ packet, record alice { bytes_sent = 111; packets_sent = 1 })

writes_frame : write_packet none (9 ∷ 8 ∷ []) alice packet ≡ ok frame
unfolding write_packet active_cipher to_send encrypt read_full put_uint32 first
writes_frame = refl

ends-IsPaired : IsPaired alice bob
unfolding active_cipher
ends-IsPaired = record { same = refl; sound = tagging-IsAead }

encrypts : encrypt tagging (9 ∷ 8 ∷ []) packet ≡ ok (9 ∷ 8 ∷ 9 ∷ packet)
unfolding encrypt read_full first
encrypts = refl

read_packet-write_packet_example : read_packet bob (frame.0 ++ packet) ≡ record {
  outcome = ok packet;
  left = packet;
  after = record bob { bytes_recv = 111; packets_recv = 1 };
}
unfolding active_cipher overhead
read_packet-write_packet_example =
    read_packet-write_packet none (9 ∷ 8 ∷ []) alice bob packet packet ends-IsPaired (omega arith)
      (omega arith) writes_frame

-- A packet of `n` bytes.
zeros : ℕ → Bytes
zeros zero = []
zeros (suc n) = 0 ∷ zeros n

length-zeros : (n : ℕ) → length (zeros n) ≡ n
unfolding zeros
length-zeros zero = refl
length-zeros (suc n) = rw (length-zeros n)

abbrev plain : Conn
plain = fresh false []

abbrev sent_once : ℕ → Conn
sent_once n = record plain { bytes_sent = u64 (0 + n + 4); packets_sent = u64 (0 + 1) }

sends_plain :
    (p : Bytes)
    → write_packet none [] plain p ≡ ok (put_uint32 (length p) ++ p, sent_once (length p))
unfolding write_packet to_send active_cipher
sends_plain p = refl

too_long :
    (0 < length (zeros 2801))
    × (mtu * 2 < length (zeros 2801) + 0)
    × (length (zeros 2801) + 0 < 2 ^ 32)
too_long = (
  omega (arith, length-zeros 2801),
  omega (arith, length-zeros 2801),
  omega (arith, length-zeros 2801),
)

read_packet_too_long_example :
    ((read_packet plain ((put_uint32 (length (zeros 2801)) ++ zeros 2801) ++ [])).outcome
      ≡ err (invalid_length (length (zeros 2801) + 0)))
    × ((read_packet plain ((put_uint32 (length (zeros 2801)) ++ zeros 2801) ++ [])).after ≡ plain)
    × ((read_packet plain ((put_uint32 (length (zeros 2801)) ++ zeros 2801) ++ [])).left
        ≡ drop 4 ((put_uint32 (length (zeros 2801)) ++ zeros 2801) ++ []))
    × (length (put_uint32 (length (zeros 2801)) ++ zeros 2801) ≡ 4 + (length (zeros 2801) + 0))
unfolding active_cipher
read_packet_too_long_example =
    read_packet_too_long none [] plain plain (zeros 2801) [] (record { same = refl; sound = tt })
      (too_long.1) (too_long.2) (sends_plain (zeros 2801))

new_conn_bad_key_example :
    (c : Conn) × (new_conn {Block = Unit {0}}
        (λ _. some tt)
        (λ _. some tagging)
        true
        (1 ∷ 2 ∷ [])
        []
      ≡ ok c)
    × (c.encryption ≡ true)
    × (write_packet none [] c packet
        ≡ ok (put_uint32 (length packet) ++ packet, counted c (length packet)))
new_conn_bad_key_example =
    new_conn_bad_key {Block = Unit {0}} (λ _. some tt) (λ _. some tagging) (1 ∷ 2 ∷ []) [] [] packet
      (omega arith)
