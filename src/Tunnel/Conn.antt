-- ===== src/Tunnel/Conn.antt =====
-- internal/tunnel/conn.go: `Conn`, its packet framing and its statistics. The locks only keep one
-- call from running inside another, and every function here is one such call.
pub mod Framing
use the_family_vpn.Base.{
  ltb, ◌==◌, if◌then◌else◌, length, Bytes, Result, ◌>>=◌, ◌>>◌, ℕ, ◌+◌, ◌*◌, ◌%◌, ◌^◌, Bool, ◌&&◌,
  ◌||◌, Option, none, some, [], ◌++◌, ok, err,
}
use the_family_vpn.Wire.{u32, put_uint32, uint32, read_full}
use the_family_vpn.Tunnel.Crypto.{Gcm, CipherError, new_cipher, encrypt, decrypt}

-- internal/tunnel/tun.go
abbrev pub mtu : ℕ
mtu = 1400

abbrev pub u64 : ℕ → ℕ
u64 n = n % 2 ^ 64

pub record Conn : Type 0 where
  pub cipher : Option Gcm
  pub encryption : Bool
  pub remote_addr : Bytes
  pub bytes_sent : ℕ
  pub bytes_recv : ℕ
  pub packets_sent : ℕ
  pub packets_recv : ℕ

abbrev pub fresh : Bool → Bytes → Conn
fresh encryption addr = record {
  cipher = none;
  encryption = encryption;
  remote_addr = addr;
  bytes_sent = 0;
  bytes_recv = 0;
  packets_sent = 0;
  packets_recv = 0;
}

-- What Dial and Accept build once the network connection stands.
unfoldable pub new_conn :
    {Block : Type 0}
    → (Bytes → Option Block)
    → (Block → Option Gcm)
    → Bool
    → Bytes
    → Bytes
    → Result CipherError Conn
unfolding new_cipher
new_conn aes gcm encryption key addr =
    if encryption && (length key == 32)
    then (do g ← new_cipher aes gcm key; ok (record (fresh encryption addr) { cipher = some g }))
    else ok (fresh encryption addr)

-- The call of the buffered writer that fails, if one does.
pub data WriteFault : Type 0 where
  at_length at_packet at_flush : WriteFault

pub data WriteError : Type 0 where
  encryption_failed : CipherError → WriteError
  write_failed : WriteFault → WriteError

-- `c.encryption && c.cipher != nil`
unfoldable pub active_cipher : Conn → Option Gcm
active_cipher c = if c.encryption then c.cipher else none

sealed : Result CipherError Bytes → Result WriteError Bytes
sealed (ok cipher) = ok cipher
sealed (err e) = err (encryption_failed e)

-- The bytes after the length prefix.
unfoldable pub to_send : Option Gcm → Bytes → Bytes → Result WriteError Bytes
unfolding sealed
to_send none random packet = ok packet
to_send (some g) random packet = sealed (encrypt g random packet)

abbrev pub no_fault : Option WriteFault → Result WriteError (Unit {0})
no_fault none = ok tt
no_fault (some f) = err (write_failed f)

-- WritePacket: what goes out on the wire, and the connection with its counters moved. On an error
-- the counters stay.
unfoldable pub write_packet :
    Option WriteFault → Bytes → Conn → Bytes → Result WriteError (Bytes × Conn)
write_packet fault random c packet = do
  payload ← to_send (active_cipher c) random packet
  no_fault fault
  ok (
    put_uint32 (length payload) ++ payload,
    record c {
      bytes_sent = u64 (c.bytes_sent + length payload + 4);
      packets_sent = u64 (c.packets_sent + 1);
    },
  )

pub data ReadError : Type 0 where
  no_length no_packet : ReadError
  invalid_length : ℕ → ReadError
  decryption_failed : CipherError → ReadError

pub record ReadResult : Type 0 where
  pub outcome : Result ReadError Bytes
  pub left : Bytes
  pub after : Conn

opened : Result CipherError Bytes → Result ReadError Bytes
opened (ok plain) = ok plain
opened (err e) = err (decryption_failed e)

unfoldable pub open_packet : Option Gcm → Bytes → Result ReadError Bytes
unfolding opened
open_packet none packet = ok packet
open_packet (some g) packet = opened (decrypt g packet)

-- The packet has arrived: the counters move before it is decrypted.
unfoldable pub receive : Conn → ℕ → Option (Bytes × Bytes) → ReadResult
receive c n none = record { outcome = err no_packet; left = []; after = c }
receive c n (some (packet, left)) = record {
  outcome = open_packet (active_cipher c) packet;
  left = left;
  after = record c {
    bytes_recv = u64 (c.bytes_recv + u32 (n + 4));
    packets_recv = u64 (c.packets_recv + 1);
  };
}

unfoldable pub read_body : Conn → ℕ → Bytes → ReadResult
read_body c n s =
    if ltb (mtu * 2) n || (n == 0)
    then record { outcome = err (invalid_length n); left = s; after = c }
    else receive c n (read_full n s)

unfoldable pub after_length : Conn → Option (Bytes × Bytes) → ReadResult
after_length c none = record { outcome = err no_length; left = []; after = c }
after_length c (some (prefix, left)) = read_body c (uint32 prefix) left

-- ReadPacket on the bytes still to come. A short read uses them up.
unfoldable pub read_packet : Conn → Bytes → ReadResult
unfolding after_length
read_packet c s = after_length c (read_full 4 s)
