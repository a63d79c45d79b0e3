-- ===== src/Store/Handshakes.antt =====
-- The table handshakes of internal/store/store.go, the history of installations.
pub mod History
use the_family_vpn.Base.{
  ltb, ◌==◌, if◌then◌else◌, take, Bytes, text_eq, ℕ, suc, Bool, true, List, [], ◌∷◌, ◌++◌, map,
}
use the_family_vpn.Store.Rows.{filter, count, order_by}

-- What WriteHandshake is given
pub record Handshake : Type 0 where
  pub node_name : Bytes
  pub vpn_address : Bytes
  pub public_ip : Bytes
  pub hostname : Bytes
  pub os : Bytes
  pub arch : Bytes
  pub version : Bytes
  pub go_version : Bytes
  pub install_ts : Bytes
  pub ssh_test_ok : Bool
  pub ssh_test_error : Bytes
  pub ping_test_ok : Bool
  pub ping_test_ms : ℕ

-- A row, its booleans being the integers 1 and 0
pub record HandshakeRow : Type 0 where
  pub id : ℕ
  pub timestamp : ℕ
  pub node_name : Bytes
  pub vpn_address : Bytes
  pub public_ip : Bytes
  pub hostname : Bytes
  pub os : Bytes
  pub arch : Bytes
  pub version : Bytes
  pub go_version : Bytes
  pub install_ts : Bytes
  pub ssh_test_ok : ℕ
  pub ssh_test_error : Bytes
  pub ping_test_ok : ℕ
  pub ping_test_ms : ℕ

pub record HandshakeRecord : Type 0 where
  pub id : ℕ
  pub timestamp : ℕ
  pub written : Handshake

pub record Handshakes : Type 0 where
  pub rows : List HandshakeRow
  pub next_id : ℕ

-- WriteHandshake
unfoldable pub write_handshake : ℕ → Handshake → Handshakes → Handshakes
write_handshake now h t = record {
  rows =
      t.rows
      ++ record {
        id = t.next_id;
        timestamp = now;
        node_name = h.node_name;
        vpn_address = h.vpn_address;
        public_ip = h.public_ip;
        hostname = h.hostname;
        os = h.os;
        arch = h.arch;
        version = h.version;
        go_version = h.go_version;
        install_ts = h.install_ts;
        ssh_test_ok = if h.ssh_test_ok then 1 else 0;
        ssh_test_error = h.ssh_test_error;
        ping_test_ok = if h.ping_test_ok then 1 else 0;
        ping_test_ms = h.ping_test_ms;
      }
        ∷ [];
  next_id = suc t.next_id;
}

-- The row as GetHandshakeHistory reads it
unfoldable pub scan_handshake : HandshakeRow → HandshakeRecord
scan_handshake r = record {
  id = r.id;
  timestamp = r.timestamp;
  written = record {
    node_name = r.node_name;
    vpn_address = r.vpn_address;
    public_ip = r.public_ip;
    hostname = r.hostname;
    os = r.os;
    arch = r.arch;
    version = r.version;
    go_version = r.go_version;
    install_ts = r.install_ts;
    ssh_test_ok = r.ssh_test_ok == 1;
    ssh_test_error = r.ssh_test_error;
    ping_test_ok = r.ping_test_ok == 1;
    ping_test_ms = r.ping_test_ms;
  };
}

abbrev pub is_from : Bytes → HandshakeRow → Bool
is_from [] r = true
is_from (c ∷ cs) r = text_eq r.node_name (c ∷ cs)

abbrev pub newest_first : HandshakeRow → HandshakeRow → Bool
newest_first a b = ltb b.timestamp a.timestamp

-- GetHandshakeHistory: the records and the total
unfoldable pub get_handshake_history : Bytes → ℕ → Handshakes → List HandshakeRecord × ℕ
get_handshake_history node_name limit t = (
  map scan_handshake (
      take (if limit == 0 then 100 else limit)
        (order_by newest_first (filter (is_from node_name) t.rows))),
  count (is_from node_name) t.rows,
)
