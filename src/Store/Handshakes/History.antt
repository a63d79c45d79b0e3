-- ===== src/Store/Handshakes/History.antt =====
-- A handshake that was written is read back first, and with what it was written with.
use the_family_vpn.Base.{
  ltb, ◌==◌, if◌then◌else◌, length, take, All, Bytes, ℕ, zero, suc, ◌≡◌, refl, ap, ◌∙◌, Bool, true,
  false, List, [], ◌∷◌, map, arith,
}
use the_family_vpn.Store.Rows.{
  filter, count, order_by, length-filter, length-order_by, order_by-filter_append,
}
use the_family_vpn.Store.Handshakes.{
  Handshake, HandshakeRow, HandshakeRecord, Handshakes, write_handshake, scan_handshake, is_from,
  newest_first, get_handshake_history,
}

abbrev pub IsOlder : ℕ → HandshakeRow → Type 0
IsOlder now r = ltb r.timestamp now ≡ true

-- The row of a handshake
abbrev pub row_of : ℕ → ℕ → Handshake → HandshakeRow
row_of i now h = record {
  id = i;
  timestamp = now;
  node_name = h.node_name;
  vpn_address = h.vpn_address;
  public_ip = h.public_ip;
  hostname = h.hostname;
  os = h.os;
  arch = h.arch;
  version = h.version;
  go_version = h.go_version;
  install_ts = h.install_ts;
  ssh_test_ok = if h.ssh_test_ok then 1 else 0;
  ssh_test_error = h.ssh_test_error;
  ping_test_ok = if h.ping_test_ok then 1 else 0;
  ping_test_ms = h.ping_test_ms;
}

scan_handshake-row_of :
    (i now : ℕ) (h : Handshake)
    → scan_handshake (row_of i now h) ≡ record { id = i; timestamp = now; written = h }
unfolding scan_handshake
scan_handshake-row_of i now h = by_flags h.ssh_test_ok h.ping_test_ok
  where
    by_flags :
        (a b : Bool)
        → let g = record h { ssh_test_ok = a; ping_test_ok = b } in
          scan_handshake (row_of i now g) ≡ record { id = i; timestamp = now; written = g }
    by_flags true true = refl
    by_flags true false = refl
    by_flags false true = refl
    by_flags false false = refl

-- All the records of a node, or of every node for an empty name
unfoldable pub history : Bytes → Handshakes → List HandshakeRecord
history node_name t = map scan_handshake (order_by newest_first (filter (is_from node_name) t.rows))

map-take :
    (n : ℕ) (xs : List HandshakeRow)
    → map scan_handshake (take n xs) ≡ take n (map scan_handshake xs)
map-take zero xs = refl
map-take (suc n) [] = refl
map-take (suc n) (x ∷ xs) = ap (◌∷◌ (scan_handshake x)) (map-take n xs)

length-map : (xs : List HandshakeRow) → length (map scan_handshake xs) ≡ length xs
length-map [] = refl
length-map (x ∷ xs) = ap suc (length-map xs)

-- A limit n gives the first n records of the history, 100 for 0, and the number of all of them.
pub get_handshake_history_lem :
    (node_name : Bytes) (limit : ℕ) (t : Handshakes)
    → get_handshake_history node_name limit t ≡ (
      take (if limit == 0 then 100 else limit) (history node_name t),
      length (history node_name t),
    )
unfolding get_handshake_history history
get_handshake_history_lem node_name limit t =
    let rows = order_by newest_first (filter (is_from node_name) t.rows) in
    let n = if limit == 0 then 100 else limit in
    let total : count (is_from node_name) t.rows ≡ length (map scan_handshake rows) = omega (
      arith,
      length-map rows,
      length-order_by newest_first (filter (is_from node_name) t.rows),
      length-filter (is_from node_name) t.rows,
    ) in
    ap {A = List HandshakeRecord} (λ records. (records, count (is_from node_name) t.rows))
      (map-take n rows)
    ∙ ap {A = ℕ} (λ k. (take n (map scan_handshake rows), k)) total

map_if :
    (b : Bool) (r : HandshakeRow) (rs : List HandshakeRow)
    → map scan_handshake (if b then r ∷ rs else rs)
      ≡ (if b then scan_handshake r ∷ map scan_handshake rs else map scan_handshake rs)
map_if true r rs = refl
map_if false r rs = refl

-- A handshake that is newer than every row comes first in the history of its node and in that of all
-- nodes, with its number and everything that was written; the other nodes' histories stay.
pub history-write_handshake :
    (node_name : Bytes) (now : ℕ) (h : Handshake) (t : Handshakes)
    → All (IsOlder now) t.rows
    → history node_name (write_handshake now h t) ≡ (
        if is_from node_name (row_of t.next_id now h)
        then record { id = t.next_id; timestamp = now; written = h } ∷ history node_name t
        else history node_name t)
unfolding history write_handshake
history-write_handshake node_name now h t older =
    let rest = order_by newest_first (filter (is_from node_name) t.rows) in
    let row = row_of t.next_id now h in
    ap (map scan_handshake)
      (order_by-filter_append newest_first (is_from node_name) t.rows row older)
    ∙ map_if (is_from node_name row) row rest
    ∙ ap
        (λ x.
          if is_from node_name row then x ∷ map scan_handshake rest else map scan_handshake rest)
        (scan_handshake-row_of t.next_id now h)
