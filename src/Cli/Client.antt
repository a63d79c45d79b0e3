-- ===== src/Cli/Client.antt =====
-- internal/cli/client.go: the client of the control socket. The encoding of JSON and the connection are
-- parameters; of the error in a response the client reads only the message.
pub mod Served
use the_family_vpn.Base.{
  Bytes, codes, Result, ◌>>=◌, ℕ, ◌+◌, ◌%◌, ◌^◌, Bool, Option, none, some, [], ◌∷◌, ok, err,
}
use the_family_vpn.Node.Control.{Request, LogsParams, StatsParams, HistoryParams}
use the_family_vpn.Store.Handshakes.{Handshake}

pub record Response : Type 0 where
  pub id : ℕ
  pub result : Bytes
  pub error : Option Bytes

-- What scanner.Scan gives: a line, an error or the end
pub data Scanned (E : Type 0) : Type 0 where
  scanned : Bytes → Scanned E
  broken : E → Scanned E
  ended : Scanned E

-- The errors that the methods return
pub data CallError (E : Type 0) : Type 0 where
  marshal_failed send_failed read_failed parse_failed result_failed : E → CallError E
  connection_closed : CallError E
  server_error : Bytes → CallError E

-- The connection with its encoder and its scanner, and the parser of a response
pub record Socket (Conn E : Type 0) : Type 0 where
  pub encode : Request → Conn → Option E × Conn
  pub scan : Conn → Scanned E × Conn
  pub parse : Bytes → Result E Response

pub record ControlClient (Conn : Type 0) : Type 0 where
  pub conn : Conn
  pub next_id : ℕ

-- NewClient, for what net.Dial gives for an address
unfoldable pub new_client :
    {Conn E : Type 0} → (Bytes → Result E Conn) → Bytes → Result E (ControlClient Conn)
new_client dial [] =
    dial (codes "127.0.0.1:9001") >>= λ conn. ok (record { conn = conn; next_id = 0 })
new_client dial (c ∷ cs) = dial (c ∷ cs) >>= λ conn. ok (record { conn = conn; next_id = 0 })

module _ {Conn E : Type 0} (socket : Socket Conn E) where
  abbrev pub marshalled_params : Option (Result E Bytes) → Result (CallError E) (Option Bytes)
  marshalled_params none = ok none
  marshalled_params (some (ok raw)) = ok (some raw)
  marshalled_params (some (err e)) = err (marshal_failed e)

  abbrev pub parsed : Result E Response → Result (CallError E) Response
  parsed (ok response) = ok response
  parsed (err e) = err (parse_failed e)

  abbrev pub read_response :
      ℕ → Scanned E × Conn → Result (CallError E) Response × ControlClient Conn
  read_response id (scanned text, conn) =
      (parsed (socket.parse text), record { conn = conn; next_id = id })
  read_response id (broken e, conn) = (err (read_failed e), record { conn = conn; next_id = id })
  read_response id (ended, conn) = (err connection_closed, record { conn = conn; next_id = id })

  abbrev pub after_encode : ℕ → Option E × Conn → Result (CallError E) Response × ControlClient Conn
  after_encode id (some e, conn) = (err (send_failed e), record { conn = conn; next_id = id })
  after_encode id (none, conn) = read_response id (socket.scan conn)

  abbrev pub send_request :
      ℕ
      → Bytes
      → Result (CallError E) (Option Bytes)
      → Conn
      → Result (CallError E) Response × ControlClient Conn
  send_request id method (err e) conn = (err e, record { conn = conn; next_id = id })
  send_request id method (ok raw) conn =
      after_encode id (socket.encode (record { id = id; method = method; params = raw }) conn)

  -- call, for what json.Marshal gives for the parameters that are not nil
  unfoldable pub call :
      Bytes
      → Option (Result E Bytes)
      → ControlClient Conn
      → Result (CallError E) Response × ControlClient Conn
  call method params c =
      send_request ((c.next_id + 1) % 2 ^ 64) method (marshalled_params params) c.conn

  abbrev pub read_result : {R : Type 0} → (Bytes → Result E R) → Response → Result (CallError E) R
  read_result {R = R} read r = with_error r.error
    where
      with_result : Result E R → Result (CallError E) R
      with_result (ok value) = ok value
      with_result (err e) = err (result_failed e)

      with_error : Option Bytes → Result (CallError E) R
      with_error (some message) = err (server_error message)
      with_error none = with_result (read r.result)

  -- What every method does with its name, its parameters and the decoder of its result
  unfoldable pub fetch :
      {R : Type 0}
      → Bytes
      → Option (Result E Bytes)
      → (Bytes → Result E R)
      → ControlClient Conn
      → Result (CallError E) R × ControlClient Conn
  fetch method params read c =
      let came = call method params c in (came.0 >>= read_result read, came.1)

  module _ {R : Type 0} (read : Bytes → Result E R) where
    unfoldable pub status : ControlClient Conn → Result (CallError E) R × ControlClient Conn
    status = fetch (codes "status") none read

    unfoldable pub peers : ControlClient Conn → Result (CallError E) R × ControlClient Conn
    peers = fetch (codes "peers") none read

    unfoldable pub update :
        (Bool × Bool → Result E Bytes)
        → Bool
        → Bool
        → ControlClient Conn
        → Result (CallError E) R × ControlClient Conn
    update marshal all rolling = fetch (codes "update") (some (marshal (all, rolling))) read

    unfoldable pub logs :
        (LogsParams → Result E Bytes)
        → LogsParams
        → ControlClient Conn
        → Result (CallError E) R × ControlClient Conn
    logs marshal params = fetch (codes "logs") (some (marshal params)) read

    unfoldable pub stats :
        (StatsParams → Result E Bytes)
        → StatsParams
        → ControlClient Conn
        → Result (CallError E) R × ControlClient Conn
    stats marshal params = fetch (codes "stats") (some (marshal params)) read

    unfoldable pub connect : ControlClient Conn → Result (CallError E) R × ControlClient Conn
    connect = fetch (codes "connect") none read

    unfoldable pub disconnect : ControlClient Conn → Result (CallError E) R × ControlClient Conn
    disconnect = fetch (codes "disconnect") none read

    unfoldable pub connection_status :
        ControlClient Conn → Result (CallError E) R × ControlClient Conn
    connection_status = fetch (codes "connection_status") none read

    unfoldable pub topology : ControlClient Conn → Result (CallError E) R × ControlClient Conn
    topology = fetch (codes "topology") none read

    unfoldable pub network_peers : ControlClient Conn → Result (CallError E) R × ControlClient Conn
    network_peers = fetch (codes "network_peers") none read

    unfoldable pub lifecycle :
        (ℕ → Result E Bytes) → ℕ → ControlClient Conn → Result (CallError E) R × ControlClient Conn
    lifecycle marshal limit = fetch (codes "lifecycle") (some (marshal limit)) read

    unfoldable pub crash_stats :
        (Bytes → Result E Bytes)
        → Bytes
        → ControlClient Conn
        → Result (CallError E) R × ControlClient Conn
    crash_stats marshal since = fetch (codes "crash_stats") (some (marshal since)) read

    unfoldable pub send_handshake :
        (Handshake → Result E Bytes)
        → Handshake
        → ControlClient Conn
        → Result (CallError E) R × ControlClient Conn
    send_handshake marshal handshake = fetch (codes "handshake") (some (marshal handshake)) read

    unfoldable pub handshake_history :
        (HistoryParams → Result E Bytes)
        → Bytes
        → ℕ
        → ControlClient Conn
        → Result (CallError E) R × ControlClient Conn
    handshake_history marshal node_name limit =
        fetch (codes "handshake_history")
          (some (marshal (record { node_name = node_name; limit = limit }))) read
