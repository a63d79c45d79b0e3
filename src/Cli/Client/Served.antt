-- ===== src/Cli/Client/Served.antt =====
-- The client of the control socket on a connection to a daemon that answers it: the lines that the two
-- scanners take, and what becomes of the others.
use the_family_vpn.Base.{
  ltb, if◌then◌else◌, le→ltb, length, All, Bytes, Result, ℕ, ◌+◌, ◌*◌, ◌%◌, ◌^◌, ◌≤◌, ◌<◌, ◌≡◌,
  refl, ap, Bool, true, false, ◌&&◌, Option, none, some, List, [], ◌∷◌, ◌++◌, map, arith, ok, err,
}
use the_family_vpn.Node.Control.{Request, ErrorCode}
use the_family_vpn.Node.Control.Dispatch.{Handlers, answer_line, handle_control_connection}
use the_family_vpn.Cli.Client.{
  Response, Scanned, scanned, broken, ended, CallError, connection_closed, Socket, ControlClient,
  after_encode, call,
}

-- The longest lines, with their ends, that the scanners of handleControlConnection and of NewClient take
abbrev pub server_buffer : ℕ
server_buffer = 64 * 1024

abbrev pub client_buffer : ℕ
client_buffer = 10 * 1024 * 1024

-- What the two ends do with encoding/json, and the errors of the encoder and of the client's scanner
pub record Transport (A E : Type 0) : Type 0 where
  pub request_line : Request → Option Bytes
  pub request_of : Bytes → Option Request
  pub line_of : ℕ × A → Bytes
  pub parse : Bytes → Result E Response
  pub bad_request : E
  pub too_long : E

-- The daemon, whether it still reads the connection, and what it has sent and the client has not read
pub record Link (Daemon : Type 0) : Type 0 where
  pub daemon : Daemon
  pub is_open : Bool
  pub unread : List Bytes

module _ {Daemon A E : Type 0} (h : Handlers Daemon A) (fail : ErrorCode → Bytes → A)
    (transport : Transport A E) where
  abbrev reply_with : (ℕ × A) × Daemon → Link Daemon → Link Daemon
  reply_with came l = record l {
    daemon = came.1;
    unread = l.unread ++ (transport.line_of came.0 ∷ []);
  }

  -- A line that is too long ends the loop of handleControlConnection.
  abbrev arrived : Bytes → Link Daemon → Link Daemon
  arrived text l =
      if l.is_open && ltb (length text) server_buffer
      then reply_with (answer_line h fail (transport.request_of text) l.daemon) l
      else record l { is_open = false }

  abbrev sent : Option Bytes → Link Daemon → Option E × Link Daemon
  sent none l = (some transport.bad_request, l)
  sent (some text) l = (none, arrived text l)

  abbrev take_line : List Bytes → Link Daemon → Scanned E × Link Daemon
  take_line [] l = (ended, l)
  take_line (text ∷ rest) l =
      if ltb (length text) client_buffer
      then (scanned text, record l { unread = rest })
      else (broken transport.too_long, l)

  unfoldable pub served : Socket (Link Daemon) E
  served = record {
    encode = λ req. sent (transport.request_line req);
    scan = λ l. take_line l.unread l;
    parse = transport.parse;
  }

  -- Parameters that json.Marshal encodes
  abbrev pub encoded : Option Bytes → Option (Result E Bytes)
  encoded none = none
  encoded (some raw) = some (ok raw)

  -- Calls with encoded parameters, one after the other
  unfoldable pub call_all :
      List (Bytes × Option Bytes)
      → ControlClient (Link Daemon)
      → List (Result (CallError E) Response) × ControlClient (Link Daemon)
  call_all [] c = ([], c)
  call_all ((method, params) ∷ calls) c =
      let first = call served method (encoded params) c in
      let rest = call_all calls first.1 in (first.0 ∷ rest.0, rest.1)

  -- Their requests, after the identifier
  unfoldable pub requests : ℕ → List (Bytes × Option Bytes) → List Request
  requests id [] = []
  requests id ((method, params) ∷ calls) =
      record { id = (id + 1) % 2 ^ 64; method = method; params = params }
      ∷ requests ((id + 1) % 2 ^ 64) calls

  -- A request that encoding/json encodes to a line that the daemon's scanner takes, and decodes again
  abbrev pub Fits : Request → Type 0
  Fits req =
      (text : Bytes) × (transport.request_line req ≡ some text)
      × (length text < server_buffer)
      × (transport.request_of text ≡ some req)

  -- An answer whose line the client's scanner takes and encoding/json decodes to a response
  abbrev pub IsRead : ℕ × A → Response → Type 0
  IsRead answer response =
      (length (transport.line_of answer) < client_buffer)
      × (transport.parse (transport.line_of answer) ≡ ok response)

  abbrev pub idle : Daemon → Link Daemon
  idle d = record { daemon = d; is_open = true; unread = [] }

  call_lem :
      (req : Request) (d : Daemon) (response : Response)
      → let came = answer_line h fail (some req) d in
        Fits req
        → IsRead came.0 response
        → after_encode served req.id (served.encode req (idle d))
          ≡ (ok response, record { conn = idle came.1; next_id = req.id })
  unfolding served
  call_lem req d response (text, made, short, back) (fits, read) =
      let takes : ltb (length text) server_buffer ≡ true = ground (arith, short) in
      let gives : ltb (length (transport.line_of (answer_line h fail (some req) d).0)) client_buffer
          ≡ true =
        ground (arith, fits) in
      rw made (rw takes (rw back (rw gives (rw read refl))))

  call-answer_line :
      (method : Bytes) (params : Option Bytes) (d : Daemon) (id : ℕ) (response : Response)
      → let req : Request = record { id = (id + 1) % 2 ^ 64; method = method; params = params } in
        let came = answer_line h fail (some req) d in
        Fits req
        → IsRead came.0 response
        → call served method (encoded params) (record { conn = idle d; next_id = id })
          ≡ (ok response, record { conn = idle came.1; next_id = (id + 1) % 2 ^ 64 })
  unfolding call served
  call-answer_line method none d id response fits read = call_lem _ d response fits read
  call-answer_line method (some raw) d id response fits read = call_lem _ d response fits read

  -- A request whose line does not fit ends the connection, and the daemon is as before.
  pub call_too_long :
      (req : Request) (d : Daemon) (text : Bytes)
      → transport.request_line req ≡ some text
      → server_buffer ≤ length text
      → after_encode served req.id (served.encode req (idle d)) ≡ (
        err connection_closed,
        record { conn = record (idle d) { is_open = false }; next_id = req.id },
      )
  unfolding served
  call_too_long req d text made long = rw made (rw (le→ltb (length text) server_buffer long) refl)

  -- On a connection of which the client has read all lines, if each request is encoded to a line shorter
  -- than 64 KiB that decodes to it, and each answer to a line shorter than 10 MiB that the client
  -- decodes to a response, then the calls return these responses, in order and without an error, the
  -- daemon is as after the requests alone, and nothing remains to be read.
  pub call_all-handle_control_connection :
      (response_of : ℕ × A → Response) (calls : List (Bytes × Option Bytes)) (d : Daemon) (id : ℕ)
      → let came = handle_control_connection h fail (map some (requests id calls)) d in
        let done = call_all calls (record { conn = idle d; next_id = id }) in
        All Fits (requests id calls)
        → All (λ answer. IsRead answer (response_of answer)) came.0
        → (done.0 ≡ map (λ answer. ok (response_of answer)) came.0) × (done.1.conn ≡ idle came.1)
  unfolding call_all requests handle_control_connection
  call_all-handle_control_connection response_of [] d id fits read = (refl, refl)
  call_all-handle_control_connection response_of ((method, params) ∷ calls) d id (fit, fits)
        (r, read) =
      let came =
        answer_line h fail
          (some (record { id = (id + 1) % 2 ^ 64; method = method; params = params })) d in
      let (same, after) =
        call_all-handle_control_connection response_of calls came.1 ((id + 1) % 2 ^ 64) fits read in
      rw (call-answer_line method params d id (response_of came.0) fit r)
        (ap (◌∷◌ (ok (response_of came.0))) same, after)
