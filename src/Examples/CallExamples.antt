-- ===== src/Examples/CallExamples.antt =====
-- The client of the control socket on a connection to a daemon that counts its requests.
use the_family_vpn.Base.{
  length, take, drop, Bytes, codes, text_eq, Result, ℕ, zero, suc, ◌-◌, ◌^◌, ◌≡◌, refl, true,
  Option, none, some, List, [], ◌∷◌, ◌++◌, arith, ok, err,
}
use the_family_vpn.Node.Control.{Request, ErrorCode}
use the_family_vpn.Node.Control.Dispatch.{
  Handlers, cases, handle_request, answer_line, handle_control_connection,
}
use the_family_vpn.Cli.Client.{Response, call, fetch, status, result_failed}
use the_family_vpn.Cli.Client.Served.{
  Transport, Link, served, call_all, requests, call_all-handle_control_connection,
}

abbrev counted : Request → ℕ → Bytes × ℕ
counted req n = (n ∷ req.method, suc n)

abbrev handlers : Handlers ℕ Bytes
handlers = record {
  status = counted;
  peers = counted;
  update = counted;
  logs = counted;
  stats = counted;
  connect = counted;
  disconnect = counted;
  connection_status = counted;
  topology = counted;
  network_peers = counted;
  lifecycle = counted;
  crash_stats = counted;
  install_handshake = counted;
  handshake_history = counted;
}

abbrev refuse : ErrorCode → Bytes → Bytes
refuse code message = message

abbrev line_of : ℕ × Bytes → Bytes
line_of (id, answer) = id ∷ answer

abbrev response_of : ℕ × Bytes → Response
response_of (id, answer) = record { id = id; result = answer; error = none }

abbrev parse : Bytes → Result ℕ Response
parse [] = err 0
parse (id ∷ answer) = ok (response_of (id, answer))

-- The identifier, the length of the method and one more if there are parameters, and both texts
abbrev request_line : Request → Option Bytes
request_line req = some (req.id ∷ with_params req.method req.params)
  where
    with_params : Bytes → Option Bytes → Bytes
    with_params method none = 0 ∷ method
    with_params method (some raw) = suc (length method) ∷ (method ++ raw)

abbrev request_of : Bytes → Option Request
request_of (id ∷ zero ∷ method) = some (record { id = id; method = method; params = none })
request_of (id ∷ suc n ∷ rest) =
    some (record { id = id; method = take n rest; params = some (drop n rest) })
request_of other = none

abbrev plain : Transport Bytes ℕ
plain = record {
  request_line = request_line;
  request_of = request_of;
  line_of = line_of;
  parse = parse;
  bad_request = 1;
  too_long = 2;
}

abbrev link : ℕ → Link ℕ
link n = record { daemon = n; is_open = true; unread = [] }

abbrev two_calls : List (Bytes × Option Bytes)
two_calls = (codes "status", none) ∷ (codes "logs", some (codes "{}")) ∷ []

call_all-handle_control_connection_example :
    ((call_all handlers refuse plain two_calls (record { conn = link 5; next_id = 0 })).0
      ≡ ok (response_of (1, 5 ∷ codes "status")) ∷ ok (response_of (2, 6 ∷ codes "logs")) ∷ [])
    × ((call_all handlers refuse plain two_calls (record { conn = link 5; next_id = 0 })).1.conn
        ≡ link 7)
unfolding requests handle_control_connection answer_line handle_request cases text_eq
call_all-handle_control_connection_example =
    call_all-handle_control_connection handlers refuse plain response_of two_calls 5 0
      ((_, refl, omega arith, refl), ((_, refl, omega arith, refl), tt))
      ((omega arith, refl), ((omega arith, refl), tt))

abbrev unreadable : Bytes → Result ℕ ℕ
unreadable text = err 3

-- A result that the client cannot decode
unread :
    status
      (served handlers refuse plain)
      unreadable
      (record { conn = link 5; next_id = 2 ^ 64 - 1 })
    ≡ (err (result_failed 3), record { conn = link 6; next_id = 0 })
unfolding status fetch call served answer_line handle_request cases text_eq
unread = refl
