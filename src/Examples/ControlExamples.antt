-- ===== src/Examples/ControlExamples.antt =====
-- A server's control socket that takes handshakes, and what it answers.
use the_family_vpn.Base.{
  codes, text_eq, decimal, ℕ, ◌/◌, String, ◌≡◌, refl, true, Option, none, some, List, [], ◌∷◌,
}
use the_family_vpn.Store.Rows.{filter, order_by}
use the_family_vpn.Store.Handshakes.{Handshake}
use the_family_vpn.Store.Handshakes.History.{history}
use the_family_vpn.Node.Control.{
  Control, Request, Answer, Formats, history_entry, no_handshake, handle_handshake,
  handle_handshake_history, handle_lifecycle, invalid_method, invalid_params, internal, failed,
  handshake_result, history_result, unreachable,
}
use the_family_vpn.Node.Control.Dispatch.{
  Handlers, cases, handle_request, answer_line, handle_control_connection,
}
use the_family_vpn.Node.Control.Reports.{handle_logs, handle_crash_stats, handle_stats}
use the_family_vpn.Node.Control.History.{handle_handshake_history-handle_handshake}
use the_family_vpn.Examples.StoreExamples.{same_text, keep_case}
use the_family_vpn.Examples.CollectorExamples.{plain, as_it_is}

-- Handshakes and history requests name a node; other parameters do not decode.
abbrev plain_formats : Formats ℕ
plain_formats = record {
  logs_params = λ raw. none;
  stats_params = λ raw. none;
  lifecycle_params = λ raw. none;
  crash_params = λ raw. none;
  handshake_params = λ raw. some (record no_handshake { node_name = raw });
  history_params = λ raw. some (record { node_name = raw; limit = 0 });
  rfc3339 = λ t. decimal t;
  error_text = λ e. [];
  unix_milli_of = λ t. t / 1000000;
}

abbrev new_server : Control ℕ
new_server = record {
  server_mode = true;
  version = codes "dev";
  database = some (record {
    logs = record { rows = []; next_id = 1; subscribers = []; next_channel = 0 };
    metrics = record { raw = []; minutes = []; hours = [] };
    lifecycle = record { rows = []; next_id = 1 };
    handshakes = record { rows = []; next_id = 1 };
  });
}

abbrev kept : (Request → Control ℕ → Answer ℕ) → Request → Control ℕ → Answer ℕ × Control ℕ
kept answer req d = (answer req d, d)

abbrev not_here : Request → Control ℕ → Answer ℕ × Control ℕ
not_here req d = (failed internal [], d)

abbrev handlers : Handlers (Control ℕ) (Answer ℕ)
handlers = record {
  status = not_here;
  peers = not_here;
  update = not_here;
  logs = kept (handle_logs plain_formats plain as_it_is keep_case same_text 5);
  stats = kept (handle_stats plain_formats plain as_it_is 5 []);
  connect = not_here;
  disconnect = not_here;
  connection_status = not_here;
  topology = not_here;
  network_peers = not_here;
  lifecycle = kept (handle_lifecycle plain_formats);
  crash_stats = kept (handle_crash_stats plain_formats plain as_it_is 5);
  install_handshake = handle_handshake plain_formats 5;
  handshake_history = kept (handle_handshake_history plain_formats unreachable);
}

abbrev ask : ℕ → String → String → Option Request
ask i method params = some (record { id = i; method = codes method; params = some (codes params) })

abbrev three_lines : List (Option Request)
three_lines = none ∷ ask 7 "handshake" "laptop" ∷ ask 8 "restart" "" ∷ []

-- No request, a handshake and an unknown method
answers :
    (handle_control_connection handlers failed three_lines new_server).0
    ≡ (0, failed invalid_params (codes "invalid JSON"))
      ∷ (7, handshake_result (codes "Welcome laptop! Handshake received.") true (codes "dev"))
      ∷ (8, failed invalid_method (codes "unknown method: restart"))
      ∷ []
unfolding handle_control_connection answer_line handle_request cases text_eq handle_handshake
answers = refl

abbrev laptop : Handshake
laptop = record no_handshake { node_name = codes "laptop" }

abbrev told : Request
told = record { id = 7; method = codes "handshake"; params = some (codes "laptop") }

abbrev asked_for : Request
asked_for = record { id = 8; method = codes "handshake_history"; params = some (codes "laptop") }

handle_handshake_history-handle_handshake_example :
    handle_handshake_history plain_formats unreachable asked_for
      (handle_handshake plain_formats 5 told new_server).1
    ≡ history_result
        (history_entry decimal (record { id = 1; timestamp = 5; written = laptop }) ∷ [])
        1
unfolding history filter order_by text_eq decimal
handle_handshake_history-handle_handshake_example =
    handle_handshake_history-handle_handshake plain_formats 5 told asked_for unreachable new_server
      (record {
        logs = record { rows = []; next_id = 1; subscribers = []; next_channel = 0 };
        metrics = record { raw = []; minutes = []; hours = [] };
        lifecycle = record { rows = []; next_id = 1 };
        handshakes = record { rows = []; next_id = 1 };
      })
      laptop (record { node_name = codes "laptop"; limit = 0 }) refl refl refl refl refl tt
