-- ===== src/Node/Control.antt =====
-- internal/node/control.go: the handlers of the control socket that read and write the store, and the
-- loop of a control connection. An answer is what sendResult or sendError is given. The statements of
-- the store succeed, as in its modules.
pub mod Reports
pub mod Peers
pub mod Dispatch
pub mod History
pub mod Answers
use the_family_vpn.Base.{
  ◌==◌, if◌then◌else◌, Bytes, codes, Dict, ℕ, Bool, true, false, not, Option, none, some, List, [],
  ◌∷◌, ◌++◌, map,
}
use the_family_vpn.Store.Metrics.{MetricTables}
use the_family_vpn.Store.Logs.{Logs}
use the_family_vpn.Store.Queries.{Span, LogQuery, LogQueryResult, query_logs}
use the_family_vpn.Store.Queries.MetricSeries.{MetricSeries, query_metrics, get_latest_metrics}
use the_family_vpn.Store.Lifecycle.{LifecycleEvent, Lifecycle, CrashStats, get_lifecycle_events}
use the_family_vpn.Store.Handshakes.{
  Handshake, HandshakeRecord, Handshakes, write_handshake, get_handshake_history,
}
use the_family_vpn.Store.TimeRange.{TimeError, formats}

-- The tables of the store
pub record Database (F : Type 0) : Type 0 where
  pub logs : Logs
  pub metrics : MetricTables F
  pub lifecycle : Lifecycle F
  pub handshakes : Handshakes

-- The fields of the daemon that these handlers use
pub record Control (F : Type 0) : Type 0 where
  pub server_mode : Bool
  pub version : Bytes
  pub database : Option (Database F)

pub record Request : Type 0 where
  pub id : ℕ
  pub method : Bytes
  pub params : Option Bytes

pub record LogsParams : Type 0 where
  pub earliest : Bytes
  pub latest : Bytes
  pub levels : List Bytes
  pub components : List Bytes
  pub search : Bytes
  pub limit : ℕ

pub record StatsParams : Type 0 where
  pub earliest : Bytes
  pub latest : Bytes
  pub metric_names : List Bytes
  pub granularity : Bytes

pub record HistoryParams : Type 0 where
  pub node_name : Bytes
  pub limit : ℕ

-- The entries of the results, their times being formatted
pub record LogLine : Type 0 where
  pub id : ℕ
  pub timestamp : Bytes
  pub level : Bytes
  pub component : Bytes
  pub message : Bytes
  pub fields : Bytes

pub record PointLine (F : Type 0) : Type 0 where
  pub timestamp : Bytes
  pub name : Bytes
  pub value : F
  pub granularity : Bytes

pub record EventLine (F : Type 0) : Type 0 where
  pub timestamp : Bytes
  pub of_event : LifecycleEvent F

pub record HandshakeEntry : Type 0 where
  pub id : ℕ
  pub timestamp : Bytes
  pub node_name : Bytes
  pub vpn_address : Bytes
  pub public_ip : Bytes
  pub hostname : Bytes
  pub os : Bytes
  pub arch : Bytes
  pub version : Bytes
  pub go_version : Bytes
  pub ssh_test_ok : Bool
  pub ping_test_ok : Bool
  pub ping_test_ms : ℕ

-- The three ErrCode constants
pub data ErrorCode : Type 0 where
  invalid_method invalid_params internal : ErrorCode

pub data Answer (F : Type 0) : Type 0 where
  failed : ErrorCode → Bytes → Answer F
  logs_result : List LogLine → ℕ → Bool → Answer F
  stats_result : List (Bytes × List (PointLine F)) → Dict F → Dict F → Answer F
  lifecycle_result : List (EventLine F) → Answer F
  crash_result : CrashStats → Option (EventLine F) → Answer F
  handshake_result : Bytes → Bool → Bytes → Answer F
  history_result : List HandshakeEntry → ℕ → Answer F

-- What the handlers call of the libraries: the decoding of each kind of parameters, the formatting of
-- a time and of an error, the milliseconds of a time.
pub record Formats (Time : Type 0) : Type 0 where
  pub logs_params : Bytes → Option LogsParams
  pub stats_params : Bytes → Option StatsParams
  pub lifecycle_params : Bytes → Option ℕ
  pub crash_params : Bytes → Option Bytes
  pub handshake_params : Bytes → Option Handshake
  pub history_params : Bytes → Option HistoryParams
  pub rfc3339 : ℕ → Bytes
  pub error_text : TimeError → Bytes
  pub unix_milli_of : Time → ℕ

-- `if req.Params != nil { json.Unmarshal }`, with the value of the type when there are none
abbrev pub decoded : {P : Type 0} → (Bytes → Option P) → P → Option Bytes → Option P
decoded read zero_value none = some zero_value
decoded read zero_value (some raw) = read raw

abbrev pub or_default : Bytes → Bytes → Bytes
or_default [] other = other
or_default (c ∷ cs) other = c ∷ cs

abbrev pub default_limit : ℕ → ℕ → ℕ
default_limit limit other = if limit == 0 then other else limit

abbrev pub no_storage : {F : Type 0} → Answer F
no_storage = failed internal (codes "storage not initialized")

abbrev pub bad_params : {F : Type 0} → Answer F
bad_params = failed invalid_params (codes "invalid params")

abbrev pub history_entry : (ℕ → Bytes) → HandshakeRecord → HandshakeEntry
history_entry format r = record {
  id = r.id;
  timestamp = format r.timestamp;
  node_name = r.written.node_name;
  vpn_address = r.written.vpn_address;
  public_ip = r.written.public_ip;
  hostname = r.written.hostname;
  os = r.written.os;
  arch = r.written.arch;
  version = r.written.version;
  go_version = r.written.go_version;
  ssh_test_ok = r.written.ssh_test_ok;
  ping_test_ok = r.written.ping_test_ok;
  ping_test_ms = r.written.ping_test_ms;
}

abbrev pub no_handshake : Handshake
no_handshake = record {
  node_name = [];
  vpn_address = [];
  public_ip = [];
  hostname = [];
  os = [];
  arch = [];
  version = [];
  go_version = [];
  install_ts = [];
  ssh_test_ok = false;
  ssh_test_error = [];
  ping_test_ok = false;
  ping_test_ms = 0;
}

-- What the client's own request to 10.8.0.1:9001 gives: no connection, an error's text, or a history
pub data Proxied : Type 0 where
  unreachable : Proxied
  refused : Bytes → Proxied
  proxied : List HandshakeEntry → ℕ → Proxied

abbrev pub in_database : {F : Type 0} → (Database F → Answer F) → Option (Database F) → Answer F
in_database answer none = no_storage
in_database answer (some db) = answer db

module _ {F Time : Type 0} (formats : Formats Time) where
  abbrev record_handshake : ℕ → Handshake → Control F → Option (Database F) → Answer F × Control F
  record_handshake now h d none = (
    handshake_result (codes "Welcome " ++ (h.node_name ++ codes "! Handshake received.")) false
        d.version,
    d,
  )
  record_handshake now h d (some db) = (
    handshake_result (codes "Welcome " ++ (h.node_name ++ codes "! Handshake received.")) true
        d.version,
    record d { database = some (record db { handshakes = write_handshake now h db.handshakes }) },
  )

  abbrev with_handshake : ℕ → Option Handshake → Control F → Answer F × Control F
  with_handshake now none d = (bad_params, d)
  with_handshake now (some h) d = record_handshake now h d d.database

  -- handleHandshake
  unfoldable pub handle_handshake : ℕ → Request → Control F → Answer F × Control F
  handle_handshake now req d =
      with_handshake now (decoded formats.handshake_params no_handshake req.params) d

  abbrev from_proxy : Proxied → Answer F
  from_proxy unreachable = history_result [] 0
  from_proxy (refused text) = failed internal (codes "server query failed: " ++ text)
  from_proxy (proxied entries total) = history_result entries total

  abbrev history_answer : List HandshakeRecord × ℕ → Answer F
  history_answer (records, total) =
      history_result (map (history_entry formats.rfc3339) records) total

  abbrev from_store : HistoryParams → Option (Database F) → Answer F
  from_store p none = no_storage
  from_store p (some db) =
      history_answer (get_handshake_history p.node_name (default_limit p.limit 100) db.handshakes)

  abbrev with_history : Proxied → Option HistoryParams → Control F → Answer F
  with_history answer none d = bad_params
  with_history answer (some p) d =
      if not d.server_mode then from_proxy answer else from_store p d.database

  -- handleHandshakeHistory
  unfoldable pub handle_handshake_history : Proxied → Request → Control F → Answer F
  handle_handshake_history answer req d =
      with_history answer
        (decoded formats.history_params (record { node_name = []; limit = 0 }) req.params) d

  abbrev pub event_line : LifecycleEvent F → EventLine F
  event_line e = record { timestamp = formats.rfc3339 e.timestamp; of_event = e }

  abbrev with_lifecycle : Option ℕ → Database F → Answer F
  with_lifecycle none db = bad_params
  with_lifecycle (some limit) db =
      lifecycle_result (map event_line (get_lifecycle_events (default_limit limit 20) db.lifecycle))

  -- handleLifecycle
  unfoldable pub handle_lifecycle : Request → Control F → Answer F
  handle_lifecycle req d =
      in_database (with_lifecycle (decoded formats.lifecycle_params 0 req.params)) d.database
