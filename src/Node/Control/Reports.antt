-- ===== src/Node/Control/Reports.antt =====
-- internal/node/control.go: handleLogs, handleCrashStats and handleStats, which query a range of times.
use the_family_vpn.Base.{
  Bytes, codes, Result, Dict, Bool, false, Option, none, some, List, [], ◌∷◌, ◌++◌, map, ok, err,
}
use the_family_vpn.Store.Metrics.{MetricPoint}
use the_family_vpn.Store.Logs.{LogEntry}
use the_family_vpn.Store.Queries.{Span, LogQuery, LogQueryResult, query_logs}
use the_family_vpn.Store.Queries.MetricSeries.{MetricSeries, query_metrics, get_latest_metrics}
use the_family_vpn.Store.Lifecycle.{LifecycleEvent, get_last_crash, get_crash_stats}
use the_family_vpn.Store.TimeRange.{
  Calendar, Text, TimeError, parse_time_range, suggest_granularity,
}
use the_family_vpn.Node.Control.{
  Database, Control, Request, LogsParams, StatsParams, LogLine, PointLine, EventLine, Answer,
  failed, logs_result, stats_result, crash_result, Formats, decoded, or_default, default_limit,
  bad_params, in_database, event_line, invalid_params,
}

abbrev default_metrics : List Bytes
default_metrics =
    codes "vpn.bytes_sent"
    ∷ codes "vpn.bytes_recv"
    ∷ codes "vpn.packets_sent"
    ∷ codes "vpn.packets_recv"
    ∷ codes "vpn.active_peers"
    ∷ codes "vpn.uptime_seconds"
    ∷ codes "bandwidth.tx_current_bps"
    ∷ codes "bandwidth.rx_current_bps"
    ∷ []

abbrev metrics_or_default : List Bytes → List Bytes
metrics_or_default [] = default_metrics
metrics_or_default (n ∷ ns) = n ∷ ns

module _ {Time : Type 0} (formats : Formats Time) where
  -- The range of a query, in milliseconds
  abbrev span_of : Time × Time → Span
  span_of (start, stop) = record {
    start = formats.unix_milli_of start;
    until = formats.unix_milli_of stop;
  }

  abbrev log_line : LogEntry → LogLine
  log_line e = record {
    id = e.id;
    timestamp = formats.rfc3339 e.timestamp;
    level = e.level;
    component = e.component;
    message = e.message;
    fields = e.fields;
  }

  abbrev log_query : LogsParams → Time × Time → LogQuery
  log_query p r = record {
    time_range = some (span_of r);
    levels = p.levels;
    components = p.components;
    search = p.search;
    limit = default_limit p.limit 100;
    offset = 0;
    reverse = false;
  }

module _ {F Time : Type 0} (formats : Formats Time) (calendar : Calendar Time) (text : Text) where
  abbrev in_range : Bytes → Bytes → Time → (Time × Time → Answer F) → Answer F
  in_range earliest latest now next =
      by_range (parse_time_range calendar text earliest latest now) next
    where
      by_range : Result TimeError (Time × Time) → (Time × Time → Answer F) → Answer F
      by_range (err e) next' =
          failed invalid_params (codes "invalid time range: " ++ formats.error_text e)
      by_range (ok r) next' = next' r

  abbrev logs_answer : LogQueryResult → Answer F
  logs_answer r = logs_result (map (log_line formats) r.entries) r.total_count r.has_more

  abbrev with_logs :
      (Bytes → Bytes) → (Bytes → Bytes → Bool) → Time → Option LogsParams → Database F → Answer F
  with_logs to_upper like now none db = bad_params
  with_logs to_upper like now (some p) db =
      in_range (or_default p.earliest (codes "-15m")) (or_default p.latest (codes "now")) now
        λ r. logs_answer (query_logs to_upper like (log_query formats p r) db.logs.rows)

  -- handleLogs
  unfoldable pub handle_logs :
      (Bytes → Bytes) → (Bytes → Bytes → Bool) → Time → Request → Control F → Answer F
  handle_logs to_upper like now req d =
      in_database
        (with_logs to_upper like now (
          decoded formats.logs_params
            (record {
              earliest = [];
              latest = [];
              levels = [];
              components = [];
              search = [];
              limit = 0;
            })
            req.params))
        d.database

  abbrev with_crashes : Time → Option Bytes → Database F → Answer F
  with_crashes now none db = bad_params
  with_crashes now (some since) db =
      in_range (or_default since (codes "-24h")) (codes "now") now λ r.
        crash_result (get_crash_stats (formats.unix_milli_of r.0) db.lifecycle)
          (last_line (get_last_crash db.lifecycle))
    where
      last_line : Option (LifecycleEvent F) → Option (EventLine F)
      last_line none = none
      last_line (some e) = some (event_line formats e)

  -- handleCrashStats
  unfoldable pub handle_crash_stats : Time → Request → Control F → Answer F
  handle_crash_stats now req d =
      in_database (with_crashes now (decoded formats.crash_params [] req.params)) d.database

  abbrev point_line : MetricPoint F → PointLine F
  point_line p = record {
    timestamp = formats.rfc3339 p.timestamp;
    name = p.name;
    value = p.value;
    granularity = p.granularity;
  }

  abbrev series_line : MetricSeries F → Bytes × List (PointLine F)
  series_line s = (s.name, map point_line s.points)

  -- SuggestGranularity of the range, whose milliseconds the query goes by
  abbrev with_stats : Time → Dict F → Option StatsParams → Database F → Answer F
  with_stats now storage_info none db = bad_params
  with_stats now storage_info (some p) db =
      in_range (or_default p.earliest (codes "-5m")) (or_default p.latest (codes "now")) now λ r.
        stats_result
          (map series_line (
            query_metrics (λ span. suggest_granularity calendar r)
              (record {
                time_range = span_of formats r;
                names = p.metric_names;
                granularity = p.granularity;
              })
              db.metrics))
          (get_latest_metrics (metrics_or_default p.metric_names) db.metrics []) storage_info

  -- handleStats, for what GetStorageStats gives
  unfoldable pub handle_stats : Time → Dict F → Request → Control F → Answer F
  handle_stats now storage_info req d =
      in_database
        (with_stats now storage_info (
          decoded formats.stats_params
            (record { earliest = []; latest = []; metric_names = []; granularity = [] })
            req.params))
        d.database
