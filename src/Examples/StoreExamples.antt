-- ===== src/Examples/StoreExamples.antt =====
-- Small tables of the store, a calendar of milliseconds, and a window of two samples.
use mathlib.Core.Option
use the_family_vpn.Base.{
  leb, if◌then◌else◌, drop, All, Bytes, codes, text_eq, lookup, insert, ℕ, ◌+◌, ◌*◌, ◌/◌, String,
  ◌≡◌, refl, Bool, true, false, some, List, [], ◌∷◌, ◌++◌, map, arith,
}
use the_family_vpn.Store.Rows.{filter, count, put_in_order, order_by}
use the_family_vpn.Store.Metrics.{
  Arithmetic, MetricTables, write_metric, enforce_metrics_retention, raw_groups, summarize,
  insert_or_replace, minute_groups, aggregate_metrics,
}
use the_family_vpn.Store.Metrics.Retention.{
  HasNoTag, counted, aggregate_metrics-enforce_metrics_retention,
}
use the_family_vpn.Store.Logs.{
  LogEntry, Logs, write_log, subscribe_logs, evicted, enforce_storage_limit,
}
use the_family_vpn.Store.Logs.Table.{IsNumbered, write_log-IsNumbered}
use the_family_vpn.Store.Logs.Eviction.{OldEnough, enforce_storage_limit-OldEnough}
use the_family_vpn.Store.Logs.Subscribers.{
  Line, write_line, write_lines, entry_of, HasRoom, write_lines-subscribers,
}
use the_family_vpn.Store.Queries.{LogQuery, matches, selected, query_logs}
use the_family_vpn.Store.Queries.Pages.{read_pages, read_pages-selected}
use the_family_vpn.Store.Queries.MetricSeries.{readings, series_points, query_metrics}
use the_family_vpn.Store.Lifecycle.{Lifecycle, is_crash, get_crash_stats}
use the_family_vpn.Store.Lifecycle.Statistics.{
  Event, write_events, get_crash_stats-write_lifecycle_events,
}
use the_family_vpn.Store.Handshakes.{Handshake, Handshakes, write_handshake}

-- Whole numbers for the values of metrics
abbrev pub whole : Arithmetic ℕ
whole = record {
  add = ◌+◌;
  multiply = ◌*◌;
  divide = λ a b. a / b;
  least = λ a b. if leb a b then a else b;
  greatest = λ a b. if leb a b then b else a;
  of_count = λ n. n;
}

-- Three rows of one minute, written at seconds 0, 20 and 40
abbrev three_rows : MetricTables ℕ
three_rows = write_metric 40000 (codes "m") 9 [] (
    write_metric 20000 (codes "m") 6 []
      (write_metric 0 (codes "m") 3 [] (record { raw = []; minutes = []; hours = [] })))

-- At 2 minutes the minute's row counts the three.
whole_minute : counted whole 0 (codes "m") (aggregate_metrics whole 120000 three_rows) ≡ 3
unfolding aggregate_metrics insert_or_replace raw_groups minute_groups summarize lookup insert
    text_eq write_metric
whole_minute = refl

-- One hour and 30 seconds later, retention has taken two of them, and the new row counts one.
eroded_minute :
    counted whole 0 (codes "m") (
      aggregate_metrics whole 3630000
        (enforce_metrics_retention 3630000 (aggregate_metrics whole 120000 three_rows)))
    ≡ 1
unfolding aggregate_metrics insert_or_replace raw_groups minute_groups summarize lookup insert
    text_eq write_metric enforce_metrics_retention filter
eroded_minute = refl

three_bare : All HasNoTag three_rows.raw
unfolding write_metric insert text_eq
three_bare = (refl, (refl, (refl, tt)))

aggregate_metrics-enforce_metrics_retention_example :
    counted whole 0
      (codes "m")
      (aggregate_metrics whole 3630000 (enforce_metrics_retention 3630000 three_rows))
    ≡ 1
unfolding write_metric insert text_eq count
aggregate_metrics-enforce_metrics_retention_example =
    aggregate_metrics-enforce_metrics_retention whole 3630000 0 (codes "m") three_rows three_bare
      (omega arith)

abbrev empty_logs : Logs
empty_logs = record { rows = []; next_id = 1; subscribers = []; next_channel = 0 }

abbrev said : ℕ → String → Line
said now text = record {
  now = now;
  level = codes "INFO";
  component = codes "node";
  message = codes text;
  fields = [];
}

abbrev six_lines : List Line
six_lines = said 1 "a" ∷ said 2 "b" ∷ said 3 "c" ∷ said 4 "d" ∷ said 5 "e" ∷ said 6 "f" ∷ []

-- A subscriber that came before the lines
abbrev followed : Logs
followed = (subscribe_logs empty_logs).1

followed_room : All HasRoom followed.subscribers
unfolding subscribe_logs
followed_room = (omega arith, tt)

write_lines-subscribers_example :
    (write_lines six_lines followed).subscribers
    ≡ record { channel = 0; buffer = map entry_of six_lines } ∷ []
unfolding subscribe_logs
write_lines-subscribers_example = write_lines-subscribers six_lines followed followed_room

abbrev six_rows : Logs
six_rows = write_lines six_lines empty_logs

empty-IsNumbered : IsNumbered empty_logs
unfolding count
empty-IsNumbered = record { unique = λ i. omega arith; free = λ i above. refl }

six-IsNumbered : IsNumbered six_rows
unfolding write_lines
six-IsNumbered =
    let write = λ (l : Line) (t : Logs) (valid : IsNumbered t).
      write_log-IsNumbered l.now l.level l.component l.message l.fields t valid in
    write (said 6 "f") _ (
      write (said 5 "e") _ (
        write (said 4 "d") _ (
          write (said 3 "c") _
            (write (said 2 "b") _ (write (said 1 "a") empty_logs empty-IsNumbered)))))

write_log-IsNumbered_example : IsNumbered (write_line (said 1 "a") empty_logs)
write_log-IsNumbered_example =
    write_log-IsNumbered 1 (codes "INFO") (codes "node") (codes "a") [] empty_logs empty-IsNumbered

enforce_storage_limit-OldEnough_example :
    All (OldEnough (evicted six_rows.rows)) (enforce_storage_limit (some 60000000) six_rows).rows
enforce_storage_limit-OldEnough_example =
    enforce_storage_limit-OldEnough 60000000 six_rows (omega arith)

abbrev pub same_text : Bytes → Bytes → Bool
same_text pattern message = text_eq pattern (codes "%" ++ (message ++ codes "%"))

abbrev pub keep_case : Bytes → Bytes
keep_case s = s

abbrev oldest_first : LogQuery
oldest_first = record {
  time_range = some (record { start = 2; until = 6 });
  levels = codes "INFO" ∷ [];
  components = [];
  search = [];
  limit = 2;
  offset = 0;
  reverse = true;
}

abbrev times : List LogEntry → List ℕ
times [] = []
times (e ∷ es) = e.timestamp ∷ times es

first_page :
    let r = query_logs keep_case same_text oldest_first six_rows.rows in
    (times r.entries ≡ 2 ∷ 3 ∷ []) × ((r.total_count ≡ 5) × (r.has_more ≡ true))
unfolding query_logs selected matches order_by put_in_order filter count write_lines write_log
    text_eq
first_page = (refl, (refl, refl))

read_pages-selected_example :
    read_pages keep_case same_text 6 oldest_first six_rows.rows
    ≡ some (drop 0 (selected keep_case same_text oldest_first six_rows.rows))
unfolding selected matches order_by put_in_order filter write_lines write_log text_eq
read_pages-selected_example =
    read_pages-selected keep_case same_text 6 oldest_first six_rows.rows (omega arith) (omega arith)

all_pages :
    Option.map times (read_pages keep_case same_text 6 oldest_first six_rows.rows)
    ≡ some (2 ∷ 3 ∷ 4 ∷ 5 ∷ 6 ∷ [])
unfolding read_pages query_logs selected matches order_by put_in_order filter count write_lines
    write_log text_eq
all_pages = refl

query_metrics_minutes :
    query_metrics
      (λ r. codes "raw")
      (record {
        time_range = record { start = 0; until = 30000 };
        names = [];
        granularity = codes "auto";
      })
      three_rows
    ≡ record {
      name = codes "m";
      points =
          record {
            timestamp = 0;
            name = codes "m";
            value = 3;
            tags = [];
            granularity = codes "raw";
          }
          ∷ record {
            timestamp = 20000;
            name = codes "m";
            value = 6;
            tags = [];
            granularity = codes "raw";
          }
          ∷ [];
    }
      ∷ []
unfolding query_metrics readings series_points order_by put_in_order filter write_metric insert
    text_eq
query_metrics_minutes = refl

abbrev happened : ℕ → String → Bool → Bool → Event ℕ
happened now kind route_all restored = record {
  now = now;
  event = codes kind;
  reason = [];
  uptime_seconds = 0;
  route_all = route_all;
  route_restored = restored;
  version = codes "dev";
}

abbrev four_events : List (Event ℕ)
four_events =
    happened 1 "START" false false
    ∷ happened 2 "SIGNAL" true true
    ∷ happened 3 "START" false false
    ∷ happened 4 "CONNECTION_LOST" true false
    ∷ []

abbrev no_events : Lifecycle ℕ
no_events = record { rows = []; next_id = 1 }

get_crash_stats-write_lifecycle_events_example :
    get_crash_stats 0 (write_events four_events no_events)
    ≡ record { total = 2; with_route_all = 2; route_restore_failures = 1 }
unfolding is_crash count text_eq
get_crash_stats-write_lifecycle_events_example =
    get_crash_stats-write_lifecycle_events 0 1 four_events

abbrev installed_on : String → Handshake
installed_on name = record {
  node_name = codes name;
  vpn_address = codes "10.8.0.2";
  public_ip = [];
  hostname = codes name;
  os = codes "linux";
  arch = codes "arm64";
  version = codes "dev";
  go_version = [];
  install_ts = [];
  ssh_test_ok = true;
  ssh_test_error = [];
  ping_test_ok = false;
  ping_test_ms = 0;
}

abbrev one_handshake : Handshakes
one_handshake = write_handshake 5 (installed_on "laptop") (record { rows = []; next_id = 1 })
