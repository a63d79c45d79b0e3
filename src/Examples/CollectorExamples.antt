-- ===== src/Examples/CollectorExamples.antt =====
-- Time ranges over a calendar of nanoseconds, a window of two samples, and a collector of one source.
use the_family_vpn.Base.{
  ltb, All, codes, text_eq, has_prefix, decimal, value_from, insert, ℕ, ◌+◌, ◌-◌, ◌*◌, ◌/◌, ◌%◌,
  ◌^◌, ◌≡◌, refl, none, List, [], ◌∷◌, arith, ok, err,
}
use the_family_vpn.Store.Rows.{count}
use the_family_vpn.Store.Metrics.{insert_points, write_batch_metrics, aggregate_metrics}
use the_family_vpn.Store.Metrics.Retention.{HasNoTag, counted}
use the_family_vpn.Store.TimeRange.{
  Calendar, Text, second_ns, minute_ns, hour_ns, is_numeric, match_relative, add_duration,
  parse_relative, parse_normal_spec, parse_time_spec, parse_time_range, suggest_granularity,
  format_duration, start_after_end,
}
use the_family_vpn.Store.TimeRange.Parsing.{hours}
use the_family_vpn.Store.Collector.{Floats, BandwidthTracker, new_bandwidth_tracker, record_sample}
use the_family_vpn.Store.Collector.Window.{
  last_of, Reading, record_all, all_samples, IsWithin, record_all-all_samples,
}
use the_family_vpn.Store.Collector.Peak.{IsOrder}
use the_family_vpn.Store.Collector.Sources.{
  Collector, Tick, points_of, new_collector, register_source, gathered, collect, collect_ticks,
  collect_loop, ticked, stop_closed,
}
use the_family_vpn.Store.Collector.Rows.{aggregate_metrics-collect_loop}
use the_family_vpn.Examples.StoreExamples.{whole}

-- Days of 24 hours, counted as if each month had one
abbrev pub plain : Calendar ℕ
plain = record {
  add = λ t d. (t + d) % 2 ^ 64;
  add_date = λ t y m d. (t + d * (24 * hour_ns)) % 2 ^ 64;
  truncate = λ t d. (t / d) * d;
  date_of = λ t y m d. d * (24 * hour_ns);
  year_of = λ t. 0;
  month_of = λ t. 0;
  day_of = λ t. t / (24 * hour_ns);
  weekday_of = λ t. (t / (24 * hour_ns)) % 7;
  unix = λ s. s * second_ns;
  unix_milli = λ s. s * 1000000;
  parse = λ f s. none;
  parse_in_local = λ f s. none;
  after = λ a b. ltb b a;
  since = λ a b. a - b;
}

abbrev pub as_it_is : Text
as_it_is = record { to_lower = λ s. s; trim_space = λ s. s }

one_hour_ago : parse_time_spec plain as_it_is (codes "-1h") (3 * hour_ns) ≡ ok (2 * hour_ns)
unfolding parse_time_spec parse_normal_spec parse_relative match_relative add_duration text_eq
    is_numeric has_prefix value_from
one_hour_ago = refl

-- A range that ends before it starts
backwards :
    parse_time_range plain as_it_is (codes "now") (codes "-1h") (3 * hour_ns) ≡ err start_after_end
unfolding parse_time_range parse_time_spec parse_normal_spec parse_relative match_relative
    add_duration text_eq is_numeric has_prefix value_from
backwards = refl

-- A day and two hours, and an hour and a minute
durations :
    (format_duration (26 * hour_ns) ≡ codes "1d2h")
    × (format_duration (61 * minute_ns + 5) ≡ codes "1h1m")
unfolding format_duration decimal
durations = (refl, refl)

-- A day that is a year old asks for the minutes, which are kept for a day.
old_day : suggest_granularity plain (0, 24 * hour_ns) ≡ codes "1m"
unfolding suggest_granularity
old_day = refl

-- Whole numbers for rates
abbrev numbers : Floats ℕ
numbers = record {
  zero_float = 0;
  of_count = λ n. n;
  seconds = λ n. n;
  add = ◌+◌;
  divide = λ a b. a / b;
  exceeds = λ a b. ltb b a;
}

abbrev tracker : BandwidthTracker ℕ
tracker = new_bandwidth_tracker 10 2

abbrev reading : ℕ → ℕ → Reading
reading now bytes = record { now = now; bytes_sent = bytes; bytes_recv = 0 }

-- The second reading is not later than the first; the last one has a counter that was reset.
abbrev four_readings : List Reading
four_readings = reading 20 10 ∷ reading 20 99 ∷ reading 30 40 ∷ reading 31 39 ∷ []

window :
    (record_all numbers four_readings tracker).samples
    ≡ record { timestamp = 30; tx_bps = 3; rx_bps = 0 }
      ∷ record { timestamp = 31; tx_bps = 2 ^ 64 - 1; rx_bps = 0 }
      ∷ []
unfolding record_all record_sample new_bandwidth_tracker
window = refl

tracker-IsWithin : IsWithin numbers tracker
unfolding new_bandwidth_tracker
tracker-IsWithin = omega arith

record_all-all_samples_example :
    (record_all numbers four_readings tracker).samples
    ≡ last_of 2 (all_samples numbers (reading 10 0) four_readings)
unfolding new_bandwidth_tracker
record_all-all_samples_example =
    record_all-all_samples numbers four_readings tracker tracker-IsWithin

numbers-IsOrder : IsOrder numbers
numbers-IsOrder = record {
  irreflexive = λ x. ground arith;
  asymmetric = λ x y h. ground (arith, h);
  transitive = λ x y z h k. ground (arith, h, k);
}

-- One source, whose value is the world
abbrev gauge : Collector ℕ ℕ
gauge =
    register_source (codes "g") (λ w. (codes "m", w) ∷ [])
      (new_collector 0 (record { raw = []; minutes = []; hours = [] }))

-- Three rounds before the stop
abbrev rounds : List (Tick ℕ)
rounds = ticked 1000 5 ∷ ticked 2000 7 ∷ stop_closed ∷ ticked 3000 9 ∷ []

gauge_bare : All HasNoTag gauge.tables.raw
unfolding register_source new_collector
gauge_bare = tt

aggregate_metrics-collect_loop_example :
    counted whole 0
      (codes "m")
      (aggregate_metrics whole 120000 (collect_loop 0 1 rounds gauge).tables)
    ≡ 3
unfolding collect_loop collect_ticks collect gathered points_of register_source new_collector
    write_batch_metrics insert_points insert text_eq count
aggregate_metrics-collect_loop_example =
    aggregate_metrics-collect_loop whole 0 1 rounds gauge 120000 0 (codes "m") gauge_bare
      (omega arith)
