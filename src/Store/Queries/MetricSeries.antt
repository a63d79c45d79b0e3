-- ===== src/Store/Queries/MetricSeries.antt =====
-- internal/store/query.go: QueryMetrics, GetLatestMetrics and GetMetricStats.
use the_family_vpn.Base.{
  ltb, if◌then◌else◌, Bytes, codes, text_eq, insert, Dict, ℕ, Bool, ◌&&◌, ◌||◌, some, List, [], ◌∷◌,
}
use the_family_vpn.Store.Rows.{filter, order_by}
use the_family_vpn.Store.Metrics.{MetricPoint, RawRow, AggregateRow, MetricTables}
use the_family_vpn.Store.Queries.{Span, is_one_of, within}

-- `time_range` is a pointer that both callers of QueryMetrics set.
pub record MetricQuery : Type 0 where
  pub time_range : Span
  pub names : List Bytes
  pub granularity : Bytes

pub record MetricSeries (F : Type 0) : Type 0 where
  pub name : Bytes
  pub points : List (MetricPoint F)

-- The columns that the SELECT takes of a row
pub record Reading (F : Type 0) : Type 0 where
  pub timestamp : ℕ
  pub name : Bytes
  pub value : F

abbrev asked : List Bytes → List Bytes → List Bytes
asked [] stored = stored
asked (n ∷ ns) stored = n ∷ ns

module _ {F : Type 0} where
  abbrev raw_readings : Dict (RawRow F) → List (Reading F)
  raw_readings [] = []
  raw_readings ((k, r) ∷ rows) =
      record { timestamp = r.timestamp; name = r.name; value = r.value } ∷ raw_readings rows

  abbrev average_readings : Dict (AggregateRow F) → List (Reading F)
  average_readings [] = []
  average_readings ((k, r) ∷ rows) =
      record { timestamp = r.timestamp; name = r.name; value = r.avg_value } ∷ average_readings rows

  -- The table and the column of a granularity
  unfoldable pub readings : Bytes → MetricTables F → List (Reading F)
  readings granularity t =
      if text_eq granularity (codes "1m")
      then average_readings t.minutes
      else if text_eq granularity (codes "1h")
      then average_readings t.hours
      else raw_readings t.raw

  abbrev is_reading_of : Bytes → Span → Reading F → Bool
  is_reading_of name r x = text_eq x.name name && within (some r) x.timestamp

  abbrev earlier : Reading F → Reading F → Bool
  earlier a b = ltb a.timestamp b.timestamp

  abbrev points_of : Bytes → List (Reading F) → List (MetricPoint F)
  points_of granularity [] = []
  points_of granularity (x ∷ xs) =
      record {
        timestamp = x.timestamp;
        name = x.name;
        value = x.value;
        tags = [];
        granularity = granularity;
      }
      ∷ points_of granularity xs

  -- The points of one name
  unfoldable pub series_points : Bytes → Span → Bytes → MetricTables F → List (MetricPoint F)
  series_points granularity r name t =
      points_of granularity
        (order_by earlier (filter (is_reading_of name r) (readings granularity t)))

  -- SELECT DISTINCT name
  abbrev distinct_names : List (Reading F) → List Bytes
  distinct_names [] = []
  distinct_names (x ∷ xs) =
      let rest = distinct_names xs in if is_one_of x.name rest then rest else x.name ∷ rest

  abbrev add_series : Bytes → List (MetricPoint F) → List (MetricSeries F) → List (MetricSeries F)
  add_series name [] rest = rest
  add_series name (p ∷ ps) rest = record { name = name; points = p ∷ ps } ∷ rest

  series_of : Bytes → Span → List Bytes → MetricTables F → List (MetricSeries F)
  series_of granularity r [] t = []
  series_of granularity r (name ∷ names) t =
      add_series name (series_points granularity r name t) (series_of granularity r names t)

  -- QueryMetrics, for what SuggestGranularity says
  unfoldable pub query_metrics :
      (Span → Bytes) → MetricQuery → MetricTables F → List (MetricSeries F)
  unfolding series_of
  query_metrics suggest q t =
      let granularity =
        if text_eq q.granularity [] || text_eq q.granularity (codes "auto")
        then suggest q.time_range
        else q.granularity in
      series_of granularity q.time_range (asked q.names (distinct_names (readings granularity t))) t

  abbrev later_reading : Reading F → Reading F → Bool
  later_reading a b = ltb b.timestamp a.timestamp

  abbrev with_latest : Bytes → List (Reading F) → Dict F → Dict F
  with_latest name [] values = values
  with_latest name (x ∷ xs) values = insert name x.value values

  -- GetLatestMetrics
  unfoldable pub get_latest_metrics : List Bytes → MetricTables F → Dict F → Dict F
  get_latest_metrics [] t values = values
  get_latest_metrics (name ∷ names) t values = get_latest_metrics names t (
      with_latest name
        (order_by later_reading (filter (λ x. text_eq x.name name) (raw_readings t.raw))) values)
