-- ===== src/Store/Metrics.antt =====
-- The metrics of internal/store/store.go: the three tables, their writes, retention and aggregation.
-- A table's primary key is (timestamp, name), spelt here as one list, the milliseconds before the
-- name. A statement that fails changes no row, so each function is the statement that succeeds.
pub mod Groups
pub mod Aggregation
pub mod Retention
use the_family_vpn.Base.{
  ltb, ◌==◌, if◌then◌else◌, Bytes, text_eq, insert, Dict, ℕ, ◌+◌, ◌-◌, ◌*◌, ◌/◌, Bool, false, not,
  ◌&&◌, ◌||◌, Option, none, some, List, [], ◌∷◌,
}
use the_family_vpn.Store.Rows.{filter}

-- The float64 operations that the statements use, with REAL's conversion of a count.
pub record Arithmetic (F : Type 0) : Type 0 where
  pub add : F → F → F
  pub multiply : F → F → F
  pub divide : F → F → F
  pub least : F → F → F
  pub greatest : F → F → F
  pub of_count : ℕ → F

pub record MetricPoint (F : Type 0) : Type 0 where
  pub timestamp : ℕ
  pub name : Bytes
  pub value : F
  pub tags : Bytes
  pub granularity : Bytes

-- A row of metrics_raw
pub record RawRow (F : Type 0) : Type 0 where
  pub timestamp : ℕ
  pub name : Bytes
  pub value : F
  pub tags : Bytes

-- A row of metrics_1m and of metrics_1h. `row_count` is its column `count`.
pub record AggregateRow (F : Type 0) : Type 0 where
  pub timestamp : ℕ
  pub name : Bytes
  pub min_value : F
  pub max_value : F
  pub avg_value : F
  pub sum_value : F
  pub row_count : ℕ
  pub tags : Bytes

pub record MetricTables (F : Type 0) : Type 0 where
  pub raw : Dict (RawRow F)
  pub minutes : Dict (AggregateRow F)
  pub hours : Dict (AggregateRow F)

-- In milliseconds
abbrev pub minute : ℕ
minute = 60000

abbrev pub hour : ℕ
hour = 3600000

abbrev pub day : ℕ
day = 24 * hour

abbrev pub metrics_retention_raw : ℕ
metrics_retention_raw = hour

abbrev pub metrics_retention_1m : ℕ
metrics_retention_1m = day

abbrev pub metrics_retention_1h : ℕ
metrics_retention_1h = 30 * day

-- The part of a group that the aggregate functions have seen. `weighted` is the sum that the average
-- divides by the count.
pub record Group (F : Type 0) : Type 0 where
  pub least_value : F
  pub greatest_value : F
  pub sum : F
  pub weighted : F
  pub members : ℕ

-- The columns of GROUP BY
pub record GroupKey : Type 0 where
  pub bucket : ℕ
  pub name : Bytes
  pub tags : Bytes

abbrev pub key_eq : GroupKey → GroupKey → Bool
key_eq a b = (a.bucket == b.bucket) && (text_eq a.name b.name && text_eq a.tags b.tags)

abbrev pub is_member : GroupKey → List GroupKey → Bool
is_member k [] = false
is_member k (j ∷ js) = key_eq j k || is_member k js

-- The timestamp of a bucket
abbrev pub bucket_of : ℕ → ℕ → ℕ
bucket_of width timestamp = (timestamp / width) * width

module _ {F : Type 0} where
  -- WriteMetric, the time being in milliseconds
  unfoldable pub write_metric : ℕ → Bytes → F → Bytes → MetricTables F → MetricTables F
  write_metric now name value tags t = record t {
    raw =
        insert (now ∷ name) (record { timestamp = now; name = name; value = value; tags = tags })
          t.raw;
  }

  unfoldable pub insert_points : List (MetricPoint F) → Dict (RawRow F) → Dict (RawRow F)
  insert_points [] t = t
  insert_points (p ∷ ps) t = insert_points ps (
      insert (p.timestamp ∷ p.name)
        (record { timestamp = p.timestamp; name = p.name; value = p.value; tags = p.tags }) t)

  -- WriteBatchMetrics: a transaction that is committed
  unfoldable pub write_batch_metrics : List (MetricPoint F) → MetricTables F → MetricTables F
  unfolding insert_points
  write_batch_metrics points t = record t { raw = insert_points points t.raw }

  abbrev raw_since : ℕ → Bytes × RawRow F → Bool
  raw_since cutoff (k, r) = not (ltb r.timestamp cutoff)

  abbrev aggregate_since : ℕ → Bytes × AggregateRow F → Bool
  aggregate_since cutoff (k, r) = not (ltb r.timestamp cutoff)

  -- enforceRetention, the part of the metrics
  unfoldable pub enforce_metrics_retention : ℕ → MetricTables F → MetricTables F
  enforce_metrics_retention now t = record {
    raw = filter (raw_since (now - metrics_retention_raw)) t.raw;
    minutes = filter (aggregate_since (now - metrics_retention_1m)) t.minutes;
    hours = filter (aggregate_since (now - metrics_retention_1h)) t.hours;
  }

module _ {F : Type 0} where
  -- The groups that there are, each once
  abbrev pub group_keys : List (GroupKey × Group F) → List GroupKey
  group_keys [] = []
  group_keys ((k, g) ∷ rows) =
      let rest = group_keys rows in if is_member k rest then rest else k ∷ rest

  -- The rows of the first SELECT, before they are grouped
  unfoldable pub raw_groups : ℕ → Dict (RawRow F) → List (GroupKey × Group F)
  raw_groups cutoff [] = []
  raw_groups cutoff ((k, r) ∷ rows) =
      let rest = raw_groups cutoff rows in
      let row : GroupKey × Group F = (
        record { bucket = bucket_of minute r.timestamp; name = r.name; tags = r.tags },
        record {
          least_value = r.value;
          greatest_value = r.value;
          sum = r.value;
          weighted = r.value;
          members = 1;
        },
      ) in
      if ltb r.timestamp cutoff then row ∷ rest else rest

module _ {F : Type 0} (floats : Arithmetic F) where
  join_groups : Option (Group F) → Group F → Group F
  join_groups none g = g
  join_groups (some old) g = record {
    least_value = floats.least old.least_value g.least_value;
    greatest_value = floats.greatest old.greatest_value g.greatest_value;
    sum = floats.add old.sum g.sum;
    weighted = floats.add old.weighted g.weighted;
    members = old.members + g.members;
  }

  -- The aggregates of the members of one group, given with the key of each row
  unfoldable pub summarize :
      GroupKey → List (GroupKey × Group F) → Option (Group F) → Option (Group F)
  unfolding join_groups
  summarize k [] seen = seen
  summarize k ((j, g) ∷ rows) seen =
      summarize k rows (if key_eq j k then some (join_groups seen g) else seen)

  abbrev result_row : GroupKey → Group F → AggregateRow F
  result_row k g = record {
    timestamp = k.bucket;
    name = k.name;
    min_value = g.least_value;
    max_value = g.greatest_value;
    avg_value = floats.divide g.weighted (floats.of_count g.members);
    sum_value = g.sum;
    row_count = g.members;
    tags = k.tags;
  }

  abbrev pub replace_group :
      GroupKey → Option (Group F) → Dict (AggregateRow F) → Dict (AggregateRow F)
  replace_group k none t = t
  replace_group k (some g) t = insert (k.bucket ∷ k.name) (result_row k g) t

  abbrev pub replace_groups :
      List GroupKey → List (GroupKey × Group F) → Dict (AggregateRow F) → Dict (AggregateRow F)
  replace_groups [] rows t = t
  replace_groups (k ∷ ks) rows t =
      replace_groups ks rows (replace_group k (summarize k rows none) t)

  -- INSERT OR REPLACE … SELECT … GROUP BY
  unfoldable pub insert_or_replace :
      List (GroupKey × Group F) → Dict (AggregateRow F) → Dict (AggregateRow F)
  insert_or_replace rows t = replace_groups (group_keys rows) rows t

  -- The rows of the second one
  unfoldable pub minute_groups : ℕ → Dict (AggregateRow F) → List (GroupKey × Group F)
  minute_groups cutoff [] = []
  minute_groups cutoff ((k, r) ∷ rows) =
      let rest = minute_groups cutoff rows in
      let row : GroupKey × Group F = (
        record { bucket = bucket_of hour r.timestamp; name = r.name; tags = r.tags },
        record {
          least_value = r.min_value;
          greatest_value = r.max_value;
          sum = r.sum_value;
          weighted = floats.multiply r.avg_value (floats.of_count r.row_count);
          members = r.row_count;
        },
      ) in
      if ltb r.timestamp cutoff then row ∷ rest else rest

  -- aggregateMetrics
  unfoldable pub aggregate_metrics : ℕ → MetricTables F → MetricTables F
  aggregate_metrics now t =
      let minutes =
        insert_or_replace (raw_groups (bucket_of minute (now - minute)) t.raw) t.minutes in
      record t {
        minutes = minutes;
        hours = insert_or_replace (minute_groups (bucket_of hour (now - hour)) minutes) t.hours;
      }
