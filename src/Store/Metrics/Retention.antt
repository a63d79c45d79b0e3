-- ===== src/Store/Metrics/Retention.antt =====
-- Aggregation before and after enforceRetention.
use the_family_vpn.Base.{
  ltb, ◌==◌, if◌then◌else◌, All, Bytes, text_eq, text_eq_iff, lookup, Dict, ℕ, ◌-◌, ◌<◌, ◌≡◌, refl,
  ◌∙◌, Bool, true, false, ◌&&◌, [], ◌∷◌, arith,
}
use the_family_vpn.Store.Rows.{count, count-filter, All-filter}
use the_family_vpn.Store.Metrics.{
  Arithmetic, RawRow, MetricTables, minute, metrics_retention_raw, Group, GroupKey, bucket_of,
  raw_since, enforce_metrics_retention, raw_groups, aggregate_metrics,
}
use the_family_vpn.Store.Metrics.Groups.{untagged, Untagged, total}
use the_family_vpn.Store.Metrics.Aggregation.{count_at, count_at-insert_or_replace}

module _ {F : Type 0} where
  -- The rows of a name in a minute that are older than `cutoff`
  abbrev pub in_minute : ℕ → ℕ → Bytes → Bytes × RawRow F → Bool
  in_minute cutoff b n (k, r) =
      ltb r.timestamp cutoff && ((bucket_of minute r.timestamp == b) && text_eq r.name n)

  abbrev pub HasNoTag : Bytes × RawRow F → Type 0
  HasNoTag (k, r) = r.tags ≡ []

  raw_groups-Untagged :
      (cutoff : ℕ) (rows : Dict (RawRow F)) → All HasNoTag rows → Untagged (raw_groups cutoff rows)
  unfolding raw_groups
  raw_groups-Untagged cutoff [] bare = bare
  raw_groups-Untagged cutoff ((k, r) ∷ rows) (bare, rest) =
      by_age (ltb r.timestamp cutoff) (raw_groups-Untagged cutoff rows rest)
    where
      row : GroupKey × Group F
      row = (
        record { bucket = bucket_of minute r.timestamp; name = r.name; tags = r.tags },
        record {
          least_value = r.value;
          greatest_value = r.value;
          sum = r.value;
          weighted = r.value;
          members = 1;
        },
      )

      by_age :
          (old : Bool)
          → Untagged (raw_groups cutoff rows)
          → Untagged (if old then row ∷ raw_groups cutoff rows else raw_groups cutoff rows)
      by_age true ih = (bare, ih)
      by_age false ih = ih

  total-raw_groups :
      (cutoff b : ℕ) (n : Bytes) (rows : Dict (RawRow F))
      → All HasNoTag rows
      → total (untagged b n) (raw_groups cutoff rows) ≡ count (in_minute cutoff b n) rows
  unfolding total raw_groups count text_eq
  total-raw_groups cutoff b n [] bare = refl
  total-raw_groups cutoff b n ((k, r) ∷ rows) (bare, rest) =
      ground (arith, total-raw_groups cutoff b n rows rest, text_eq_iff r.tags [])

module _ {F : Type 0} (floats : Arithmetic F) where
  -- How many raw rows the row of a name and a minute stands for; 0 if there is none.
  abbrev pub counted : ℕ → Bytes → MetricTables F → ℕ
  counted b n t = count_at (lookup (b ∷ n) t.minutes)

  -- The rows that aggregateMetrics takes
  abbrev pub taken_at : ℕ → ℕ → Bytes → Bytes × RawRow F → Bool
  taken_at now = in_minute (bucket_of minute (now - minute))

  -- Without tags, the row that aggregateMetrics leaves for a name and a minute counts every raw row
  -- of that name and minute that is older than the minute before now, if there is one.
  pub aggregate_metrics-counted :
      (now b : ℕ) (n : Bytes) (t : MetricTables F)
      → All HasNoTag t.raw
      → 0 < count (taken_at now b n) t.raw
      → counted b n (aggregate_metrics floats now t) ≡ count (taken_at now b n) t.raw
  unfolding aggregate_metrics
  aggregate_metrics-counted now b n t bare some_rows =
      let rows = raw_groups (bucket_of minute (now - minute)) t.raw in
      let same : total (untagged b n) rows ≡ count (taken_at now b n) t.raw =
        total-raw_groups (bucket_of minute (now - minute)) b n t.raw bare in
      count_at-insert_or_replace floats rows b n t.minutes
        (raw_groups-Untagged (bucket_of minute (now - minute)) t.raw bare) (rw same some_rows)
      ∙ same

  -- The raw rows that enforceRetention keeps
  abbrev pub kept_at : ℕ → Bytes × RawRow F → Bool
  kept_at now = raw_since (now - metrics_retention_raw)

  -- When enforceRetention has run, aggregateMetrics counts only the raw rows that it kept, and puts
  -- that count in place of the older one: of the minute in which the retention ends, the row that
  -- stood for the whole minute then stands for its last part.
  pub aggregate_metrics-enforce_metrics_retention :
      (now b : ℕ) (n : Bytes) (t : MetricTables F)
      → All HasNoTag t.raw
      → 0 < count (λ r. kept_at now r && taken_at now b n r) t.raw
      → counted b n (aggregate_metrics floats now (enforce_metrics_retention now t))
        ≡ count (λ r. kept_at now r && taken_at now b n r) t.raw
  unfolding enforce_metrics_retention
  aggregate_metrics-enforce_metrics_retention now b n t bare some_rows =
      let same = count-filter (taken_at now b n) (kept_at now) t.raw in
      aggregate_metrics-counted now b n (enforce_metrics_retention now t)
        (All-filter HasNoTag (kept_at now) t.raw bare) (rw same some_rows)
      ∙ same
