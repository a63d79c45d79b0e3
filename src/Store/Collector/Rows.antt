-- ===== src/Store/Collector/Rows.antt =====
-- What the Collector's rounds leave in metrics_raw.
use the_family_vpn.Base.{
  if◌then◌else◌, All, Bytes, text_eq, insert, Dict, ℕ, ◌<◌, ◌≡◌, refl, Bool, true, false, List, [],
  ◌∷◌, ◌++◌,
}
use the_family_vpn.Store.Rows.{count}
use the_family_vpn.Store.Metrics.{
  Arithmetic, MetricPoint, RawRow, insert_points, write_batch_metrics, aggregate_metrics,
}
use the_family_vpn.Store.Metrics.Groups.{}
use the_family_vpn.Store.Metrics.Retention.{HasNoTag, counted, taken_at, aggregate_metrics-counted}
use the_family_vpn.Store.Collector.Sources.{
  Collector, Tick, points_of, write_some, gathered, collect, collect_ticks, collect_loop, ticked,
  stop_closed,
}

insert-bare :
    {F : Type 0} (k : Bytes) (r : RawRow F) (t : Dict (RawRow F))
    → r.tags ≡ []
    → All HasNoTag t
    → All HasNoTag (insert k r t)
unfolding insert
insert-bare k r [] bare rest = (bare, tt)
insert-bare k r ((j, s) ∷ t) bare (here, rest) = by_key (text_eq j k) (insert-bare k r t bare rest)
  where
    by_key :
        (b : Bool)
        → All HasNoTag (insert k r t)
        → All HasNoTag (if b then (k, r) ∷ t else (j, s) ∷ insert k r t)
    by_key true later = (bare, rest)
    by_key false later = (here, later)

abbrev BarePoint : {F : Type 0} → MetricPoint F → Type 0
BarePoint p = p.tags ≡ []

insert_points-bare :
    (F : Type 0) (ps : List (MetricPoint F)) (t : Dict (RawRow F))
    → All BarePoint ps
    → All HasNoTag t
    → All HasNoTag (insert_points ps t)
unfolding insert_points
insert_points-bare F [] t bare rest = rest
insert_points-bare F (p ∷ ps) t (here, bare) rest =
    let row : RawRow F = record {
      timestamp = p.timestamp;
      name = p.name;
      value = p.value;
      tags = p.tags;
    } in
    insert_points-bare F ps (insert (p.timestamp ∷ p.name) row t) bare
      (insert-bare (p.timestamp ∷ p.name) row t here rest)

All-append : {A : Type 0} (P : A → Type 0) (xs ys : List A) → All P xs → All P ys → All P (xs ++ ys)
All-append P [] ys ps qs = qs
All-append P (x ∷ xs) ys (p, ps) qs = (p, All-append P xs ys ps qs)

points_of-bare : {F : Type 0} (now : ℕ) (values : Dict F) → All BarePoint (points_of now values)
unfolding points_of
points_of-bare now [] = tt
points_of-bare now ((name, value) ∷ values) = (refl, points_of-bare now values)

module _ {World F : Type 0} where
  gathered-bare :
      (now : ℕ) (w : World) (sources : Dict (World → Dict F))
      → All BarePoint (gathered now w sources)
  unfolding gathered
  gathered-bare now w [] = tt
  gathered-bare now w ((name, source) ∷ sources) =
      All-append BarePoint (points_of now (source w)) (gathered now w sources)
        (points_of-bare now (source w)) (gathered-bare now w sources)

  collect-bare :
      (now : ℕ) (w : World) (c : Collector World F)
      → All HasNoTag c.tables.raw
      → All HasNoTag (collect now w c).tables.raw
  unfolding collect write_batch_metrics
  collect-bare now w c bare = by_points (gathered now w c.sources) (gathered-bare now w c.sources)
    where
      by_points :
          (ps : List (MetricPoint F)) → All BarePoint ps → All HasNoTag (write_some ps c.tables).raw
      by_points [] none_bare = bare
      by_points (p ∷ ps) all_bare = insert_points-bare F (p ∷ ps) c.tables.raw all_bare bare

  collect_ticks-bare :
      (ticks : List (Tick World)) (c : Collector World F)
      → All HasNoTag c.tables.raw
      → All HasNoTag (collect_ticks ticks c).tables.raw
  unfolding collect_ticks
  collect_ticks-bare [] c bare = bare
  collect_ticks-bare (stop_closed ∷ ticks) c bare = bare
  collect_ticks-bare (ticked now w ∷ ticks) c bare =
      collect_ticks-bare ticks (collect now w c) (collect-bare now w c bare)

  -- However long the Collector runs and whatever its sources give, the rows that it writes have no
  -- tags: if metrics_raw had none before, aggregateMetrics, when it has run, has for every name and
  -- minute with rows older than the minute before now one row that counts all of them.
  pub aggregate_metrics-collect_loop :
      (floats : Arithmetic F) (started : ℕ) (w : World) (ticks : List (Tick World))
      (c : Collector World F) (now b : ℕ) (n : Bytes)
      → All HasNoTag c.tables.raw
      → 0 < count (taken_at floats now b n) (collect_loop started w ticks c).tables.raw
      → counted floats b n (aggregate_metrics floats now (collect_loop started w ticks c).tables)
        ≡ count (taken_at floats now b n) (collect_loop started w ticks c).tables.raw
  unfolding collect_loop
  aggregate_metrics-collect_loop floats started w ticks c now b n bare some_rows =
      aggregate_metrics-counted floats now b n (collect_ticks ticks (collect started w c)).tables
        (collect_ticks-bare ticks (collect started w c) (collect-bare started w c bare)) some_rows
