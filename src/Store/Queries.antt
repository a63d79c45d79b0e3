-- ===== src/Store/Queries.antt =====
-- internal/store/query.go: QueryLogs and Tail, QueryMetrics, GetLatestMetrics. Offsets and limits
-- that are negative count as 0, as SQLite and the code have it.
pub mod Pages
pub mod MetricSeries
use the_family_vpn.Base.{
  ltb, leb, ◌==◌, if◌then◌else◌, length, take, drop, Bytes, codes, text_eq, ℕ, ◌+◌, Bool, true,
  false, ◌&&◌, ◌||◌, Option, none, some, List, [], ◌∷◌, ◌++◌,
}
use the_family_vpn.Store.Rows.{filter, count, order_by}
use the_family_vpn.Store.Logs.{LogEntry}
use the_family_vpn.Store.Metrics.{}

-- TimeRange, in milliseconds
pub record Span : Type 0 where
  pub start : ℕ
  pub until : ℕ

pub record LogQuery : Type 0 where
  pub time_range : Option Span
  pub levels : List Bytes
  pub components : List Bytes
  pub search : Bytes
  pub limit : ℕ
  pub offset : ℕ
  pub reverse : Bool

pub record LogQueryResult : Type 0 where
  pub entries : List LogEntry
  pub total_count : ℕ
  pub has_more : Bool

abbrev pub is_one_of : Bytes → List Bytes → Bool
is_one_of x [] = false
is_one_of x (y ∷ ys) = text_eq y x || is_one_of x ys

abbrev pub within : Option Span → ℕ → Bool
within none t = true
within (some r) t = leb r.start t && leb t r.until

-- A filter that is left out if its list is empty
abbrev pub is_listed : List Bytes → Bytes → Bool
is_listed [] x = true
is_listed (y ∷ ys) x = is_one_of x (y ∷ ys)

-- `Limit <= 0` and `Limit > 10000`
abbrev pub effective_limit : ℕ → ℕ
effective_limit limit =
    let wanted = if limit == 0 then 1000 else limit in if ltb 10000 wanted then 10000 else wanted

-- The test of ORDER BY
abbrev pub comes_before : Bool → LogEntry → LogEntry → Bool
comes_before reverse a b =
    if reverse then ltb a.timestamp b.timestamp else ltb b.timestamp a.timestamp

abbrev pub upper_all : (Bytes → Bytes) → List Bytes → List Bytes
upper_all to_upper [] = []
upper_all to_upper (l ∷ ls) = to_upper l ∷ upper_all to_upper ls

-- `to_upper` is strings.ToUpper; `like pattern text` is SQLite's LIKE.
module _ (to_upper : Bytes → Bytes) (like : Bytes → Bytes → Bool) where
  abbrev has_text : Bytes → Bytes → Bool
  has_text [] message = true
  has_text (c ∷ cs) message = like (codes "%" ++ ((c ∷ cs) ++ codes "%")) message

  -- The WHERE clause
  unfoldable pub matches : LogQuery → LogEntry → Bool
  matches q e =
      within q.time_range e.timestamp
      && (is_listed (upper_all to_upper q.levels) e.level
          && (is_listed q.components e.component && has_text q.search e.message))

  -- The rows that match, in the query's order
  unfoldable pub selected : LogQuery → List LogEntry → List LogEntry
  selected q rows = order_by (comes_before q.reverse) (filter (matches q) rows)

  -- QueryLogs
  unfoldable pub query_logs : LogQuery → List LogEntry → LogQueryResult
  query_logs q rows =
      let limit = effective_limit q.limit in
      let entries = take (limit + 1) (drop q.offset (selected q rows)) in
      let more = ltb limit (length entries) in
      record {
        entries = if more then take limit entries else entries;
        total_count = count (matches q) rows;
        has_more = more;
      }

  -- Tail
  unfoldable pub tail_logs : ℕ → List Bytes → List Bytes → List LogEntry → List LogEntry
  tail_logs n levels components rows =
      (query_logs
        (record {
          time_range = none;
          levels = levels;
          components = components;
          search = [];
          limit = n;
          offset = 0;
          reverse = false;
        })
        rows).entries
