-- ===== src/Store/Lifecycle.antt =====
-- The table lifecycle of internal/store/store.go: its events, and the statistics of crashes. A row's
-- booleans are the integers 1 and 0 of its columns.
pub mod Statistics
use the_family_vpn.Base.{
  ltb, leb, ◌==◌, if◌then◌else◌, take, Bytes, codes, text_eq, ℕ, suc, Bool, ◌&&◌, ◌||◌, Option,
  none, some, List, [], ◌∷◌, ◌++◌, map,
}
use the_family_vpn.Store.Rows.{filter, count, order_by}

-- A row; a NULL column is read as an empty text.
pub record LifecycleRow (F : Type 0) : Type 0 where
  pub id : ℕ
  pub timestamp : ℕ
  pub event : Bytes
  pub reason : Bytes
  pub uptime_seconds : F
  pub route_all : ℕ
  pub route_restored : ℕ
  pub version : Bytes

pub record LifecycleEvent (F : Type 0) : Type 0 where
  pub id : ℕ
  pub timestamp : ℕ
  pub event : Bytes
  pub reason : Bytes
  pub uptime_seconds : F
  pub route_all : Bool
  pub route_restored : Bool
  pub version : Bytes

pub record Lifecycle (F : Type 0) : Type 0 where
  pub rows : List (LifecycleRow F)
  pub next_id : ℕ

abbrev pub to_int : Bool → ℕ
to_int b = if b then 1 else 0

-- `event IN ('CRASH', 'SIGNAL', 'CONNECTION_LOST')`
unfoldable pub is_crash : Bytes → Bool
is_crash event =
    text_eq event (codes "CRASH")
    || (text_eq event (codes "SIGNAL") || text_eq event (codes "CONNECTION_LOST"))

-- The three results of GetCrashStats
pub record CrashStats : Type 0 where
  pub total : ℕ
  pub with_route_all : ℕ
  pub route_restore_failures : ℕ

module _ {F : Type 0} where
  -- WriteLifecycleEvent
  unfoldable pub write_lifecycle_event :
      ℕ → Bytes → Bytes → F → Bool → Bool → Bytes → Lifecycle F → Lifecycle F
  write_lifecycle_event now event reason uptime route_all route_restored version t = record {
    rows =
        t.rows
        ++ record {
          id = t.next_id;
          timestamp = now;
          event = event;
          reason = reason;
          uptime_seconds = uptime;
          route_all = to_int route_all;
          route_restored = to_int route_restored;
          version = version;
        }
          ∷ [];
    next_id = suc t.next_id;
  }

  abbrev pub scan_row : LifecycleRow F → LifecycleEvent F
  scan_row r = record {
    id = r.id;
    timestamp = r.timestamp;
    event = r.event;
    reason = r.reason;
    uptime_seconds = r.uptime_seconds;
    route_all = r.route_all == 1;
    route_restored = r.route_restored == 1;
    version = r.version;
  }

  abbrev pub newest_first : LifecycleRow F → LifecycleRow F → Bool
  newest_first a b = ltb b.timestamp a.timestamp

  -- GetLifecycleEvents
  unfoldable pub get_lifecycle_events : ℕ → Lifecycle F → List (LifecycleEvent F)
  get_lifecycle_events limit t =
      map scan_row (take (if limit == 0 then 100 else limit) (order_by newest_first t.rows))

  abbrev first_row : List (LifecycleRow F) → Option (LifecycleEvent F)
  first_row [] = none
  first_row (r ∷ rs) = some (scan_row r)

  -- GetLastCrash
  unfoldable pub get_last_crash : Lifecycle F → Option (LifecycleEvent F)
  get_last_crash t = first_row (order_by newest_first (filter (λ r. is_crash r.event) t.rows))

  -- GetCrashStats
  unfoldable pub get_crash_stats : ℕ → Lifecycle F → CrashStats
  get_crash_stats since t = record {
    total = count (λ r. is_crash r.event && leb since r.timestamp) t.rows;
    with_route_all =
        count (λ r. is_crash r.event && ((r.route_all == 1) && leb since r.timestamp)) t.rows;
    route_restore_failures =
        count
          (λ r.
            is_crash r.event
            && ((r.route_all == 1) && ((r.route_restored == 0) && leb since r.timestamp)))
          t.rows;
  }
