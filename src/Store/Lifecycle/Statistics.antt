-- ===== src/Store/Lifecycle/Statistics.antt =====
-- The crashes that were written are the crashes that are read and counted.
use the_family_vpn.Base.{
  ltb, leb, ◌==◌, if◌then◌else◌, All, Bytes, ℕ, ◌+◌, ◌≡◌, refl, ap, ◌∙◌, Bool, true, false, not,
  ◌&&◌, some, List, [], ◌∷◌, arith,
}
use the_family_vpn.Store.Rows.{filter, count, order_by, count-append, order_by-filter_append}
use the_family_vpn.Store.Lifecycle.{
  LifecycleRow, LifecycleEvent, Lifecycle, to_int, is_crash, write_lifecycle_event, scan_row,
  newest_first, first_row, get_last_crash, get_crash_stats,
}

-- What WriteLifecycleEvent is called with, after its time
pub record Event (F : Type 0) : Type 0 where
  pub now : ℕ
  pub event : Bytes
  pub reason : Bytes
  pub uptime_seconds : F
  pub route_all : Bool
  pub route_restored : Bool
  pub version : Bytes

abbrev pub IsOlder : {F : Type 0} → ℕ → LifecycleRow F → Type 0
IsOlder now r = ltb r.timestamp now ≡ true

routed_flag : (a b r : Bool) → (a && ((to_int r == 1) && b)) ≡ ((a && b) && r)
routed_flag a b true = ground arith
routed_flag a b false = ground arith

failed_flag :
    (a b r s : Bool)
    → (a && ((to_int r == 1) && ((to_int s == 0) && b))) ≡ ((a && b) && (r && not s))
failed_flag a b true true = ground arith
failed_flag a b true false = ground arith
failed_flag a b false true = ground arith
failed_flag a b false false = ground arith

module _ {F : Type 0} where
  abbrev row_of : ℕ → Event F → LifecycleRow F
  row_of i e = record {
    id = i;
    timestamp = e.now;
    event = e.event;
    reason = e.reason;
    uptime_seconds = e.uptime_seconds;
    route_all = to_int e.route_all;
    route_restored = to_int e.route_restored;
    version = e.version;
  }

  -- The event as it is read back, with its number
  abbrev pub numbered : ℕ → Event F → LifecycleEvent F
  numbered i e = record {
    id = i;
    timestamp = e.now;
    event = e.event;
    reason = e.reason;
    uptime_seconds = e.uptime_seconds;
    route_all = e.route_all;
    route_restored = e.route_restored;
    version = e.version;
  }

  scan_row-row_of : (i : ℕ) (e : Event F) → scan_row (row_of i e) ≡ numbered i e
  scan_row-row_of i e = by_flags e.route_all e.route_restored
    where
      by_flags :
          (a b : Bool)
          → scan_row (row_of i (record e { route_all = a; route_restored = b }))
            ≡ numbered i (record e { route_all = a; route_restored = b })
      by_flags true true = refl
      by_flags true false = refl
      by_flags false true = refl
      by_flags false false = refl

  abbrev pub write_event : Event F → Lifecycle F → Lifecycle F
  write_event e =
      write_lifecycle_event e.now e.event e.reason e.uptime_seconds e.route_all e.route_restored
        e.version

  unfoldable pub write_events : List (Event F) → Lifecycle F → Lifecycle F
  write_events [] t = t
  write_events (e ∷ es) t = write_events es (write_event e t)

  first_row_if :
      (b : Bool) (r : LifecycleRow F) (rs : List (LifecycleRow F))
      → first_row (if b then r ∷ rs else rs) ≡ (if b then some (scan_row r) else first_row rs)
  first_row_if true r rs = refl
  first_row_if false r rs = refl

  -- A crash that is newer than every row is the last crash, read with the values that were written;
  -- any other event that is newer leaves the last crash as it was.
  pub get_last_crash-write_lifecycle_event :
      (e : Event F) (t : Lifecycle F)
      → All (IsOlder e.now) t.rows
      → get_last_crash (write_event e t)
        ≡ (if is_crash e.event then some (numbered t.next_id e) else get_last_crash t)
  unfolding get_last_crash write_lifecycle_event
  get_last_crash-write_lifecycle_event e t older =
      let crashes = order_by newest_first (filter (λ r. is_crash r.event) t.rows) in
      ap first_row (
        order_by-filter_append newest_first (λ r. is_crash r.event) t.rows (row_of t.next_id e)
          older)
      ∙ first_row_if (is_crash e.event) (row_of t.next_id e) crashes
      ∙ ap (λ x. if is_crash e.event then some x else first_row crashes)
          (scan_row-row_of t.next_id e)

  count-write_events :
      (p : LifecycleRow F → Bool) (q : Event F → Bool) (es : List (Event F)) (t : Lifecycle F)
      → ((i : ℕ) (e : Event F) → p (row_of i e) ≡ q e)
      → count p (write_events es t).rows ≡ count p t.rows + count q es
  unfolding write_events write_lifecycle_event count
  count-write_events p q [] t same = omega arith
  count-write_events p q (e ∷ es) t same = ground (
    arith,
    count-write_events p q es (write_event e t) same,
    count-append p t.rows (row_of t.next_id e ∷ []),
    same t.next_id e,
  )

  counted_from_empty :
      (p : LifecycleRow F → Bool) (q : Event F → Bool) (first : ℕ) (es : List (Event F))
      → ((i : ℕ) (e : Event F) → p (row_of i e) ≡ q e)
      → count p (write_events es (record { rows = []; next_id = first })).rows ≡ count q es
  unfolding count
  counted_from_empty p q first es same =
      omega (arith, count-write_events p q es (record { rows = []; next_id = first }) same)

  -- A crash at or after a time
  abbrev pub is_crash_since : ℕ → Event F → Bool
  is_crash_since since e = is_crash e.event && leb since e.now

  -- From an empty table, GetCrashStats counts the crashes at or after the time among the events that
  -- were written, those of them that happened while all traffic was routed, and those of these
  -- whose routes were not restored.
  pub get_crash_stats-write_lifecycle_events :
      (since first : ℕ) (es : List (Event F))
      → get_crash_stats since (write_events es (record { rows = []; next_id = first })) ≡ record {
        total = count (is_crash_since since) es;
        with_route_all = count (λ e. is_crash_since since e && e.route_all) es;
        route_restore_failures =
            count (λ e. is_crash_since since e && (e.route_all && not e.route_restored)) es;
      }
  unfolding get_crash_stats
  get_crash_stats-write_lifecycle_events since first es =
      let crash = λ (e : Event F). is_crash e.event in
      let recent = λ (e : Event F). leb since e.now in
      rw
        (
          counted_from_empty (λ r. is_crash r.event && leb since r.timestamp) (is_crash_since since)
              first es λ i e. refl,
          counted_from_empty
              (λ r. is_crash r.event && ((r.route_all == 1) && leb since r.timestamp))
              (λ e. is_crash_since since e && e.route_all) first es
              λ i e. routed_flag (crash e) (recent e) e.route_all,
          counted_from_empty
              (λ r.
                is_crash r.event
                && ((r.route_all == 1) && ((r.route_restored == 0) && leb since r.timestamp)))
              (λ e. is_crash_since since e && (e.route_all && not e.route_restored)) first es
              λ i e. failed_flag (crash e) (recent e) e.route_all e.route_restored,
        )
        refl
