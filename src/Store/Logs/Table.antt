-- ===== src/Store/Logs/Table.antt =====
-- The rows of the table logs: their numbers, and what the storage limit removes.
use the_family_vpn.Base.{
  ltb, ◌==◌, if◌then◌else◌, Bytes, ℕ, ◌≤◌, ◌≡◌, Bool, true, false, not, Option, none, some, List,
  [], ◌∷◌, arith,
}
use the_family_vpn.Store.Rows.{filter, count, count-append}
use the_family_vpn.Store.Logs.{
  LogEntry, Logs, max_storage_bytes, write_log, is_recent, enforce_logs_retention, has_id, evicted,
  enforce_storage_limit,
}

abbrev pub is_numbered : ℕ → LogEntry → Bool
is_numbered i e = e.id == i

-- No two rows have one number, and the numbers to come are free.
pub record IsNumbered (t : Logs) : Type 0 where
  pub unique : (i : ℕ) → count (is_numbered i) t.rows ≤ 1
  pub free : (i : ℕ) → t.next_id ≤ i → count (is_numbered i) t.rows ≡ 0

count-filter_le : {A : Type 0} (p q : A → Bool) (xs : List A) → count p (filter q xs) ≤ count p xs
unfolding filter count
count-filter_le p q [] = ground arith
count-filter_le p q (x ∷ xs) = ground (arith, count-filter_le p q xs)

filter-IsNumbered :
    (p : LogEntry → Bool) (t : Logs)
    → IsNumbered t
    → IsNumbered (record t { rows = filter p t.rows })
filter-IsNumbered p t valid = record {
  unique = λ i. omega (arith, count-filter_le (is_numbered i) p t.rows, valid.unique i);
  free = λ i above. omega (arith, count-filter_le (is_numbered i) p t.rows, valid.free i above);
}

pub enforce_logs_retention-IsNumbered :
    (now : ℕ) (t : Logs) → IsNumbered t → IsNumbered (enforce_logs_retention now t)
unfolding enforce_logs_retention
enforce_logs_retention-IsNumbered now t valid = filter-IsNumbered (is_recent now) t valid

pub enforce_storage_limit-IsNumbered :
    (size : Option ℕ) (t : Logs) → IsNumbered t → IsNumbered (enforce_storage_limit size t)
unfolding enforce_storage_limit
enforce_storage_limit-IsNumbered none t valid = valid
enforce_storage_limit-IsNumbered (some size) t valid = by_size (ltb size max_storage_bytes)
  where
    by_size :
        (small : Bool)
        → IsNumbered (
            if small
            then t
            else record t { rows = filter (λ e. not (has_id e.id (evicted t.rows))) t.rows })
    by_size true = valid
    by_size false = filter-IsNumbered (λ e. not (has_id e.id (evicted t.rows))) t valid

pub write_log-IsNumbered :
    (now : ℕ) (level component message fields : Bytes) (t : Logs)
    → IsNumbered t
    → IsNumbered (write_log now level component message fields t)
unfolding write_log count
write_log-IsNumbered now level component message fields t valid =
    let entry : LogEntry = record {
      id = t.next_id;
      timestamp = now;
      level = level;
      component = component;
      message = message;
      fields = fields;
    } in
    record {
      unique = λ i.
          ground
            (arith, count-append (is_numbered i) t.rows (entry ∷ []), valid.unique i, valid.free i);
      free =
          λ i above. ground (arith, count-append (is_numbered i) t.rows (entry ∷ []), valid.free i);
    }
