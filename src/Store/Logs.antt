-- ===== src/Store/Logs.antt =====
-- The logs of internal/store/store.go: the table, its subscribers, retention and the storage limit.
-- A subscriber is known by the number of its channel.
pub mod Table
pub mod Eviction
pub mod Subscribers
use the_family_vpn.Base.{
  ltb, ◌==◌, if◌then◌else◌, length, take, Bytes, ℕ, suc, ◌-◌, ◌*◌, ◌/◌, Bool, false, not, ◌||◌,
  Option, none, some, List, [], ◌∷◌, ◌++◌,
}
use the_family_vpn.Store.Rows.{filter, order_by}

-- A row of the table logs, and LogEntry
pub record LogEntry : Type 0 where
  pub id : ℕ
  pub timestamp : ℕ
  pub level : Bytes
  pub component : Bytes
  pub message : Bytes
  pub fields : Bytes

-- A channel with what it buffers
pub record Subscriber : Type 0 where
  pub channel : ℕ
  pub buffer : List LogEntry

-- `next_id` is what AUTOINCREMENT gives next, `next_channel` a channel that was not made yet.
pub record Logs : Type 0 where
  pub rows : List LogEntry
  pub next_id : ℕ
  pub subscribers : List Subscriber
  pub next_channel : ℕ

abbrev pub channel_size : ℕ
channel_size = 100

abbrev pub max_storage_bytes : ℕ
max_storage_bytes = 50 * (1024 * 1024)

-- In milliseconds
abbrev pub logs_retention : ℕ
logs_retention = 7 * (24 * 3600000)

-- `select { case ch <- entry: default: }`
abbrev pub offer : LogEntry → Subscriber → Subscriber
offer entry s =
    if ltb (length s.buffer) channel_size then record s { buffer = s.buffer ++ entry ∷ [] } else s

-- notifyLogSubscribers
unfoldable pub notify_log_subscribers : LogEntry → List Subscriber → List Subscriber
notify_log_subscribers entry [] = []
notify_log_subscribers entry (s ∷ subs) = offer entry s ∷ notify_log_subscribers entry subs

-- WriteLog, when the INSERT works: the entry that is offered to the subscribers has no number.
unfoldable pub write_log : ℕ → Bytes → Bytes → Bytes → Bytes → Logs → Logs
write_log now level component message fields t =
    let entry : LogEntry = record {
      id = 0;
      timestamp = now;
      level = level;
      component = component;
      message = message;
      fields = fields;
    } in
    record t {
      rows = t.rows ++ record entry { id = t.next_id } ∷ [];
      next_id = suc t.next_id;
      subscribers = notify_log_subscribers entry t.subscribers;
    }

-- SubscribeLogs: the new channel
unfoldable pub subscribe_logs : Logs → ℕ × Logs
subscribe_logs t = (
  t.next_channel,
  record t {
    subscribers = t.subscribers ++ record { channel = t.next_channel; buffer = [] } ∷ [];
    next_channel = suc t.next_channel;
  },
)

-- UnsubscribeLogs
unfoldable pub unsubscribe_logs : ℕ → Logs → Logs
unsubscribe_logs channel t = record t {
  subscribers = filter (λ s. not (s.channel == channel)) t.subscribers;
}

abbrev pub is_recent : ℕ → LogEntry → Bool
is_recent now e = not (ltb e.timestamp (now - logs_retention))

-- enforceRetention, the part of the logs
unfoldable pub enforce_logs_retention : ℕ → Logs → Logs
enforce_logs_retention now t = record t { rows = filter (is_recent now) t.rows }

abbrev pub older : LogEntry → LogEntry → Bool
older a b = ltb a.timestamp b.timestamp

abbrev pub has_id : ℕ → List LogEntry → Bool
has_id i [] = false
has_id i (e ∷ es) = (e.id == i) || has_id i es

-- The rows of the subquery of the DELETE: the oldest fifth
abbrev pub evicted : List LogEntry → List LogEntry
evicted rows = take (length rows / 5) (order_by older rows)

-- enforceStorageLimit, for the size of the database's file if os.Stat gives it
unfoldable pub enforce_storage_limit : Option ℕ → Logs → Logs
enforce_storage_limit none t = t
enforce_storage_limit (some size) t =
    if ltb size max_storage_bytes
    then t
    else record t { rows = filter (λ e. not (has_id e.id (evicted t.rows))) t.rows }
