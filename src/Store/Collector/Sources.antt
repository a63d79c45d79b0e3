-- ===== src/Store/Collector/Sources.antt =====
-- internal/store/collector.go: StandardMetrics, and the Collector, whose loop is run over the ticks it
-- gets. A source is a function of the world in which it is called.
use the_family_vpn.Base.{
  ltb, if◌then◌else◌, Bytes, codes, insert, delete, Dict, ℕ, ◌+◌, ◌%◌, ◌^◌, Bool, true, false, not,
  List, [], ◌∷◌, ◌++◌,
}
use the_family_vpn.Store.Metrics.{MetricPoint, MetricTables, write_batch_metrics}
use the_family_vpn.Store.Collector.{Floats, elapsed_between}

abbrev u64 : ℕ → ℕ
u64 n = n % 2 ^ 64

-- `active_peers` is an int that no caller makes negative.
pub record StandardMetrics (F : Type 0) : Type 0 where
  pub bytes_sent : ℕ
  pub bytes_recv : ℕ
  pub packets_sent : ℕ
  pub packets_recv : ℕ
  pub active_peers : ℕ
  pub total_conns : ℕ
  pub failed_conns : ℕ
  pub latency_ms : F
  pub packet_loss : F
  pub start_time : ℕ
  pub last_heartbeat : ℕ

module _ {F : Type 0} where
  -- NewStandardMetrics
  unfoldable pub new_standard_metrics : Floats F → ℕ → StandardMetrics F
  new_standard_metrics floats now = record {
    bytes_sent = 0;
    bytes_recv = 0;
    packets_sent = 0;
    packets_recv = 0;
    active_peers = 0;
    total_conns = 0;
    failed_conns = 0;
    latency_ms = floats.zero_float;
    packet_loss = floats.zero_float;
    start_time = now;
    last_heartbeat = 0;
  }

  -- Update
  unfoldable pub update_metrics : ℕ → ℕ → ℕ → ℕ → ℕ → ℕ → StandardMetrics F → StandardMetrics F
  update_metrics now bytes_sent bytes_recv packets_sent packets_recv peers m = record m {
    bytes_sent = bytes_sent;
    bytes_recv = bytes_recv;
    packets_sent = packets_sent;
    packets_recv = packets_recv;
    active_peers = peers;
    last_heartbeat = now;
  }

  -- IncrementConns
  unfoldable pub increment_conns : Bool → StandardMetrics F → StandardMetrics F
  increment_conns success m = record m {
    total_conns = u64 (m.total_conns + 1);
    failed_conns = if not success then u64 (m.failed_conns + 1) else m.failed_conns;
  }

  -- SetLatency and SetPacketLoss
  unfoldable pub set_latency : F → StandardMetrics F → StandardMetrics F
  set_latency latency m = record m { latency_ms = latency }

  unfoldable pub set_packet_loss : F → StandardMetrics F → StandardMetrics F
  set_packet_loss loss m = record m { packet_loss = loss }

  -- StandardMetrics.Source
  unfoldable pub standard_source : Floats F → ℕ → StandardMetrics F → Dict F
  standard_source floats now m =
      (codes "vpn.bytes_sent", floats.of_count m.bytes_sent)
      ∷ (codes "vpn.bytes_recv", floats.of_count m.bytes_recv)
      ∷ (codes "vpn.packets_sent", floats.of_count m.packets_sent)
      ∷ (codes "vpn.packets_recv", floats.of_count m.packets_recv)
      ∷ (codes "vpn.active_peers", floats.of_count m.active_peers)
      ∷ (codes "vpn.total_conns", floats.of_count m.total_conns)
      ∷ (codes "vpn.failed_conns", floats.of_count m.failed_conns)
      ∷ (codes "vpn.latency_ms", m.latency_ms)
      ∷ (codes "vpn.packet_loss_pct", m.packet_loss)
      ∷ (codes "vpn.uptime_seconds", floats.seconds (elapsed_between now m.start_time))
      ∷ []

-- `tables` are those of the store that the collector writes to.
pub record Collector (World F : Type 0) : Type 0 where
  pub interval : ℕ
  pub sources : Dict (World → Dict F)
  pub stopped : Bool
  pub tables : MetricTables F

-- What the loop waits for
pub data Tick (World : Type 0) : Type 0 where
  ticked : ℕ → World → Tick World
  stop_closed : Tick World

module _ {F : Type 0} where
  unfoldable pub points_of : ℕ → Dict F → List (MetricPoint F)
  points_of now [] = []
  points_of now ((name, value) ∷ values) =
      record { timestamp = now; name = name; value = value; tags = []; granularity = [] }
      ∷ points_of now values

  -- `if len(metrics) > 0`
  abbrev pub write_some : List (MetricPoint F) → MetricTables F → MetricTables F
  write_some [] t = t
  write_some (p ∷ ps) t = write_batch_metrics (p ∷ ps) t

module _ {World F : Type 0} where
  -- NewCollector: not more often than once a second
  unfoldable pub new_collector : ℕ → MetricTables F → Collector World F
  new_collector interval tables = record {
    interval = if ltb interval 1000000000 then 1000000000 else interval;
    sources = [];
    stopped = false;
    tables = tables;
  }

  -- RegisterSource
  unfoldable pub register_source : Bytes → (World → Dict F) → Collector World F → Collector World F
  register_source name source c = record c { sources = insert name source c.sources }

  -- UnregisterSource
  unfoldable pub unregister_source : Bytes → Collector World F → Collector World F
  unregister_source name c = record c { sources = delete name c.sources }

  -- Stop, what sync.Once lets happen once
  unfoldable pub stop_collector : Collector World F → Collector World F
  stop_collector c = record c { stopped = true }

  -- What one round of the collector writes, `now` being in milliseconds
  unfoldable pub gathered : ℕ → World → Dict (World → Dict F) → List (MetricPoint F)
  unfolding points_of
  gathered now w [] = []
  gathered now w ((name, source) ∷ sources) = points_of now (source w) ++ gathered now w sources

  -- collect
  unfoldable pub collect : ℕ → World → Collector World F → Collector World F
  collect now w c = record c { tables = write_some (gathered now w c.sources) c.tables }

  -- The loop of collectLoop after its first round
  unfoldable pub collect_ticks : List (Tick World) → Collector World F → Collector World F
  collect_ticks [] c = c
  collect_ticks (stop_closed ∷ ticks) c = c
  collect_ticks (ticked now w ∷ ticks) c = collect_ticks ticks (collect now w c)

  -- collectLoop
  unfoldable pub collect_loop :
      ℕ → World → List (Tick World) → Collector World F → Collector World F
  collect_loop now w ticks c = collect_ticks ticks (collect now w c)
