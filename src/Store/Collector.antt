-- ===== src/Store/Collector.antt =====
-- internal/store/collector.go: BandwidthTracker, StandardMetrics, and the Collector's sources and round.
-- The locks make each method one step. Times are nanoseconds, the zero time being 0; counters are
-- unsigned 64-bit words.
pub mod Window
pub mod Peak
pub mod Sources
pub mod Rows
use the_family_vpn.Base.{
  ltb, leb, ◌==◌, if◌then◌else◌, length, drop, codes, Dict, ℕ, ◌+◌, ◌-◌, ◌%◌, ◌^◌, Bool, List, [],
  ◌∷◌, ◌++◌,
}
use the_family_vpn.Store.Metrics.{}

-- The float64 operations. `seconds` is Duration.Seconds.
pub record Floats (F : Type 0) : Type 0 where
  pub zero_float : F
  pub of_count : ℕ → F
  pub seconds : ℕ → F
  pub add : F → F → F
  pub divide : F → F → F
  pub exceeds : F → F → Bool

pub record Sample (F : Type 0) : Type 0 where
  pub timestamp : ℕ
  pub tx_bps : F
  pub rx_bps : F

pub record BandwidthTracker (F : Type 0) : Type 0 where
  pub samples : List (Sample F)
  pub max_samples : ℕ
  pub last_bytes_sent : ℕ
  pub last_bytes_recv : ℕ
  pub last_time : ℕ

-- The difference of two uint64
abbrev pub u64_minus : ℕ → ℕ → ℕ
u64_minus a b = (a + 2 ^ 64 - b) % 2 ^ 64

-- Time.Sub of a later time and an earlier one: the largest duration if the difference is larger
abbrev pub elapsed_between : ℕ → ℕ → ℕ
elapsed_between now last = let n = now - last in if ltb n (2 ^ 63) then n else 2 ^ 63 - 1

-- NewBandwidthTracker, where a negative number of samples counts as 0
unfoldable pub new_bandwidth_tracker : {F : Type 0} → ℕ → ℕ → BandwidthTracker F
new_bandwidth_tracker now max_samples = record {
  samples = [];
  max_samples = if max_samples == 0 then 60 else max_samples;
  last_bytes_sent = 0;
  last_bytes_recv = 0;
  last_time = now;
}

module _ {F : Type 0} (floats : Floats F) where
  -- The rate over an interval
  abbrev pub rate : ℕ → ℕ → ℕ → ℕ → F
  rate now last_time total last_total =
      if last_time == 0
      then floats.zero_float
      else floats.divide (floats.of_count (u64_minus total last_total))
          (floats.seconds (elapsed_between now last_time))

  abbrev pub trim : {A : Type 0} → ℕ → List A → List A
  trim n xs = if ltb n (length xs) then drop (length xs - n) xs else xs

  -- Record, for the time at the call
  unfoldable pub record_sample : ℕ → ℕ → ℕ → BandwidthTracker F → BandwidthTracker F
  record_sample now bytes_sent bytes_recv b = if leb now b.last_time then b else record b {
    samples = trim b.max_samples (
        b.samples
        ++ record {
          timestamp = now;
          tx_bps = rate now b.last_time bytes_sent b.last_bytes_sent;
          rx_bps = rate now b.last_time bytes_recv b.last_bytes_recv;
        }
          ∷ []);
    last_bytes_sent = bytes_sent;
    last_bytes_recv = bytes_recv;
    last_time = now;
  }

  last_rates : F × F → List (Sample F) → F × F
  last_rates seen [] = seen
  last_rates seen (s ∷ ss) = last_rates (s.tx_bps, s.rx_bps) ss

  -- Current
  unfoldable pub current : BandwidthTracker F → F × F
  unfolding last_rates
  current b = last_rates (floats.zero_float, floats.zero_float) b.samples

  sum_rates : F × F → List (Sample F) → F × F
  sum_rates (tx, rx) [] = (tx, rx)
  sum_rates (tx, rx) (s ∷ ss) = sum_rates (floats.add tx s.tx_bps, floats.add rx s.rx_bps) ss

  over : F → F × F → F × F
  over n (tx, rx) = (floats.divide tx n, floats.divide rx n)

  averaged : List (Sample F) → F × F
  averaged [] = (floats.zero_float, floats.zero_float)
  averaged (s ∷ ss) =
      over (floats.of_count (length (s ∷ ss)))
        (sum_rates (floats.zero_float, floats.zero_float) (s ∷ ss))

  -- Average
  unfoldable pub average : BandwidthTracker F → F × F
  unfolding averaged over sum_rates
  average b = averaged b.samples

  abbrev pub greater : F → F → F
  greater seen x = if floats.exceeds x seen then x else seen

  abbrev pub peak_rates : F × F → List (Sample F) → F × F
  peak_rates seen [] = seen
  peak_rates (tx, rx) (s ∷ ss) = peak_rates (greater tx s.tx_bps, greater rx s.rx_bps) ss

  -- Peak
  unfoldable pub peak : BandwidthTracker F → F × F
  peak b = peak_rates (floats.zero_float, floats.zero_float) b.samples

  -- BandwidthTracker.Source
  unfoldable pub bandwidth_source : BandwidthTracker F → Dict F
  bandwidth_source b =
      (codes "bandwidth.tx_current_bps", (current b).0)
      ∷ (codes "bandwidth.rx_current_bps", (current b).1)
      ∷ (codes "bandwidth.tx_avg_bps", (average b).0)
      ∷ (codes "bandwidth.rx_avg_bps", (average b).1)
      ∷ (codes "bandwidth.tx_peak_bps", (peak b).0)
      ∷ (codes "bandwidth.rx_peak_bps", (peak b).1)
      ∷ []
