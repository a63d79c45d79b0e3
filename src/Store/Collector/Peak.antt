-- ===== src/Store/Collector/Peak.antt =====
-- The peak of the samples that a BandwidthTracker holds.
use the_family_vpn.Base.{Bool-cases, All, ◌≡◌, inl, inr, true, false, List, [], ◌∷◌}
use the_family_vpn.Store.Collector.{
  Floats, Sample, BandwidthTracker, last_rates, current, greater, peak_rates, peak,
}

-- The order of finite float64 values, as `x > y` tests it
pub record IsOrder {F : Type 0} (floats : Floats F) : Type 0 where
  pub irreflexive : (x : F) → floats.exceeds x x ≡ false
  pub asymmetric : (x y : F) → floats.exceeds x y ≡ true → floats.exceeds y x ≡ false
  pub transitive :
      (x y z : F)
      → floats.exceeds x y ≡ false
      → floats.exceeds y z ≡ false
      → floats.exceeds x z ≡ false

module _ {F : Type 0} (floats : Floats F) (order : IsOrder floats) where
  greater_first : (seen x : F) → floats.exceeds seen (greater floats seen x) ≡ false
  greater_first seen x = elim (Bool-cases (floats.exceeds x seen)) [
    | inl more ↦ rw more (order.asymmetric x seen more)
    | inr less ↦ rw less (order.irreflexive seen)
  ]

  greater_second : (seen x : F) → floats.exceeds x (greater floats seen x) ≡ false
  greater_second seen x = elim (Bool-cases (floats.exceeds x seen)) [
    | inl more ↦ rw more (order.irreflexive x)
    | inr less ↦ rw less less
  ]

  -- Neither rate of a pair exceeds the other pair's.
  abbrev pub Below : F × F → F × F → Type 0
  Below (tx, rx) (tx', rx') = (floats.exceeds tx tx' ≡ false) × (floats.exceeds rx rx' ≡ false)

  abbrev pub rates_of : Sample F → F × F
  rates_of s = (s.tx_bps, s.rx_bps)

  Below-peak_rates :
      (tx rx : F) (ss : List (Sample F))
      → Below (tx, rx) (peak_rates floats (tx, rx) ss)
        × All (λ s. Below (rates_of s) (peak_rates floats (tx, rx) ss)) ss
  Below-peak_rates tx rx [] = ((order.irreflexive tx, order.irreflexive rx), tt)
  Below-peak_rates tx rx (s ∷ ss) =
      let t = greater floats tx s.tx_bps in
      let r = greater floats rx s.rx_bps in
      let top = peak_rates floats (t, r) ss in
      let ((t_below, r_below), rest) = Below-peak_rates t r ss in
      (
        (
          order.transitive tx t top.0 (greater_first tx s.tx_bps) t_below,
          order.transitive rx r top.1 (greater_first rx s.rx_bps) r_below,
        ),
        (
          (
            order.transitive s.tx_bps t top.0 (greater_second tx s.tx_bps) t_below,
            order.transitive s.rx_bps r top.1 (greater_second rx s.rx_bps) r_below,
          ),
          rest,
        ),
      )

  -- Over values that are ordered, no sample of the window has a rate above its Peak, nor has Current.
  pub peak-Below :
      (b : BandwidthTracker F)
      → All (λ s. Below (rates_of s) (peak floats b)) b.samples
        × Below (current floats b) (peak floats b)
  unfolding peak current last_rates
  peak-Below b =
      let z = floats.zero_float in
      let (zero_below, all_below) = Below-peak_rates z z b.samples in
      (
        all_below,
        last_below (z, z) (peak_rates floats (z, z) b.samples) b.samples zero_below all_below,
      )
    where
      last_below :
          (seen top : F × F) (ss : List (Sample F))
          → Below seen top
          → All (λ s. Below (rates_of s) top) ss
          → Below (last_rates floats seen ss) top
      last_below seen top [] below all = below
      last_below seen top (s ∷ ss) below (here, all) = last_below (rates_of s) top ss here all
