-- ===== src/Store/Collector/Window.antt =====
-- The samples that a BandwidthTracker keeps, and their peak.
use the_family_vpn.Base.{
  ltb, leb, if◌then◌else◌, Bool-cases, length, drop, length-append, length-drop, drop-drop, ℕ, zero,
  suc, ◌+◌, ◌-◌, ◌≤◌, ◌≡◌, refl, sym, ap, ◌∙◌, ◌⊎◌, inl, inr, true, false, List, [], ◌∷◌, ◌++◌,
  append_assoc, append-nil, arith,
}
use the_family_vpn.Store.Collector.{Floats, Sample, BandwidthTracker, rate, trim, record_sample}

-- The last `n` elements
abbrev pub last_of {ℓ} : {A : Type ℓ} → ℕ → List A → List A
last_of n xs = drop (length xs - n) xs

module _ {A : Type 0} where
  drop-append_le : (k : ℕ) (xs ys : List A) → k ≤ length xs → drop k (xs ++ ys) ≡ drop k xs ++ ys
  drop-append_le zero xs ys bound = refl
  drop-append_le (suc k) [] ys bound = ground arith
  drop-append_le (suc k) (x ∷ xs) ys bound = drop-append_le k xs ys (omega (arith, bound))

  last_of_short : (n : ℕ) (xs : List A) → length xs ≤ n → last_of n xs ≡ xs
  last_of_short n xs bound =
      let none_cut : length xs - n ≡ 0 = omega (arith, bound) in ap (λ k. drop k xs) none_cut

  length-last_of : (n : ℕ) (xs : List A) → length (last_of n xs) ≤ n
  length-last_of n xs = omega (arith, length-drop (length xs - n) xs)

  -- What was cut before does not matter.
  last_of-last_of : (n : ℕ) (xs ys : List A) → last_of n (last_of n xs ++ ys) ≡ last_of n (xs ++ ys)
  last_of-last_of n xs ys =
      let k = length xs - n in
      let m = length (drop k xs ++ ys) - n in
      let cut : k + m ≡ length (xs ++ ys) - n =
        omega (arith, length-append (drop k xs) ys, length-drop k xs, length-append xs ys) in
      ap (drop m) (sym (drop-append_le k xs ys (omega arith)))
      ∙ drop-drop m k (xs ++ ys)
      ∙ ap (λ i. drop i (xs ++ ys)) cut

-- What one call of Record is given, after its time
pub record Reading : Type 0 where
  pub now : ℕ
  pub bytes_sent : ℕ
  pub bytes_recv : ℕ

module _ {F : Type 0} (floats : Floats F) where
  trim-last_of : (n : ℕ) (xs : List (Sample F)) → trim floats n xs ≡ last_of n xs
  trim-last_of n xs = elim (Bool-cases (ltb n (length xs))) [
    | inl more ↦ rw more refl
    | inr few ↦ rw few (sym (last_of_short n xs (ground (arith, few))))
  ]

  trim_bound : (n : ℕ) (xs : List (Sample F)) → length (trim floats n xs) ≤ n
  trim_bound n xs = rw (trim-last_of n xs) (length-last_of n xs)

  unfoldable pub record_all : List Reading → BandwidthTracker F → BandwidthTracker F
  record_all [] b = b
  record_all (r ∷ rs) b = record_all rs (record_sample floats r.now r.bytes_sent r.bytes_recv b)

  sample_of : Reading → Reading → Sample F
  sample_of last r = record {
    timestamp = r.now;
    tx_bps = rate floats r.now last.now r.bytes_sent last.bytes_sent;
    rx_bps = rate floats r.now last.now r.bytes_recv last.bytes_recv;
  }

  -- The samples of a tracker that forgets none: one for each reading that is later than the reading
  -- before it that counted.
  unfoldable pub all_samples : Reading → List Reading → List (Sample F)
  unfolding sample_of
  all_samples last [] = []
  all_samples last (r ∷ rs) =
      let skipped = all_samples last rs in
      let next = all_samples r rs in if leb r.now last.now then skipped else sample_of last r ∷ next

  -- What the tracker remembers of the last reading that counted
  abbrev pub last_reading : BandwidthTracker F → Reading
  last_reading b = record {
    now = b.last_time;
    bytes_sent = b.last_bytes_sent;
    bytes_recv = b.last_bytes_recv;
  }

  abbrev pub IsWithin : BandwidthTracker F → Type 0
  IsWithin b = length b.samples ≤ b.max_samples

  abbrev counted : Reading → BandwidthTracker F → BandwidthTracker F
  counted r b = record b {
    samples = trim floats b.max_samples (b.samples ++ sample_of (last_reading b) r ∷ []);
    last_bytes_sent = r.bytes_sent;
    last_bytes_recv = r.bytes_recv;
    last_time = r.now;
  }

  -- After any calls of Record, the tracker holds the last samples, at most max_samples of them, of
  -- those it held and those of all the readings that counted.
  pub record_all-all_samples :
      (rs : List Reading) (b : BandwidthTracker F)
      → IsWithin b
      → (record_all rs b).samples
        ≡ last_of b.max_samples (b.samples ++ all_samples (last_reading b) rs)
  unfolding record_all all_samples record_sample sample_of
  record_all-all_samples [] b within = sym (
      ap (last_of b.max_samples) (append-nil b.samples)
      ∙ last_of_short b.max_samples b.samples within)
  record_all-all_samples (r ∷ rs) b within =
      by_time (Bool-cases (leb r.now b.last_time)) (record_all-all_samples rs b within) (
        record_all-all_samples rs (counted r b)
          (trim_bound b.max_samples (b.samples ++ sample_of (last_reading b) r ∷ [])))
    where
      by_time :
          (leb r.now b.last_time ≡ true) ⊎ (leb r.now b.last_time ≡ false)
          → (record_all rs b).samples
            ≡ last_of b.max_samples (b.samples ++ all_samples (last_reading b) rs)
          → (record_all rs (counted r b)).samples
            ≡ last_of b.max_samples ((counted r b).samples ++ all_samples r rs)
          → (record_all rs (if leb r.now b.last_time then b else counted r b)).samples
            ≡ last_of b.max_samples (
                b.samples
                ++ (if leb r.now b.last_time
                    then all_samples (last_reading b) rs
                    else sample_of (last_reading b) r ∷ all_samples r rs))
      by_time (inl stale) skipped kept = rw stale skipped
      by_time (inr fresh) skipped kept =
          let s = sample_of (last_reading b) r in
          rw fresh (
            kept
            ∙ ap (λ xs. last_of b.max_samples (xs ++ all_samples r rs))
                (trim-last_of b.max_samples (b.samples ++ s ∷ []))
            ∙ last_of-last_of b.max_samples (b.samples ++ s ∷ []) (all_samples r rs)
            ∙ ap (last_of b.max_samples) (append_assoc b.samples (s ∷ []) (all_samples r rs)))
