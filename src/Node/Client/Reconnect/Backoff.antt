-- ===== src/Node/Client/Reconnect/Backoff.antt =====
-- attemptReconnect ends, after waits that are bounded, in one of three ways.
use native.Mathlib.Nat.{pow-le-pow_right}
use the_family_vpn.Base.{ℕ, ◌+◌, ◌*◌, ◌^◌, ◌≤◌, ◌<◌, arith}
use the_family_vpn.Node.Client.Reconnect.{second, backoff, max_retries}

doubles : (i j : ℕ) → i ≤ j → 2 ^ i ≤ 2 ^ j
doubles i j h = pow-le-pow_right (omega arith) h

-- The waits of attemptReconnect, before attempt `k + 1` of 30: at least a second and at most 30, never
-- shorter than the wait before, and the product that is compared is in the range of an int64.
pub backoff_bounds :
    (k : ℕ)
    → k < max_retries
    → (second ≤ backoff second (30 * second) k)
      × (backoff second (30 * second) k ≤ 30 * second)
      × (backoff second (30 * second) k ≤ backoff second (30 * second) (k + 1))
      × (second * 2 ^ k < 2 ^ 63)
unfolding backoff
backoff_bounds k h =
    let at_least = doubles 0 k (omega arith) in
    let at_most = doubles k 29 (omega arith) in
    let longer = doubles k (k + 1) (omega arith) in
    (ground arith, ground arith, ground arith, omega arith)
