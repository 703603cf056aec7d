-- ===== src/Manager/Retry.antt =====
-- Retry budget and backoff of pkg/mirror/manager/manager.go (`retryBackoff`,
-- `effectiveMaxRetries`, `recordFailureLocked`). Durations are nanoseconds, as in Go's `time`.
use Prim.Native.Nat.{min}
use oc_mirror_operator.Base.{
  ℕ, zero, suc, ◌+◌, ◌-◌, ◌*◌, ◌/◌, ◌%◌, ◌^◌, ◌≤◌, ◌<◌, ◌≡◌, some, ◌&&◌, ◌||◌, arith, leb, ltb,
  if◌then◌else◌,
}
use oc_mirror_operator.ImageState.Entry.{ImageEntry}
use oc_mirror_operator.Manager.State.{MirrorManager, Tick}

abbrev pub minute : ℕ
minute = 60000000000

abbrev pub retry_backoff_base : ℕ
retry_backoff_base = 60000000000

abbrev pub retry_backoff_max : ℕ
retry_backoff_max = 3600000000000

abbrev pub default_max_retries : ℕ
default_max_retries = 10

-- the delay before the jitter
unfoldable pub backoff_delay : ℕ → ℕ
backoff_delay retry_count =
    if leb 1 retry_count && leb retry_count 7
    then min (retry_backoff_base * 2 ^ (retry_count - 1)) retry_backoff_max
    else retry_backoff_max

-- `Int64N(d/5) - d/10` may be negative; the sum is not, so it is computed before the subtraction
unfoldable pub retry_backoff : ℕ → ℕ → ℕ
unfolding backoff_delay
retry_backoff draw retry_count = let d = backoff_delay retry_count in d + draw % (d / 5) - d / 10

unfoldable pub effective_max_retries : MirrorManager → ℕ
effective_max_retries m = if ltb 0 m.max_retries then m.max_retries else default_max_retries

-- `budget` is the effective retry budget
unfoldable pub record_failure : Tick → ℕ → ImageEntry → ImageEntry
unfolding retry_backoff
record_failure t budget e =
    let count = e.retry_count + 1 in
    record e {
      retry_count = count;
      next_retry_at = some (t.now + retry_backoff t.draw count);
      permanently_failed = e.permanently_failed || leb budget count;
    }

backoff_delay_bounds : (n : ℕ) → (minute ≤ backoff_delay n) × (backoff_delay n ≤ 60 * minute)
unfolding backoff_delay
backoff_delay_bounds zero = omega arith
backoff_delay_bounds (suc zero) = omega arith
backoff_delay_bounds (suc (suc zero)) = omega arith
backoff_delay_bounds (suc (suc (suc zero))) = omega arith
backoff_delay_bounds (suc (suc (suc (suc zero)))) = omega arith
backoff_delay_bounds (suc (suc (suc (suc (suc zero))))) = omega arith
backoff_delay_bounds (suc (suc (suc (suc (suc (suc zero)))))) = omega arith
backoff_delay_bounds (suc (suc (suc (suc (suc (suc (suc zero))))))) = omega arith
backoff_delay_bounds (suc (suc (suc (suc (suc (suc (suc (suc n)))))))) = ground arith

-- the jitter is a tenth of the delay at most, either way
jitter_bounds :
    (d r : ℕ)
    → 10 ≤ d
    → (d - d / 10 ≤ d + r % (d / 5) - d / 10) × (d + r % (d / 5) - d / 10 < d + d / 5 - d / 10)
jitter_bounds d r h = omega arith

-- Whatever the failure count and the random draw, a failed image waits at least 54 seconds and less
-- than 66 minutes before its next attempt.
pub retry_backoff_bounds :
    (draw n : ℕ) → (54000000000 ≤ retry_backoff draw n) × (retry_backoff draw n < 66 * minute)
unfolding retry_backoff
retry_backoff_bounds draw n =
    omega (arith, backoff_delay_bounds n, jitter_bounds (backoff_delay n) draw)

-- Up to the seventh failure in a row the wait doubles: before the jitter, failure `n + 1` waits
-- twice as long as failure `n`, up to the maximum of one hour.
pub backoff_doubles :
    (n : ℕ) → 1 ≤ n → backoff_delay (n + 1) ≡ min (2 * backoff_delay n) retry_backoff_max
unfolding backoff_delay
backoff_doubles zero h = absurd (omega arith)
backoff_doubles (suc zero) h = omega arith
backoff_doubles (suc (suc zero)) h = omega arith
backoff_doubles (suc (suc (suc zero))) h = omega arith
backoff_doubles (suc (suc (suc (suc zero)))) h = omega arith
backoff_doubles (suc (suc (suc (suc (suc zero))))) h = omega arith
backoff_doubles (suc (suc (suc (suc (suc (suc zero)))))) h = omega arith
backoff_doubles (suc (suc (suc (suc (suc (suc (suc zero))))))) h = omega arith
backoff_doubles (suc (suc (suc (suc (suc (suc (suc (suc n)))))))) h = ground arith
