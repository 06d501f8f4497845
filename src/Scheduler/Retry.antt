-- ===== src/Scheduler/Retry.antt =====
-- retry_delay_seconds: the wait after a failure grows, up to five minutes.
use coroutine_rpc_scheduler.Common.{arith, max, min, suc, zero, ℕ, ◌*◌, ◌-◌, ◌^◌, ◌≡◌, ◌≤◌}

-- `retry_count - 1` is an int: at 0 it is -1, which `std::max` takes to 0.
unfoldable pub retry_delay_seconds : ℕ → ℕ
retry_delay_seconds retry_count = min 300 (5 * 2 ^ min (max (retry_count - 1) 0) 6)

exponent : ℕ → ℕ
exponent n = min (max (n - 1) 0) 6

exponent_large : (n : ℕ) → 7 ≤ n → exponent n ≡ 6
unfolding exponent
exponent_large n h = omega arith

-- The delay lies between 5 and 300 seconds, and never falls as the failures grow.
pub retry_delay_seconds_bounds :
    (n : ℕ)
    → (5 ≤ retry_delay_seconds n)
      × (retry_delay_seconds n ≤ 300)
      × (retry_delay_seconds n ≤ retry_delay_seconds (suc n))
unfolding retry_delay_seconds exponent
retry_delay_seconds_bounds zero = omega arith
retry_delay_seconds_bounds (suc zero) = omega arith
retry_delay_seconds_bounds (suc (suc zero)) = omega arith
retry_delay_seconds_bounds (suc (suc (suc zero))) = omega arith
retry_delay_seconds_bounds (suc (suc (suc (suc zero)))) = omega arith
retry_delay_seconds_bounds (suc (suc (suc (suc (suc zero))))) = omega arith
retry_delay_seconds_bounds (suc (suc (suc (suc (suc (suc zero)))))) = omega arith
retry_delay_seconds_bounds (suc (suc (suc (suc (suc (suc (suc n))))))) =
    let large = suc (suc (suc (suc (suc (suc (suc n)))))) in
    rw (exponent_large large (omega arith), exponent_large (suc large) (omega arith)) (omega arith)
