-- ===== src/Resilience/Breaker/Trip.antt =====
-- How circuitbreaker.go opens, and what a caller of an open breaker sees.
use virtrigaud.Prelude.{
  ℕ, ◌+◌, ◌-◌, ◌≤◌, ◌<◌, ◌≡◌, List, [], ◌∷◌, false, arith, length, if◌then◌else◌, leb,
}
use virtrigaud.Contracts.Errors.{GoError, is_nil}
use virtrigaud.Resilience.Breaker.{
  CircuitBreaker, closed, half_open, open_state, allow_call, record_result, call, rejection,
}

-- A call of an open breaker, all cases: until the reset timeout has passed since the last failure the
-- caller gets the Unavailable error, the function does not run and the breaker stays as it was;
-- afterwards, if at least one trial call is configured, the function runs as the first trial.
pub call_open {ℓ} :
    {W : Type ℓ} (now : ℕ) (fn : W → GoError × ℕ × W) (cb : CircuitBreaker) (w : W)
    → cb.state ≡ open_state
    → 0 < cb.half_open_max_calls
    → call now fn cb w ≡ (
        if leb (now - cb.last_failure_time) cb.reset_timeout then (rejection cb, cb, w) else (
          (fn w).0,
          record_result
              (fn w).1
              (fn w).0
              (record cb { state = half_open; half_open_calls = 1; gauge = 1 }),
          (fn w).2,
        ))
unfolding call allow_call
call_open now fn cb w h pos = ground arith

pub call_open_early {ℓ} :
    {W : Type ℓ} (now : ℕ) (fn : W → GoError × ℕ × W) (cb : CircuitBreaker) (w : W)
    → cb.state ≡ open_state
    → now - cb.last_failure_time ≤ cb.reset_timeout
    → call now fn cb w ≡ (rejection cb, cb, w)
unfolding call allow_call
call_open_early now fn cb w h early = ground arith

-- `k` failures in a row, at the given times.
abbrev pub fail_all : List (ℕ × GoError) → CircuitBreaker → CircuitBreaker
fail_all [] cb = cb
fail_all ((now, err) ∷ rs) cb = fail_all rs (record_result now err cb)

abbrev pub AllFail : List (ℕ × GoError) → Type 0
AllFail [] = Unit
AllFail ((now, err) ∷ rs) = (is_nil err ≡ false) × AllFail rs

stays_open :
    (rs : List (ℕ × GoError)) (cb : CircuitBreaker)
    → AllFail rs
    → cb.state ≡ open_state
    → (fail_all rs cb).state ≡ open_state
unfolding record_result
stays_open [] cb h s = s
stays_open ((now, err) ∷ rs) cb (f, h) s = stays_open rs (record_result now err cb) h (ground arith)

-- A closed breaker with fewer failures than its threshold is opened by exactly the failure that
-- reaches the threshold: after `k` consecutive failed results it is open if the failures before and
-- these together reach the threshold, and closed otherwise.
pub trips_at_threshold :
    (rs : List (ℕ × GoError)) (cb : CircuitBreaker)
    → AllFail rs
    → cb.state ≡ closed
    → cb.failures < cb.failure_threshold
    → (fail_all rs cb).state
      ≡ (if leb cb.failure_threshold (cb.failures + length rs) then open_state else closed)
unfolding record_result
trips_at_threshold [] cb h s b = ground arith
trips_at_threshold ((now, err) ∷ rs) cb (f, h) s b = ground (
  arith,
  stays_open rs (record_result now err cb) h,
  trips_at_threshold rs (record_result now err cb) h,
)
