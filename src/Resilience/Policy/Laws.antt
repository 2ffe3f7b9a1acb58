-- ===== src/Resilience/Policy/Laws.antt =====
-- What retry.go's ExecuteWithCircuitBreaker promises about the breaker of circuitbreaker.go.
use virtrigaud.Prelude.{ℕ, ◌-◌, ◌≤◌, ◌≡◌, refl, arith, Option}
use virtrigaud.Contracts.Errors.{GoError}
use virtrigaud.Resilience.Breaker.{CircuitBreaker, open_state, call}
use virtrigaud.Resilience.Breaker.Invariant.{Inv, step, admit, finish, step-Inv}
use virtrigaud.Resilience.Breaker.Trip.{call_open_early}
use virtrigaud.Resilience.Retry.{Floats}
use virtrigaud.Resilience.Retry.Frame.{retry_keeps}
use virtrigaud.Resilience.Policy.{
  RetryableCall, attempt_call, beside_rand, beside_wait, execute_with_circuit_breaker,
}

call-Inv {ℓ} :
    {W : Type ℓ} (now : ℕ) (fn : W → GoError × ℕ × W) (cb : CircuitBreaker) (w : W)
    → Inv cb
    → Inv (call now fn cb w).1
unfolding call step
call-Inv now fn cb w h = ground (
  arith,
  step-Inv (admit now) cb h,
  step-Inv (finish (fn w).1 (fn w).0) (step (admit now) cb) (step-Inv (admit now) cb h),
)

module _ (fl : Floats) where
  open fl use {Float}

  module _ {ℓ} {W : Type ℓ} (fn : W → GoError × W) (clock : W → ℕ) (rand : W → Float × W)
      (wait : ℕ → W → Option GoError × W) where
    -- Retries keep the breaker's invariant, whatever the function, the clock and the waits do.
    pub execute-Inv :
        (rc : RetryableCall Float) (cb : CircuitBreaker) (w : W)
        → Inv cb
        → Inv (execute_with_circuit_breaker fl fn clock rand wait rc (cb, w)).1.0
    unfolding execute_with_circuit_breaker
    execute-Inv rc cb w h =
        retry_keeps fl (λ _. attempt_call fl fn clock rand wait) (beside_rand fl fn clock rand wait)
          (beside_wait fl fn clock rand wait) (λ s. Inv s.0)
          (λ attempt (b, v) k. call-Inv _ _ b v k) (λ (b, v) k. k) (λ delay (b, v) k. k) rc.config
          (cb, w) h

    -- While a breaker is open and its reset timeout has not passed, retries never reach the function:
    -- the breaker ends as it was, and any property of the caller's state that the random numbers and
    -- the waits keep, and under which the timeout has not passed, still holds at the end, though
    -- the function itself need not keep it.
    pub execute_open_untouched {κ} :
        (rc : RetryableCall Float) (cb : CircuitBreaker) (w : W) (Quiet : W → Type κ)
        → cb.state ≡ open_state
        → ((v : W) → Quiet v → clock v - cb.last_failure_time ≤ cb.reset_timeout)
        → ((v : W) → Quiet v → Quiet (rand v).1)
        → ((delay : ℕ) (v : W) → Quiet v → Quiet (wait delay v).1)
        → Quiet w
        → let (cb', w') = (execute_with_circuit_breaker fl fn clock rand wait rc (cb, w)).1 in
          (cb' ≡ cb) × Quiet w'
    unfolding execute_with_circuit_breaker
    execute_open_untouched rc cb w Quiet o early r k q =
        retry_keeps fl (λ _. attempt_call fl fn clock rand wait) (beside_rand fl fn clock rand wait)
          (beside_wait fl fn clock rand wait) (λ s. (s.0 ≡ cb) × Quiet s.1)
          (λ attempt (b, v) h.
            rw (h.0, call_open_early (clock v) _ cb v o (early v h.1)) (refl, h.1))
          (λ (b, v) h. (h.0, r v h.1)) (λ delay (b, v) h. (h.0, k delay v h.1)) rc.config (cb, w)
          (refl, q)
