-- ===== src/Resilience/Breaker/Invariant.antt =====
-- What holds of a breaker of circuitbreaker.go under every interleaving of its callers: the lock makes
-- each method one event, so a history is a list of events in the order in which they took the lock.
use virtrigaud.Prelude.{ℕ, ◌+◌, ◌≤◌, ◌<◌, ◌≡◌, List, [], ◌∷◌, String, arith, length}
use virtrigaud.Contracts.Errors.{GoError}
use virtrigaud.Resilience.Breaker.{
  CircuitBreaker, Config, closed, half_open, open_state, gauge_of, new_circuit_breaker, allow_call,
  record_result, reset,
}

pub data Event : Type 0 where
  admit : ℕ → Event
  finish : ℕ → GoError → Event
  reset_now : Event

unfoldable pub step : Event → CircuitBreaker → CircuitBreaker
unfolding allow_call record_result reset
step (admit now) cb = (allow_call now cb).1
step (finish now err) cb = record_result now err cb
step reset_now cb = reset cb

pub run : List Event → CircuitBreaker → CircuitBreaker
run [] cb = cb
run (e ∷ es) cb = run es (step e cb)

pub record Inv (cb : CircuitBreaker) : Type 0 where
  pub gauge_tracks : cb.gauge ≡ gauge_of cb.state
  pub trials_bounded : cb.half_open_calls ≤ cb.half_open_max_calls
  pub closed_no_trials : cb.state ≡ closed → cb.half_open_calls ≡ 0
  pub open_no_trials : cb.state ≡ open_state → cb.half_open_calls ≡ 0
  pub closed_below :
      cb.state ≡ closed → 0 < cb.failure_threshold → cb.failures < cb.failure_threshold
  pub half_open_tripped : cb.state ≡ half_open → cb.failure_threshold ≤ cb.failures
  pub open_tripped : cb.state ≡ open_state → cb.failure_threshold ≤ cb.failures
  pub counted : cb.failures ≤ cb.failures_total

new-Inv : (name : String) (c : Config) → Inv (new_circuit_breaker name c)
unfolding new_circuit_breaker
new-Inv name c = ground arith

-- Every event keeps the invariant.
pub step-Inv : (e : Event) (cb : CircuitBreaker) → Inv cb → Inv (step e cb)
unfolding step
step-Inv (admit now) cb h = ground arith
step-Inv (finish now err) cb h = ground arith
step-Inv reset_now cb h = ground arith

run_from-Inv : (es : List Event) (cb : CircuitBreaker) → Inv cb → Inv (run es cb)
unfolding run
run_from-Inv [] cb h = h
run_from-Inv (e ∷ es) cb h = run_from-Inv es (step e cb) (step-Inv e cb h)

-- From NewCircuitBreaker on, after any history of admissions, results and resets in any order: the
-- gauge shows the state, no more than HalfOpenMaxCalls trial calls are counted and none outside
-- half-open, a closed breaker has fewer failures than a positive threshold, and a breaker that is
-- open or half-open has reached the threshold.
pub run-Inv :
    (name : String) (c : Config) (es : List Event) → Inv (run es (new_circuit_breaker name c))
run-Inv name c es = run_from-Inv es (new_circuit_breaker name c) (new-Inv name c)

failures_total-step :
    (e : Event) (cb : CircuitBreaker) → (step e cb).failures_total ≤ cb.failures_total + 1
unfolding step
failures_total-step (admit now) cb = ground arith
failures_total-step (finish now err) cb = ground arith
failures_total-step reset_now cb = ground arith

failures_total-run :
    (es : List Event) (cb : CircuitBreaker)
    → (run es cb).failures_total ≤ cb.failures_total + length es
unfolding run
failures_total-run [] cb = omega arith
failures_total-run (e ∷ es) cb =
    omega (arith, failures_total-step e cb, failures_total-run es (step e cb))

-- The counters stay below the number of events, so Go's 64-bit `int` does not overflow in any
-- history of fewer than 2 ^ 63 events.
pub failures-le-length :
    (name : String) (c : Config) (es : List Event)
    → (run es (new_circuit_breaker name c)).failures ≤ length es
unfolding new_circuit_breaker
failures-le-length name c es =
    omega (arith, (run-Inv name c es).counted, failures_total-run es (new_circuit_breaker name c))
