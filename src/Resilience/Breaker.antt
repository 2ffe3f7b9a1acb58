-- ===== src/Resilience/Breaker.antt =====
-- internal/resilience/circuitbreaker.go, the breaker of one provider. Each method that takes the lock
-- is a function from the old breaker to the new one. Time is in nanoseconds and an argument of the
-- methods that read the clock. The counters `failures` and `half_open_calls` and the configured
-- limits are Go `int`s that the code never makes negative; a negative limit in a configuration is not
-- modelled.
pub mod Invariant
pub mod Trip
pub mod Recovery
mod Tests
use virtrigaud.Prelude.{
  ℕ, ◌+◌, ◌-◌, Bool, true, false, String, List, [], ◌∷◌, ltb, leb, sprintf, if◌then◌else◌,
}
use virtrigaud.Contracts.Errors.{GoError, nil, is_nil, new_unavailable_error}

pub data State : Type 0 where
  closed half_open open_state : State

pub record Config : Type 0 where
  pub failure_threshold : ℕ
  pub reset_timeout : ℕ
  pub half_open_max_calls : ℕ

-- DefaultConfig
abbrev pub default_config : Config
default_config = record {
  failure_threshold = 10;
  reset_timeout = 60_000_000_000;
  half_open_max_calls = 3;
}

-- `gauge` and `failures_total` are the samples that this breaker was the last to report through its
-- *CircuitBreakerMetrics. The metrics themselves are labelled by provider type and provider, so that
-- breakers of different names for one provider report to the same series, which is not modelled.
pub record CircuitBreaker : Type 0 where
  pub config : Config
  pub open config use *
  pub state : State
  pub failures : ℕ
  pub last_failure_time : ℕ
  pub half_open_calls : ℕ
  pub gauge : ℕ
  pub failures_total : ℕ
  pub name : String

-- (State).String
unfoldable pub state_string : State → String
state_string closed = "closed"
state_string half_open = "half-open"
state_string open_state = "open"

-- metrics.CircuitBreakerClosed, CircuitBreakerHalfOpen, CircuitBreakerOpen
abbrev pub gauge_of : State → ℕ
gauge_of closed = 0
gauge_of half_open = 1
gauge_of open_state = 2

-- NewCircuitBreaker with a configuration that is not nil
unfoldable pub new_circuit_breaker : String → Config → CircuitBreaker
new_circuit_breaker name config = record {
  config = config;
  state = closed;
  failures = 0;
  last_failure_time = 0;
  half_open_calls = 0;
  gauge = gauge_of closed;
  failures_total = 0;
  name = name;
}

transition_to_closed : CircuitBreaker → CircuitBreaker
transition_to_closed cb = record cb {
  state = closed;
  failures = 0;
  half_open_calls = 0;
  gauge = gauge_of closed;
}

transition_to_open : CircuitBreaker → CircuitBreaker
transition_to_open cb = record cb {
  state = open_state;
  half_open_calls = 0;
  gauge = gauge_of open_state;
}

transition_to_half_open : CircuitBreaker → CircuitBreaker
transition_to_half_open cb = record cb {
  state = half_open;
  half_open_calls = 0;
  gauge = gauge_of half_open;
}

-- The `case StateHalfOpen` of allowCall.
allow_half_open : CircuitBreaker → Bool × CircuitBreaker
allow_half_open cb =
    if ltb cb.half_open_calls cb.half_open_max_calls
    then (true, record cb { half_open_calls = cb.half_open_calls + 1 })
    else (false, cb)

allow_dispatch : State → ℕ → CircuitBreaker → Bool × CircuitBreaker
unfolding allow_half_open transition_to_half_open
allow_dispatch closed now cb = (true, cb)
allow_dispatch half_open now cb = allow_half_open cb
allow_dispatch open_state now cb =
    if leb (now - cb.last_failure_time) cb.reset_timeout
    then (false, cb)
    else allow_half_open (transition_to_half_open cb)

-- allowCall at the time `now`
unfoldable pub allow_call : ℕ → CircuitBreaker → Bool × CircuitBreaker
unfolding allow_dispatch
allow_call now cb = allow_dispatch cb.state now cb

failure_dispatch : State → CircuitBreaker → CircuitBreaker
unfolding transition_to_open
failure_dispatch closed cb =
    if leb cb.failure_threshold cb.failures then transition_to_open cb else cb
failure_dispatch half_open cb = transition_to_open cb
failure_dispatch open_state cb = cb

-- recordFailure at the time `now`
unfoldable pub record_failure : ℕ → CircuitBreaker → CircuitBreaker
unfolding failure_dispatch
record_failure now cb = failure_dispatch cb.state (record cb {
  failures = cb.failures + 1;
  last_failure_time = now;
  failures_total = cb.failures_total + 1;
})

success_dispatch : State → CircuitBreaker → CircuitBreaker
unfolding transition_to_closed
success_dispatch half_open cb =
    if leb cb.half_open_max_calls cb.half_open_calls then transition_to_closed cb else cb
success_dispatch closed cb = record cb { failures = 0 }
success_dispatch open_state cb = cb

-- recordSuccess
unfoldable pub record_success : CircuitBreaker → CircuitBreaker
unfolding success_dispatch
record_success cb = success_dispatch cb.state cb

-- recordResult at the time `now`
unfoldable pub record_result : ℕ → GoError → CircuitBreaker → CircuitBreaker
unfolding record_failure record_success
record_result now err cb = if is_nil err then record_success cb else record_failure now cb

-- Reset
unfoldable pub reset : CircuitBreaker → CircuitBreaker
unfolding transition_to_closed
reset cb = transition_to_closed cb

-- What Call answers without running the function.
abbrev pub rejection : CircuitBreaker → GoError
unfolding new_unavailable_error
rejection cb = new_unavailable_error (sprintf ("circuit breaker " ∷ cb.name ∷ " is open" ∷ [])) nil

-- Call. The wrapped function acts on the caller's state; `now` is the time at which the call is
-- admitted or refused, and the function returns the time at which its result is recorded.
unfoldable pub call {ℓ} :
    {W : Type ℓ} → ℕ → (W → GoError × ℕ × W) → CircuitBreaker → W → GoError × CircuitBreaker × W
unfolding allow_call record_result
call now fn cb w =
    let (allowed, cb') = allow_call now cb in
    let (err, later, w') = fn w in
    if allowed then (err, record_result later err cb', w') else (rejection cb', cb', w)
