-- ===== src/Resilience/Breaker/Tests.antt =====
-- The breaker of circuitbreaker.go on small inputs.
use virtrigaud.Prelude.{ℕ, ◌≡◌, refl, List, [], ◌∷◌}
use virtrigaud.Contracts.Errors.{GoError, nil, plain}
use virtrigaud.Resilience.Breaker.{
  CircuitBreaker, closed, open_state, default_config, new_circuit_breaker, record_result,
  allow_call,
}
use virtrigaud.Resilience.Breaker.Invariant.{Inv, Event, admit, finish, reset_now, run, run-Inv}

abbrev down : GoError
down = plain "connection refused"

abbrev history : List Event
history = admit 1 ∷ finish 2 down ∷ admit 3 ∷ finish 4 nil ∷ reset_now ∷ []

abbrev tripped : CircuitBreaker
tripped = record {
  config = record { failure_threshold = 2; reset_timeout = 50; half_open_max_calls = 3 };
  state = open_state;
  failures = 2;
  last_failure_time = 100;
  half_open_calls = 0;
  gauge = 2;
  failures_total = 2;
  name = "rpc";
}

abbrev healthy : CircuitBreaker
healthy = record tripped { state = closed; failures = 0; gauge = 0; failures_total = 0 }

abbrev no_trials : CircuitBreaker
no_trials = record tripped {
  config = record { failure_threshold = 2; reset_timeout = 50; half_open_max_calls = 0 };
}

abbrev ping : ℕ → GoError × ℕ × ℕ
ping w = (nil, 170, w)

run-Inv_example : Inv (run history (new_circuit_breaker "rpc" default_config))
run-Inv_example = run-Inv "rpc" default_config history

reopens : (record_result 160 down (allow_call 151 tripped).1).state ≡ open_state
unfolding record_result allow_call
reopens = refl
