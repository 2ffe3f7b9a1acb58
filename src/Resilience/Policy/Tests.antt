-- ===== src/Resilience/Policy/Tests.antt =====
-- Retries behind an open breaker, retry.go and circuitbreaker.go together.
use virtrigaud.Prelude.{ℕ, ◌+◌, ◌*◌, ◌/◌, ◌^◌, ◌≤◌, true}
use virtrigaud.Contracts.Errors.{GoError, nil}
use virtrigaud.Resilience.Breaker.{CircuitBreaker, open_state}
use virtrigaud.Resilience.Retry.{Floats}
use virtrigaud.Resilience.Policy.{RetryableCall}

abbrev whole_numbers : Floats
whole_numbers = record {
  Float = ℕ;
  of_duration = λ d. d;
  to_duration = λ q. q;
  of_int = λ n. n;
  tenths = λ n. n / 10;
  mul = λ p q. p * q;
  add = λ p q. p + q;
  pow = λ p q. p ^ q;
}

abbrev tripped : CircuitBreaker
tripped = record {
  config = record { failure_threshold = 2; reset_timeout = 50; half_open_max_calls = 3 };
  state = open_state;
  failures = 2;
  last_failure_time = 100;
  half_open_calls = 0;
  gauge = 2;
  failures_total = 2;
  name = "rpc";
}

abbrev thrice : RetryableCall ℕ
thrice = record {
  config = record {
    max_attempts = 3;
    base_delay = 1;
    max_delay = 9;
    multiplier = 2;
    jitter = true;
  };
  name = "describe";
}

-- The caller's state is its clock, which the RPC would set to 999 and the waits leave below 150.
abbrev rpc : ℕ → GoError × ℕ
rpc now = (nil, 999)

abbrev Early : ℕ → Type 0
Early now = now ≤ 140
