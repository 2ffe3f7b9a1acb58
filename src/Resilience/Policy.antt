-- ===== src/Resilience/Policy.antt =====
-- internal/resilience/retry.go: RetryableCall, Policy and PolicyBuilder, which put a circuit breaker
-- around each attempt of the retry loop. The caller's state holds the clock.
pub mod Laws
mod Tests
use virtrigaud.Prelude.{ℕ, Bool, String, Option, none, some}
use virtrigaud.Contracts.Errors.{GoError}
use virtrigaud.Resilience.Breaker.{CircuitBreaker, call}
use virtrigaud.Resilience.Retry.{Floats, RetryConfig, default_retry_config, retry}

pub record RetryableCall (F : Type 0) : Type 0 where
  pub config : RetryConfig F
  pub name : String

pub record Policy (F : Type 0) : Type 0 where
  pub retry_config : RetryConfig F
  pub circuit_breaker : Option CircuitBreaker
  pub name : String

pub record PolicyBuilder (F : Type 0) : Type 0 where
  pub name : String
  pub retry_config : Option (RetryConfig F)
  pub circuit_breaker : Option CircuitBreaker

module _ (fl : Floats) where
  open fl use {Float}

  -- A nil configuration is replaced by the default one.
  config_or_default : Option (RetryConfig Float) → RetryConfig Float
  config_or_default none = default_retry_config fl
  config_or_default (some config) = config

  -- NewRetryableCall
  unfoldable pub new_retryable_call : String → Option (RetryConfig Float) → RetryableCall Float
  unfolding config_or_default
  new_retryable_call name config = record { config = config_or_default config; name = name }

  -- NewPolicy
  unfoldable pub new_policy :
      String → Option (RetryConfig Float) → Option CircuitBreaker → Policy Float
  unfolding config_or_default
  new_policy name config breaker = record {
    retry_config = config_or_default config;
    circuit_breaker = breaker;
    name = name;
  }

  -- NewPolicyBuilder, WithRetry, WithCircuitBreaker, Build
  unfoldable pub new_policy_builder : String → PolicyBuilder Float
  new_policy_builder name = record { name = name; retry_config = none; circuit_breaker = none }

  unfoldable pub with_retry : Option (RetryConfig Float) → PolicyBuilder Float → PolicyBuilder Float
  with_retry config pb = record pb { retry_config = config }

  unfoldable pub with_circuit_breaker :
      Option CircuitBreaker → PolicyBuilder Float → PolicyBuilder Float
  with_circuit_breaker breaker pb = record pb { circuit_breaker = breaker }

  unfoldable pub build : PolicyBuilder Float → Policy Float
  unfolding new_policy
  build pb = new_policy pb.name pb.retry_config pb.circuit_breaker

  module _ {ℓ} {W : Type ℓ}
      -- the function, the clock, rand.Float64 and the wait of the caller's state
      (fn : W → GoError × W) (clock : W → ℕ) (rand : W → Float × W)
      (wait : ℕ → W → Option GoError × W) where
    -- (*RetryableCall).Execute of a function that does not look at the attempt's number
    unfoldable pub execute_call : RetryableCall Float → W → GoError × W
    execute_call rc w = retry fl (λ _. fn) rand wait rc.config w

    -- One attempt behind the breaker: `circuitBreaker.Call(ctx, fn)`.
    attempt_call : CircuitBreaker × W → GoError × (CircuitBreaker × W)
    attempt_call (cb, w) =
        let (err, cb', w') = call (clock w) (λ v. let (e, v') = fn v in (e, clock v', v')) cb w in
        (err, (cb', w'))

    beside_rand : CircuitBreaker × W → Float × (CircuitBreaker × W)
    beside_rand (cb, w) = let (r, w') = rand w in (r, (cb, w'))

    beside_wait : ℕ → CircuitBreaker × W → Option GoError × (CircuitBreaker × W)
    beside_wait delay (cb, w) = let (e, w') = wait delay w in (e, (cb, w'))

    -- (*RetryableCall).ExecuteWithCircuitBreaker
    unfoldable pub execute_with_circuit_breaker :
        RetryableCall Float → CircuitBreaker × W → GoError × (CircuitBreaker × W)
    unfolding attempt_call beside_rand beside_wait
    execute_with_circuit_breaker rc s =
        retry fl (λ _. attempt_call) beside_rand beside_wait rc.config s

    -- (*Policy).Execute; the breaker, which the policy shares by pointer, is returned with its new state
    unfoldable pub execute : Policy Float → W → GoError × (Option CircuitBreaker × W)
    unfolding execute_call execute_with_circuit_breaker new_retryable_call
    execute p w = elim p.circuit_breaker [
      | none ↦
          let (err, w') = execute_call (new_retryable_call p.name (some p.retry_config)) w in
          (err, (none, w'))
      | some cb ↦
          let (err, (cb', w')) =
            execute_with_circuit_breaker (new_retryable_call p.name (some p.retry_config))
              (cb, w) in
          (err, (some cb', w'))
    ]
