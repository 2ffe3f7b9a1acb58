-- ===== src/Resilience/Retry.antt =====
-- internal/resilience/retry.go: the retry loop and its delays. A `time.Duration` is the bit pattern of
-- an int64. Go's float64 is a parameter, and so are the function that is retried, the random number
-- of the jitter and the wait, which act on the caller's state.
pub mod Loop
pub mod Delay
pub mod Frame
mod Tests
use virtrigaud.Prelude.{
  ℕ, zero, suc, ◌+◌, ◌-◌, ◌*◌, Bool, true, false, not, Option, none, some, ◌==◌, if◌then◌else◌,
}
use virtrigaud.Prelude.Word.{lt64}
use virtrigaud.Contracts.Errors.{
  GoError, nil, provider_error, status_error, wrapped, plain, is_nil, provider_is_retryable,
}

-- The float64 operations of calculateDelay. `tenths n` is the constant n / 10.
pub record Floats : Type 1 where
  pub Float : Type 0
  pub of_duration : ℕ → Float
  pub to_duration : Float → ℕ
  pub of_int : ℕ → Float
  pub tenths : ℕ → Float
  pub mul : Float → Float → Float
  pub add : Float → Float → Float
  pub pow : Float → Float → Float

pub record RetryConfig (F : Type 0) : Type 0 where
  pub max_attempts : ℕ
  pub base_delay : ℕ
  pub max_delay : ℕ
  pub multiplier : F
  pub jitter : Bool

abbrev millisecond : ℕ
millisecond = 1_000_000

abbrev second : ℕ
second = 1_000_000_000

-- IsRetryable: only a *ProviderError itself is looked at, not one that is wrapped.
unfoldable pub is_retryable : GoError → Bool
unfolding provider_is_retryable
is_retryable nil = false
is_retryable (provider_error t m c r) = provider_is_retryable t r
is_retryable (status_error c m) = false
is_retryable (wrapped m e) = false
is_retryable (plain m) = false

module _ (fl : Floats) where
  open fl use {Float, of_duration, to_duration, of_int, tenths, mul, add, pow}

  -- DefaultRetryConfig, AggressiveRetryConfig, ConservativeRetryConfig, NoRetryConfig
  unfoldable pub default_retry_config : RetryConfig Float
  default_retry_config = record {
    max_attempts = 5;
    base_delay = 500 * millisecond;
    max_delay = 30 * second;
    multiplier = tenths 20;
    jitter = true;
  }

  unfoldable pub aggressive_retry_config : RetryConfig Float
  aggressive_retry_config = record {
    max_attempts = 10;
    base_delay = 100 * millisecond;
    max_delay = 10 * second;
    multiplier = tenths 15;
    jitter = true;
  }

  unfoldable pub conservative_retry_config : RetryConfig Float
  conservative_retry_config = record {
    max_attempts = 3;
    base_delay = 1 * second;
    max_delay = 60 * second;
    multiplier = tenths 30;
    jitter = true;
  }

  unfoldable pub no_retry_config : RetryConfig Float
  no_retry_config = record {
    max_attempts = 1;
    base_delay = 0;
    max_delay = 0;
    multiplier = tenths 10;
    jitter = false;
  }

  -- calculateDelay; `random` is the value of rand.Float64().
  unfoldable pub calculate_delay : RetryConfig Float → ℕ → Float → ℕ
  calculate_delay config attempt random =
      let raw = mul (of_duration config.base_delay) (pow config.multiplier (of_int attempt)) in
      let delay =
        if lt64 config.max_delay (to_duration raw) then of_duration config.max_delay else raw in
      let jitter = mul (mul delay (tenths 1)) random in
      to_duration (if config.jitter then add delay jitter else delay)

  module _ {ℓ} {W : Type ℓ}
      -- the function, given the number of the attempt
      (fn : ℕ → W → GoError × W)
      -- rand.Float64
      (rand : W → Float × W)
      -- the wait for the delay: the context's error if it is cancelled first
      (wait : ℕ → W → Option GoError × W) where
    -- The rounds of Retry that are left, with the number of the attempt and `lastErr`.
    retry_loop : RetryConfig Float → ℕ → ℕ → GoError → W → GoError × W
    retry_loop config zero attempt last_err w = (last_err, w)
    retry_loop config (suc left) attempt last_err w =
        let (err, w') = fn attempt w in
        let (random, w'') = if config.jitter then rand w' else (tenths 0, w') in
        let (cancelled, w''') = wait (calculate_delay config attempt random) w'' in
        let next = retry_loop config left (attempt + 1) err w''' in
        let paused : GoError × W = elim cancelled [ some e ↦ (e, w''') | none ↦ next ] in
        if is_nil err
        then (nil, w')
        else if not (is_retryable err)
        then (err, w')
        else if attempt == config.max_attempts - 1
        then (err, w')
        else paused

    -- Retry with a configuration that is not nil
    unfoldable pub retry : RetryConfig Float → W → GoError × W
    unfolding retry_loop
    retry config w = retry_loop config config.max_attempts 0 nil w
