-- ===== src/Resilience/Retry/Delay.antt =====
-- The delays of retry.go, calculateDelay. A duration is the bit pattern of an int64.
use virtrigaud.Prelude.{ℕ, ◌≡◌, false, ◌^◌, arith, ◌<◌}
use virtrigaud.Prelude.Word.{lt64}
use virtrigaud.Resilience.Retry.{Floats, RetryConfig, calculate_delay}

module _ (fl : Floats) where
  open fl use {Float, of_duration, to_duration, of_int, mul, pow}

  -- Without jitter the delay is never above MaxDelay, in the order of the signed durations: it is
  -- enough that float64 holds MaxDelay exactly, as it does every integer up to 2 ^ 53.
  pub delay_capped :
      (config : RetryConfig Float) (attempt : ℕ) (random : Float)
      → config.jitter ≡ false
      → to_duration (of_duration config.max_delay) ≡ config.max_delay
      → lt64 config.max_delay (calculate_delay fl config attempt random) ≡ false
  unfolding calculate_delay
  delay_capped config attempt random j exact = ground arith

  -- The cap does not see a product that is out of the range of int64 and that the conversion turns
  -- into the smallest int64, as it does on amd64: for a MaxDelay that is not negative, the delay
  -- without jitter is that negative number.
  pub delay_overflows :
      (config : RetryConfig Float) (attempt : ℕ) (random : Float)
      → config.jitter ≡ false
      → config.max_delay < 2 ^ 63
      → to_duration (mul (of_duration config.base_delay) (pow config.multiplier (of_int attempt)))
        ≡ 2 ^ 63
      → calculate_delay fl config attempt random ≡ 2 ^ 63
  unfolding calculate_delay
  delay_overflows config attempt random j m o = ground arith
