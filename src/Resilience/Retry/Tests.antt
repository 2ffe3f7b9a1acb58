-- ===== src/Resilience/Retry/Tests.antt =====
-- The retry loop and the delays of retry.go on small inputs, with fractions for float64.
use virtrigaud.Prelude.{
  ℕ, ◌+◌, ◌*◌, ◌/◌, ◌^◌, ◌≡◌, refl, List, [], ◌∷◌, Option, some, true, false, arith, take, drop,
}
use virtrigaud.Contracts.Errors.{GoError, nil, plain, provider_error, unavailable}
use virtrigaud.Resilience.Retry.{Floats, RetryConfig, is_retryable, calculate_delay, retry}
use virtrigaud.Resilience.Retry.Loop.{scripted, verdict, attempts, uncancelled, retry-verdict}

-- Fractions: a numerator and a denominator.
abbrev fractions : Floats
fractions = record {
  Float = ℕ × ℕ;
  of_duration = λ d. (d, 1);
  to_duration = λ q. q.0 / q.1;
  of_int = λ n. (n, 1);
  tenths = λ n. (n, 10);
  mul = λ p q. (p.0 * q.0, p.1 * q.1);
  add = λ p q. (p.0 * q.1 + q.0 * p.1, p.1 * q.1);
  pow = λ p q. (p.0 ^ q.0, p.1 ^ q.0);
}

abbrev config : RetryConfig (ℕ × ℕ)
config = record {
  max_attempts = 3;
  base_delay = 500;
  max_delay = 30000;
  multiplier = (20, 10);
  jitter = false;
}

abbrev busy : GoError
busy = provider_error unavailable "busy" nil true

abbrev no_random : List GoError → (ℕ × ℕ) × List GoError
no_random w = ((0, 1), w)

abbrev script : List GoError
script = busy ∷ plain "bad request" ∷ nil ∷ busy ∷ []

retry-verdict_example :
    retry fractions scripted no_random uncancelled config script
    ≡ (verdict nil (take 3 script), drop (attempts (take 3 script)) script)
retry-verdict_example = retry-verdict fractions no_random (λ w. refl) config script (omega arith)

gives_up :
    retry fractions scripted no_random uncancelled config script
    ≡ (plain "bad request", nil ∷ busy ∷ [])
unfolding retry scripted uncancelled is_retryable
gives_up = refl

cancel_always : ℕ → ℕ → Option GoError × ℕ
cancel_always delay w = (some (plain "context canceled"), w)

always_busy : ℕ → ℕ → GoError × ℕ
always_busy attempt w = (busy, w + 1)

doubling : calculate_delay fractions config 3 (0, 1) ≡ 4000
unfolding calculate_delay
doubling = refl

-- MaxAttempts 0 reports success without a call.
no_attempts :
    retry fractions scripted no_random uncancelled (record config { max_attempts = 0 }) script
    ≡ (nil, script)
unfolding retry
no_attempts = refl
