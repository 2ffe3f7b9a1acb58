-- ===== src/Resilience/Retry/Loop.antt =====
-- What Retry of retry.go returns, and how often it calls the function.
use virtrigaud.Prelude.{
  ℕ, zero, suc, ◌+◌, ◌≤◌, ◌<◌, ◌≡◌, refl, List, [], ◌∷◌, true, false, arith, length, Option, none,
  some, if◌then◌else◌, take, drop,
}
use virtrigaud.Contracts.Errors.{GoError, nil, is_nil}
use virtrigaud.Resilience.Retry.{
  Floats, RetryConfig, is_retryable, calculate_delay, retry_loop, retry,
}

-- A function whose results are a script: each call takes the next one.
unfoldable pub scripted : ℕ → List GoError → GoError × List GoError
scripted attempt [] = (nil, [])
scripted attempt (err ∷ errs) = (err, errs)

-- A wait that is never cancelled.
unfoldable pub uncancelled : ℕ → List GoError → Option GoError × List GoError
uncancelled delay w = (none, w)

-- The result of a list of attempts: that of the first one that succeeds or must not be retried, or
-- else that of the last one.
pub verdict : GoError → List GoError → GoError
verdict last [] = last
verdict last (err ∷ errs) = if is_retryable err then verdict err errs else err

-- The number of attempts that are made.
pub attempts : List GoError → ℕ
attempts [] = 0
attempts (err ∷ errs) = if is_retryable err then suc (attempts errs) else 1

nil_not_retryable : (err : GoError) → is_nil err ≡ true → (err ≡ nil) × (is_retryable err ≡ false)
unfolding is_retryable
nil_not_retryable err h = ground arith

module _ (fl : Floats) where
  open fl use {Float}

  module _ {ℓ} {W : Type ℓ} (fn : ℕ → W → GoError × W) (rand : W → Float × W)
      (wait : ℕ → W → Option GoError × W) where
    loop_cancelled :
        (config : RetryConfig Float) (left : ℕ) (w : W) (e : GoError)
        → 0 < left
        → 1 < config.max_attempts
        → is_retryable (fn 0 w).0 ≡ true
        → ((delay : ℕ) (v : W) → (wait delay v).0 ≡ some e)
        → (retry_loop fl fn rand wait config left 0 nil w).0 ≡ e
    unfolding retry_loop
    loop_cancelled config zero w e p many h c = absurd (omega arith)
    loop_cancelled config (suc left) w e p many h c =
        let drawn = if config.jitter then rand (fn 0 w).1 else (fl.tenths 0, (fn 0 w).1) in
        ground
          (arith, nil_not_retryable (fn 0 w).0, c (calculate_delay fl config 0 drawn.0) drawn.1)

    -- An error that a wait is cancelled with ends the retries: for any function and caller's state,
    -- when the first attempt fails with a retryable error, more attempts are allowed and every wait
    -- is cancelled with the context's error, Retry returns that error.
    pub retry_cancelled :
        (config : RetryConfig Float) (w : W) (e : GoError)
        → 1 < config.max_attempts
        → is_retryable (fn 0 w).0 ≡ true
        → ((delay : ℕ) (v : W) → (wait delay v).0 ≡ some e)
        → (retry fl fn rand wait config w).0 ≡ e
    unfolding retry
    retry_cancelled config w e many =
        loop_cancelled config config.max_attempts w e (omega arith) many

  module _ (rand : List GoError → Float × List GoError)
      (rand_pure : (w : List GoError) → (rand w).1 ≡ w) where
    loop : RetryConfig Float → ℕ → ℕ → GoError → List GoError → GoError × List GoError
    loop = retry_loop fl scripted rand uncancelled

    -- One round, by what its attempt returns.
    round_final :
        (config : RetryConfig Float) (left attempt : ℕ) (last err : GoError) (script : List GoError)
        → is_retryable err ≡ false
        → loop config (suc left) attempt last (err ∷ script) ≡ (err, script)
    unfolding loop retry_loop scripted
    round_final config left attempt last err script h = ground (arith, nil_not_retryable err)

    not_nil : (err : GoError) → is_retryable err ≡ true → is_nil err ≡ false
    unfolding is_retryable
    not_nil err h = ground arith

    round_last :
        (config : RetryConfig Float) (left attempt : ℕ) (last err : GoError) (script : List GoError)
        → is_retryable err ≡ true
        → attempt + 1 ≡ config.max_attempts
        → loop config (suc left) attempt last (err ∷ script) ≡ (err, script)
    unfolding loop retry_loop scripted
    round_last config left attempt last err script h e = ground (arith, not_nil err)

    round_next :
        (config : RetryConfig Float) (left attempt : ℕ) (last err : GoError) (script : List GoError)
        → is_retryable err ≡ true
        → attempt + 1 < config.max_attempts
        → loop config (suc left) attempt last (err ∷ script)
          ≡ loop config left (attempt + 1) err script
    unfolding loop retry_loop scripted uncancelled
    round_next config left attempt last err script h e =
        ground (arith, not_nil err, rand_pure script)

    round_none :
        (config : RetryConfig Float) (attempt : ℕ) (last : GoError) (script : List GoError)
        → loop config zero attempt last script ≡ (last, script)
    unfolding loop retry_loop
    round_none config attempt last script = refl

    loop-verdict :
        (config : RetryConfig Float) (left attempt : ℕ) (last : GoError) (script : List GoError)
        → attempt + left ≡ config.max_attempts
        → left ≤ length script
        → loop config left attempt last script
          ≡ (verdict last (take left script), drop (attempts (take left script)) script)
    unfolding verdict attempts
    loop-verdict config zero attempt last script e h = round_none config attempt last script
    loop-verdict config (suc left) attempt last [] e h = absurd (omega arith)
    loop-verdict config (suc zero) attempt last (err ∷ script) e h = ground (
      arith,
      round_final config zero attempt last err script,
      round_last config zero attempt last err script,
    )
    loop-verdict config (suc (suc left)) attempt last (err ∷ script) e h = ground (
      arith,
      round_final config (suc left) attempt last err script,
      round_next config (suc left) attempt last err script,
      loop-verdict config (suc left) (attempt + 1) err script,
    )

    -- Retry is the policy that it describes, for a function whose results are a list of at least
    -- MaxAttempts entries: when no wait is cancelled, it returns the first of the first MaxAttempts
    -- results that is a success or must not be retried, or else the last of them, and it makes
    -- exactly the attempts up to that one. With MaxAttempts 0 that is success without a call.
    pub retry-verdict :
        (config : RetryConfig Float) (script : List GoError)
        → config.max_attempts ≤ length script
        → retry fl scripted rand uncancelled config script ≡ (
          verdict nil (take config.max_attempts script),
          drop (attempts (take config.max_attempts script)) script,
        )
    unfolding retry loop
    retry-verdict config script h =
        loop-verdict config config.max_attempts 0 nil script (omega arith) h

attempts-le : (n : ℕ) (script : List GoError) → attempts (take n script) ≤ n
unfolding attempts
attempts-le zero script = omega arith
attempts-le (suc n) [] = omega arith
attempts-le (suc n) (err ∷ script) = ground (arith, attempts-le n script)
